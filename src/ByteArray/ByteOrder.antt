-- ===== src/ByteArray/ByteOrder.antt =====
-- include/endian_cpp.h: integers of w bytes in memory, and byteswap. `host` is SYLAR_BYTE_ORDER.
use native.Mathlib.Nat.{pow-suc}
use mathlib.Core.List.{reverse, reverse-reverse, reverse-cons}
use mathlib.Core.Path.{ap₂}
use cor_reactor.Base.{
  subst, ℕ, zero, suc, ◌+◌, ◌*◌, ◌/◌, ◌%◌, ◌^◌, ◌<◌, ◌≡◌, refl, sym, ap, ◌∙◌, List, [], ◌∷◌, Bool,
  true, false, length, length-append, All, All-append, arith, if◌then◌else◌,
}
use cor_reactor.ByteArray.{Endian, little, big}

-- The `w` bytes of a number, lowest first, and the number of such bytes.
unfoldable pub to_le : ℕ → ℕ → List ℕ
to_le zero v = []
to_le (suc w) v = v % 256 ∷ to_le w (v / 256)

unfoldable pub from_le : List ℕ → ℕ
from_le [] = 0
from_le (b ∷ bs) = b + 256 * from_le bs

-- The object representation on the host.
unfoldable pub object_bytes : Endian → ℕ → ℕ → List ℕ
object_bytes little w v = to_le w v
object_bytes big w v = reverse (to_le w v)

unfoldable pub object_value : Endian → List ℕ → ℕ
object_value little bs = from_le bs
object_value big bs = from_le (reverse bs)

-- byteswap: bswap_16, bswap_32 and bswap_64 reverse the bytes.
unfoldable pub byteswap : ℕ → ℕ → ℕ
byteswap w v = from_le (reverse (to_le w v))

unfoldable pub same_order : Endian → Endian → Bool
same_order little little = true
same_order big big = true
same_order _ _ = false

abbrev pub AreBytes : List ℕ → Type 0
AreBytes = All (λ b. b < 256)

pub length-to_le : (w v : ℕ) → length (to_le w v) ≡ w
unfolding to_le
length-to_le zero v = refl
length-to_le (suc w) v = ap suc (length-to_le w (v / 256))

to_le-AreBytes : (w v : ℕ) → AreBytes (to_le w v)
unfolding to_le
to_le-AreBytes zero v = tt
to_le-AreBytes (suc w) v = (omega arith, to_le-AreBytes w (v / 256))

from_le-to_le : (w v : ℕ) → v < 256 ^ w → from_le (to_le w v) ≡ v
unfolding to_le from_le
from_le-to_le zero v h = omega arith
from_le-to_le (suc w) v h = omega (arith, from_le-to_le w (v / 256) (omega (arith, pow-suc 256 w)))

to_le-from_le : (bs : List ℕ) → AreBytes bs → to_le (length bs) (from_le bs) ≡ bs
unfolding to_le from_le
to_le-from_le [] h = refl
to_le-from_le (b ∷ bs) h =
    ap₂ ◌∷◌ (omega (arith, h.0))
      (ap (to_le (length bs)) (omega (arith, h.0)) ∙ to_le-from_le bs h.1)

length-reverse : (l : List ℕ) → length (reverse l) ≡ length l
length-reverse [] = refl
length-reverse (x ∷ l) =
    omega
      (arith, ap length (reverse-cons x l), length-append (reverse l) (x ∷ []), length-reverse l)

reverse-AreBytes : (l : List ℕ) → AreBytes l → AreBytes (reverse l)
reverse-AreBytes [] h = tt
reverse-AreBytes (x ∷ l) h =
    subst AreBytes (sym (reverse-cons x l))
      (All-append (λ b. b < 256) (reverse l) (x ∷ []) (reverse-AreBytes l h.1) (h.0, tt))

-- byteswap reverses the bytes.
to_le-byteswap : (w v : ℕ) → to_le w (byteswap w v) ≡ reverse (to_le w v)
unfolding byteswap
to_le-byteswap w v =
    ap (λ k. to_le k (from_le (reverse (to_le w v))))
      (sym (length-reverse (to_le w v) ∙ length-to_le w v))
    ∙ to_le-from_le (reverse (to_le w v)) (reverse-AreBytes (to_le w v) (to_le-AreBytes w v))

pub byteswap-byteswap : (w v : ℕ) → v < 256 ^ w → byteswap w (byteswap w v) ≡ v
byteswap-byteswap w v h =
    unfold byteswap in
    (ap (λ l. from_le (reverse l)) (to_le-byteswap w v)
      ∙ ap from_le (reverse-reverse (to_le w v))
      ∙ from_le-to_le w v h)

-- What a program on any host hands to memcpy for a wanted order.
unfoldable pub swap_for : Endian → Endian → ℕ → ℕ → ℕ
unfolding same_order
swap_for host wanted w v = if same_order wanted host then v else byteswap w v

-- On every host the bytes are those of the wanted order.
pub object_bytes-swap_for :
    (host wanted : Endian) (w v : ℕ)
    → object_bytes host w (swap_for host wanted w v) ≡ object_bytes wanted w v
unfolding object_bytes swap_for
object_bytes-swap_for little little w v = refl
object_bytes-swap_for little big w v = to_le-byteswap w v
object_bytes-swap_for big little w v = ap reverse (to_le-byteswap w v) ∙ reverse-reverse (to_le w v)
object_bytes-swap_for big big w v = refl

pub object_value-object_bytes :
    (host : Endian) (w v : ℕ) → v < 256 ^ w → object_value host (object_bytes host w v) ≡ v
unfolding object_bytes object_value
object_value-object_bytes little w v h = from_le-to_le w v h
object_value-object_bytes big w v h = ap from_le (reverse-reverse (to_le w v)) ∙ from_le-to_le w v h

from_le-lt : (bs : List ℕ) → AreBytes bs → from_le bs < 256 ^ length bs
unfolding from_le
from_le-lt [] h = omega arith
from_le-lt (b ∷ bs) h = omega (arith, h.0, from_le-lt bs h.1, pow-suc 256 (length bs))

byteswap-lt : (w v : ℕ) → byteswap w v < 256 ^ w
unfolding byteswap
byteswap-lt w v =
    subst (λ k. from_le (reverse (to_le w v)) < 256 ^ k)
      (length-reverse (to_le w v) ∙ length-to_le w v)
      (from_le-lt (reverse (to_le w v)) (reverse-AreBytes (to_le w v) (to_le-AreBytes w v)))

-- Reading back: the value of the bytes in the wanted order, swapped where the host differs.
pub swap_for-object_value :
    (host wanted : Endian) (w v : ℕ)
    → v < 256 ^ w
    → swap_for host wanted w (object_value host (object_bytes wanted w v)) ≡ v
unfolding swap_for object_value object_bytes byteswap
swap_for-object_value little little w v h = from_le-to_le w v h
swap_for-object_value little big w v h = byteswap-byteswap w v h
swap_for-object_value big little w v h = byteswap-byteswap w v h
swap_for-object_value big big w v h = ap from_le (reverse-reverse (to_le w v)) ∙ from_le-to_le w v h

pub length-object_bytes : (host : Endian) (w v : ℕ) → length (object_bytes host w v) ≡ w
unfolding object_bytes
length-object_bytes little w v = length-to_le w v
length-object_bytes big w v = length-reverse (to_le w v) ∙ length-to_le w v
