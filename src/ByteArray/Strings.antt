-- ===== src/ByteArray/Strings.antt =====
-- Strings with a length in front, of a fixed width or variable. A string is its bytes.
use native.Mathlib.Nat.{mod-lt, mod-le, pow-suc}
use mathlib.Core.List.{append_assoc}
use cor_reactor.Base.{
  ℕ, zero, suc, ◌+◌, ◌*◌, ◌%◌, ◌^◌, ◌≤◌, ◌<◌, ◌≡◌, sym, ap, ◌∙◌, subst, List, [], ◌∷◌, ◌++◌, length,
  length-append, length-take, take, drop, take-all, take-append-drop, Result, ok, ◌>>=◌, >>=-eq-ok,
  arith,
}
use cor_reactor.ByteArray.{ByteArray, Endian, write, read, set_position}
use cor_reactor.ByteArray.ByteOrder.{object_bytes, length-object_bytes}
use cor_reactor.ByteArray.Fixed.{
  write_fixed, read_fixed, write_fuint16, write_fuint32, write_fuint64, read_fuint16, read_fuint32,
  read_fuint64, write_fixed_order, read_fixed-unread,
}
use cor_reactor.ByteArray.Varint.{
  write_uint64, read_uint64, groups, varint_bytes-groups, read_varint-groups,
}
use cor_reactor.ByteArray.Invariant.{IsValid, contents}
use cor_reactor.ByteArray.Read.{ReadOff}
use cor_reactor.ByteArray.Stream.{
  unread, unread-room, write-Written, Written-trans, rewound, after_rewind, read-unread,
}

module _ (host : Endian) where
  -- The length is converted to the type that is written, so it wraps.
  unfoldable pub write_string_f16 : ByteArray → List ℕ → Result ByteArray
  unfolding write_fuint16
  write_string_f16 b value = do c ← write_fuint16 host b (length value % 2 ^ 16); write c value

  unfoldable pub write_string_f32 : ByteArray → List ℕ → Result ByteArray
  unfolding write_fuint32
  write_string_f32 b value = do c ← write_fuint32 host b (length value % 2 ^ 32); write c value

  unfoldable pub write_string_f64 : ByteArray → List ℕ → Result ByteArray
  unfolding write_fuint64
  write_string_f64 b value = do c ← write_fuint64 host b (length value % 2 ^ 64); write c value

  unfoldable pub read_string_f16 : ByteArray → Result (List ℕ × ByteArray)
  unfolding read_fuint16
  read_string_f16 b = do (len, c) ← read_fuint16 host b; read c len

  unfoldable pub read_string_f32 : ByteArray → Result (List ℕ × ByteArray)
  unfolding read_fuint32
  read_string_f32 b = do (len, c) ← read_fuint32 host b; read c len

  unfoldable pub read_string_f64 : ByteArray → Result (List ℕ × ByteArray)
  unfolding read_fuint64
  read_string_f64 b = do (len, c) ← read_fuint64 host b; read c len

unfoldable pub write_string_vint : ByteArray → List ℕ → Result ByteArray
write_string_vint b value = do c ← write_uint64 b (length value % 2 ^ 64); write c value

unfoldable pub read_string_vint : ByteArray → Result (List ℕ × ByteArray)
read_string_vint b = do (len, c) ← read_uint64 b; read c len

unfoldable pub write_string_without_length : ByteArray → List ℕ → Result ByteArray
write_string_without_length b value = write b value

-- The first `n` of the bytes that come next.
read_first :
    (b : ByteArray) (n : ℕ) (s rest : List ℕ)
    → IsValid b
    → 0 < length s
    → n ≤ length s
    → unread b ≡ s ++ rest
    → (c : ByteArray) × (read b n ≡ ok (take n s, c)) × ReadOff b n c
read_first b n [] rest v some_ h e = absurd (omega arith)
read_first b n (x ∷ s) rest v some_ h e =
    let size : length (take n (x ∷ s)) ≡ n = omega (arith, length-take n (x ∷ s)) in
    let (c, eq, r, _) =
      read-unread b (take n (x ∷ s)) (drop n (x ∷ s) ++ rest) v (unread-room b x (s ++ rest) v e) (
        e
        ∙ ap (λ l. l ++ rest) (sym (take-append-drop n (x ∷ s)))
        ∙ append_assoc (take n (x ∷ s)) _ rest) in
    (c, ap (read b) (sym size) ∙ eq, subst (λ k. ReadOff b k c) size r)

pow_pos : (w : ℕ) → 0 < 256 ^ w
pow_pos zero = omega arith
pow_pos (suc w) = omega (arith, pow-suc 256 w, pow_pos w)

-- A string behind a header of `w` bytes.
read_behind_fixed :
    (host : Endian) (w : ℕ) (b d c : ByteArray) (s : List ℕ)
    → IsValid b
    → 0 < w
    → 0 < length s
    → write_fixed host w b (length s % 256 ^ w) ≡ ok d
    → write d s ≡ ok c
    → (e : ByteArray) × ((do
      back ← set_position c b.position
      (len, f) ← read_fixed host w back
      read f len)
        ≡ ok (take (length s % 256 ^ w) s, e))
      × (e.position ≡ b.position + w + length s % 256 ^ w)
read_behind_fixed host w b d c s v wide some_ header body =
    let len : ℕ = length s % 256 ^ w in
    let bytes = object_bytes b.endian w len in
    let width : length bytes ≡ w = length-object_bytes b.endian w len in
    let first = write-Written b bytes d v (sym (write_fixed_order host w b len) ∙ header) in
    let both = Written-trans bytes s v first (write-Written d s c first.valid body) in
    let (p, back, m, next_) = rewound b c (bytes ++ s) v both in
    let tail : List ℕ = drop (b.position + length (bytes ++ s)) (contents b) in
    let order = ap (λ (x : ByteArray). x.endian) m.frame ∙ both.endian in
    let room =
      after_rewind b c p (bytes ++ s) both m (omega (arith, length-append bytes s, width)) in
    let (q, taken, r, left) =
      read_fixed-unread host w p len (s ++ tail) m.valid room (mod-lt (length s) (pow_pos w)) (
        next_
        ∙ append_assoc bytes s tail
        ∙ ap (λ o. object_bytes o w len ++ (s ++ tail)) (sym order)) in
    let (e, got, r') = read_first q len s tail r.valid some_ (mod-le (length s) (256 ^ w)) left in
    (e, rw back (rw taken got), omega (arith, r'.moved, r.moved, m.position))

-- When writeStringF16 wrote a non-empty string to a valid array, going back and calling
-- readStringF16 returns the string cut to its length modulo 2 ^ 16.
pub read_string_f16-write_string_f16 :
    (host : Endian) (b c : ByteArray) (s : List ℕ)
    → IsValid b
    → 0 < length s
    → write_string_f16 host b s ≡ ok c
    → (e : ByteArray) × ((do back ← set_position c b.position; read_string_f16 host back)
        ≡ ok (take (length s % 2 ^ 16) s, e))
      × (e.position ≡ b.position + 2 + length s % 2 ^ 16)
unfolding write_string_f16 read_string_f16
read_string_f16-write_string_f16 host b c s v some_ e =
    let (d, header, body) =
      >>=-eq-ok (write_fixed host 2 b (length s % 2 ^ 16)) (λ x. write x s) e in
    read_behind_fixed host 2 b d c s v (omega arith) some_ header body

pub read_string_f32-write_string_f32 :
    (host : Endian) (b c : ByteArray) (s : List ℕ)
    → IsValid b
    → 0 < length s
    → write_string_f32 host b s ≡ ok c
    → (e : ByteArray) × ((do back ← set_position c b.position; read_string_f32 host back)
        ≡ ok (take (length s % 2 ^ 32) s, e))
      × (e.position ≡ b.position + 4 + length s % 2 ^ 32)
unfolding write_string_f32 read_string_f32
read_string_f32-write_string_f32 host b c s v some_ e =
    let (d, header, body) =
      >>=-eq-ok (write_fixed host 4 b (length s % 2 ^ 32)) (λ x. write x s) e in
    read_behind_fixed host 4 b d c s v (omega arith) some_ header body

pub read_string_f64-write_string_f64 :
    (host : Endian) (b c : ByteArray) (s : List ℕ)
    → IsValid b
    → 0 < length s
    → write_string_f64 host b s ≡ ok c
    → (e : ByteArray) × ((do back ← set_position c b.position; read_string_f64 host back)
        ≡ ok (take (length s % 2 ^ 64) s, e))
      × (e.position ≡ b.position + 8 + length s % 2 ^ 64)
unfolding write_string_f64 read_string_f64
read_string_f64-write_string_f64 host b c s v some_ e =
    let (d, header, body) =
      >>=-eq-ok (write_fixed host 8 b (length s % 2 ^ 64)) (λ x. write x s) e in
    read_behind_fixed host 8 b d c s v (omega arith) some_ header body

-- When writeStringVint wrote a non-empty string of less than 2 ^ 64 bytes to a valid array, going back
-- and calling readStringVint returns the string.
pub read_string_vint-write_string_vint :
    (b c : ByteArray) (s : List ℕ)
    → IsValid b
    → 0 < length s
    → length s < 2 ^ 64
    → write_string_vint b s ≡ ok c
    → (e : ByteArray) × ((do back ← set_position c b.position; read_string_vint back) ≡ ok (s, e))
      × (e.position ≡ c.position)
unfolding write_string_vint read_string_vint read_uint64 write_uint64
read_string_vint-write_string_vint b c s v some_ small e =
    let len : ℕ = length s % 2 ^ 64 in
    let (d, header, body) = >>=-eq-ok (write_uint64 b len) (λ x. write x s) e in
    let bytes = groups 9 len in
    let first =
      write-Written b bytes d v
        (rw (varint_bytes-groups 9 10 len (omega arith) (omega arith)) at header) in
    let both = Written-trans bytes s v first (write-Written d s c first.valid body) in
    let (p, back, m, next_) = rewound b c (bytes ++ s) v both in
    let tail : List ℕ = drop (b.position + length (bytes ++ s)) (contents b) in
    let (q, taken, r, left) =
      read_varint-groups 9 10 (2 ^ 64) 0 0 p len (s ++ tail) m.valid (omega arith) (omega arith)
        (omega arith) (next_ ∙ append_assoc bytes s tail) in
    let (f, got, r') = read_first q (0 + len * 2 ^ 0) s tail r.valid some_ (omega arith) left in
    (
      f,
      rw back (rw taken (got ∙ ap (λ l. ok (l, f)) (take-all (0 + len * 2 ^ 0) s (omega arith)))),
      omega (arith, r'.moved, r.moved, m.position, both.moved, length-append bytes s),
    )
