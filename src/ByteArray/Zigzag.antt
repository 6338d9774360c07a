-- ===== src/ByteArray/Zigzag.antt =====
-- The zigzag code, and the variable-length integers as a whole: writing, going back, reading.
-- `size` is 2 ^ 32 or 2 ^ 64 and `half` is half of it. The doubling `v * 2` of the source is
-- modelled as it wraps in the machine; the language leaves it undefined from 2 ^ 30 (2 ^ 62) on.
use native.Mathlib.Decide.{dec_lt}
use native.Mathlib.Nat.{mod-eq_of_lt, add-mod_right, mod_self}
use cor_reactor.Base.{
  >>=-eq-ok, ℕ, suc, ◌+◌, ◌-◌, ◌*◌, ◌/◌, ◌%◌, ◌^◌, ◌≤◌, ◌<◌, ◌≡◌, ap, ◌∙◌, ◌==◌, if◌then◌else◌,
  Result, ok, ◌>>=◌, arith,
}
use cor_reactor.Base.Int.{ℤ, pos, negsuc, of_word, IsSigned}
use cor_reactor.ByteArray.{ByteArray, set_position}
use cor_reactor.ByteArray.Invariant.{IsValid}
use cor_reactor.ByteArray.Write.{Written}
use cor_reactor.ByteArray.Stream.{write-Written, rewound}
use cor_reactor.ByteArray.Varint.{
  write_uint32, write_uint64, read_varint, read_uint32, read_uint64, groups, varint_bytes-groups,
  length-groups, read_varint-groups,
}

-- EncodeZigzag32, EncodeZigzag64
unfoldable pub encode_zigzag : ℕ → ℤ → ℕ
encode_zigzag size (negsuc n) = (suc n * 2 % size + size - 1) % size
encode_zigzag size (pos n) = n * 2 % size

-- DecodeZigzag32, DecodeZigzag64: `^ -(v & 1)` keeps an even code's half and complements an odd's.
unfoldable pub decode_zigzag : ℕ → ℕ → ℤ
decode_zigzag half v = of_word half (if v % 2 == 0 then v / 2 else 2 * half - 1 - v / 2)

unfoldable pub write_int32 : ByteArray → ℤ → Result ByteArray
write_int32 b value = write_uint32 b (encode_zigzag (2 ^ 32) value)

unfoldable pub write_int64 : ByteArray → ℤ → Result ByteArray
write_int64 b value = write_uint64 b (encode_zigzag (2 ^ 64) value)

unfoldable pub read_int32 : ByteArray → Result (ℤ × ByteArray)
read_int32 b = do (v, c) ← read_uint32 b; ok (decode_zigzag (2 ^ 31) v, c)

unfoldable pub read_int64 : ByteArray → Result (ℤ × ByteArray)
read_int64 b = do (v, c) ← read_uint64 b; ok (decode_zigzag (2 ^ 63) v, c)

encode_pos : (half n : ℕ) → n < half → encode_zigzag (2 * half) (pos n) ≡ n * 2
unfolding encode_zigzag
encode_pos half n h = mod-eq_of_lt {n = n * 2} {m = 2 * half} (omega arith)

encode_negsuc : (half n : ℕ) → n < half → encode_zigzag (2 * half) (negsuc n) ≡ n * 2 + 1
unfolding encode_zigzag
encode_negsuc half n h = elim (dec_lt (suc n * 2) (2 * half)) [
  | yes p ↦ rw (mod-eq_of_lt {n = suc n * 2} {m = 2 * half} p) (
      ap (λ (k : ℕ). k % (2 * half)) (omega arith)
      ∙ add-mod_right (n * 2 + 1) (2 * half)
      ∙ mod-eq_of_lt {n = n * 2 + 1} {m = 2 * half} (omega arith))
  | no p ↦
      rw
        (
          ap (λ (k : ℕ). k % (2 * half)) (let e : suc n * 2 ≡ 2 * half = omega arith in e),
          mod_self (2 * half),
        )
        (mod-eq_of_lt {n = 0 + 2 * half - 1} {m = 2 * half} (omega arith) ∙ omega arith)
]

decode_even : (half n : ℕ) → n < half → decode_zigzag half (n * 2) ≡ pos n
unfolding decode_zigzag
decode_even half n h = ground arith

decode_odd : (half n : ℕ) → n < half → decode_zigzag half (n * 2 + 1) ≡ negsuc n
unfolding decode_zigzag
decode_odd half n h = ground arith

-- Decoding the zigzag code of a signed value of the word size gives the value, and the code is below
-- the word size.
pub decode_zigzag-encode_zigzag :
    (half : ℕ) (z : ℤ)
    → IsSigned half z
    → (decode_zigzag half (encode_zigzag (2 * half) z) ≡ z)
      × (encode_zigzag (2 * half) z < 2 * half)
decode_zigzag-encode_zigzag half (pos n) h = (
  ap (decode_zigzag half) (encode_pos half n h) ∙ decode_even half n h,
  omega (arith, encode_pos half n h),
)
decode_zigzag-encode_zigzag half (negsuc n) h = (
  ap (decode_zigzag half) (encode_negsuc half n h) ∙ decode_odd half n h,
  omega (arith, encode_negsuc half n h),
)

-- A number whose groups were written and to which setPosition went back.
varint_back :
    (k rounds size : ℕ) (b c : ByteArray) (v : ℕ)
    → IsValid b
    → k < rounds
    → v < 128 ^ suc k
    → v < size
    → Written b (groups k v) c
    → (e : ByteArray) × ((do d ← set_position c b.position; read_varint rounds size 0 0 d)
        ≡ ok (v, e))
      × (e.position ≡ c.position)
varint_back k rounds size b c v valid h small fits w =
    let (d, back, m, first) = rewound b c (groups k v) valid w in
    let (e, eq, r, left) =
      read_varint-groups k rounds size 0 0 d v _ m.valid h small (omega arith) first in
    (
      e,
      rw back (eq ∙ ap (λ n. ok (n, e)) (omega arith)),
      omega (arith, r.moved, m.position, w.moved),
    )

-- When writeUint32 wrote a value of 32 bits to a valid array, it used at most five bytes, and going back
-- and calling readUint32 returns the value.
pub read_uint32-write_uint32 :
    (b : ByteArray) (v : ℕ) (c : ByteArray)
    → IsValid b
    → v < 2 ^ 32
    → write_uint32 b v ≡ ok c
    → (e : ByteArray) × ((do d ← set_position c b.position; read_uint32 d) ≡ ok (v, e))
      × (e.position ≡ c.position)
      × (c.position ≤ b.position + 5)
unfolding write_uint32 read_uint32
read_uint32-write_uint32 b v c valid small eq =
    let written =
      write-Written b (groups 4 v) c valid
        (rw (varint_bytes-groups 4 5 v (omega arith) (omega arith)) at eq) in
    let (e, same, place) =
      varint_back 4 5 (2 ^ 32) b c v valid (omega arith) (omega arith) small written in
    (e, same, place, omega (arith, written.moved, length-groups 4 v))

-- When writeUint64 wrote a value of 64 bits to a valid array, it used at most ten bytes, and going back
-- and calling readUint64 returns the value.
pub read_uint64-write_uint64 :
    (b : ByteArray) (v : ℕ) (c : ByteArray)
    → IsValid b
    → v < 2 ^ 64
    → write_uint64 b v ≡ ok c
    → (e : ByteArray) × ((do d ← set_position c b.position; read_uint64 d) ≡ ok (v, e))
      × (e.position ≡ c.position)
      × (c.position ≤ b.position + 10)
unfolding write_uint64 read_uint64
read_uint64-write_uint64 b v c valid small eq =
    let written =
      write-Written b (groups 9 v) c valid
        (rw (varint_bytes-groups 9 10 v (omega arith) (omega arith)) at eq) in
    let (e, same, place) =
      varint_back 9 10 (2 ^ 64) b c v valid (omega arith) (omega arith) small written in
    (e, same, place, omega (arith, written.moved, length-groups 9 v))

-- When writeInt32 wrote a signed value of 32 bits to a valid array, going back and calling
-- readInt32 returns the value.
pub read_int32-write_int32 :
    (b : ByteArray) (z : ℤ) (c : ByteArray)
    → IsValid b
    → IsSigned (2 ^ 31) z
    → write_int32 b z ≡ ok c
    → (e : ByteArray) × ((do d ← set_position c b.position; read_int32 d) ≡ ok (z, e))
      × (e.position ≡ c.position)
unfolding write_int32 read_int32
read_int32-write_int32 b z c valid range eq =
    let (same, small) = decode_zigzag-encode_zigzag (2 ^ 31) z range in
    let (e, back, place, _) = read_uint32-write_uint32 b _ c valid small eq in
    let (d, moved, got) = >>=-eq-ok (set_position c b.position) read_uint32 back in
    (e, rw moved (rw got (ap (λ (n : ℤ). ok (n, e)) same)), place)

-- When writeInt64 wrote a signed value of 64 bits to a valid array, going back and calling
-- readInt64 returns the value.
pub read_int64-write_int64 :
    (b : ByteArray) (z : ℤ) (c : ByteArray)
    → IsValid b
    → IsSigned (2 ^ 63) z
    → write_int64 b z ≡ ok c
    → (e : ByteArray) × ((do d ← set_position c b.position; read_int64 d) ≡ ok (z, e))
      × (e.position ≡ c.position)
unfolding write_int64 read_int64
read_int64-write_int64 b z c valid range eq =
    let (same, small) = decode_zigzag-encode_zigzag (2 ^ 63) z range in
    let (e, back, place, _) = read_uint64-write_uint64 b _ c valid small eq in
    let (d, moved, got) = >>=-eq-ok (set_position c b.position) read_uint64 back in
    (e, rw moved (rw got (ap (λ (n : ℤ). ok (n, e)) same)), place)
