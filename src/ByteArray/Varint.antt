-- ===== src/ByteArray/Varint.antt =====
-- writeUint32, writeUint64, readUint32, readUint64: groups of seven bits, the lowest first.
-- `value & 0x7F` is `% 128`, `>>= 7` is `/ 128`, and `|` joins disjoint bits, so it is a sum.
use native.Mathlib.Decide.{dec_lt}
use native.Mathlib.Nat.{div-add-mod, mod-eq_of_lt, pow-suc}
use native.Mathlib.Numerals.{towards_suc}
use cor_reactor.Base.{
  ℕ, zero, suc, ◌+◌, ◌*◌, ◌/◌, ◌%◌, ◌^◌, ◌≤◌, ◌<◌, ◌≡◌, refl, sym, ap, ◌∙◌, subst, List, [], ◌∷◌,
  ◌++◌, true, false, length, ltb, lt→ltb, Bool-cases, inl, inr, if◌then◌else◌, Result, ok, fail,
  out_of_fuel, ◌>>=◌, arith,
}
use cor_reactor.ByteArray.{ByteArray, write}
use cor_reactor.ByteArray.Fixed.{read_fuint8}
use cor_reactor.ByteArray.Invariant.{IsValid}
use cor_reactor.ByteArray.Read.{ReadOff, ReadOff-trans}
use cor_reactor.ByteArray.Stream.{unread, read-unread, unread-room}

-- The `while (value >= 0x80)` that fills `tmp`.
unfoldable pub varint_bytes : ℕ → ℕ → Result (List ℕ)
varint_bytes zero value = fail out_of_fuel
varint_bytes (suc fuel) value = elim (ltb value 0x80) [
  | true ↦ ok (value ∷ [])
  | false ↦ do rest ← varint_bytes fuel (value / 128); ok ((value % 128 + 128) ∷ rest)
]

unfoldable pub write_uint32 : ByteArray → ℕ → Result ByteArray
write_uint32 b value = do tmp ← varint_bytes 5 value; write b tmp

unfoldable pub write_uint64 : ByteArray → ℕ → Result ByteArray
write_uint64 b value = do tmp ← varint_bytes 10 value; write b tmp

-- `result |= (type)group << i` in a word of `size` values.
unfoldable pub or_group : ℕ → ℕ → ℕ → ℕ → ℕ
or_group size result group i = result + group * 2 ^ i % size

-- The `for` of both readers, with the rounds that are left.
unfoldable pub read_varint : ℕ → ℕ → ℕ → ℕ → ByteArray → Result (ℕ × ByteArray)
read_varint zero size i result b = ok (result, b)
read_varint (suc rounds) size i result b = do
  (x, c) ← read_fuint8 b
  elim (ltb x 0x80) [
    | true ↦ ok (or_group size result x i, c)
    | false ↦ read_varint rounds size (i + 7) (or_group size result (x % 128) i) c
  ]

-- i = 0, 7, 14, 21, 28
unfoldable pub read_uint32 : ByteArray → Result (ℕ × ByteArray)
read_uint32 b = read_varint 5 (2 ^ 32) 0 0 b

-- i = 0, 7, ..., 63
unfoldable pub read_uint64 : ByteArray → Result (ℕ × ByteArray)
read_uint64 b = read_varint 10 (2 ^ 64) 0 0 b

-- The groups of a value below 128 ^ (k + 1).
pub groups : ℕ → ℕ → List ℕ
groups zero v = v ∷ []
groups (suc k) v = if ltb v 128 then v ∷ [] else (v % 128 + 128) ∷ groups k (v / 128)

-- With enough rounds the loop ends, after at most k + 1 bytes.
pub varint_bytes-groups :
    (k fuel v : ℕ) → k < fuel → v < 128 ^ suc k → varint_bytes fuel v ≡ ok (groups k v)
unfolding varint_bytes groups
varint_bytes-groups k zero v h small = absurd (omega arith)
varint_bytes-groups zero (suc fuel) v h small = ground (arith, lt→ltb v 128)
varint_bytes-groups (suc k) (suc fuel) v h small = elim (Bool-cases (ltb v 128)) [
  | inl t ↦ rw (t, varint_bytes)
  | inr t ↦
      rw (t, varint_bytes)
        (rw
          (varint_bytes-groups k fuel (v / 128) (omega arith) (omega (arith, pow-suc 128 (suc k)))))
]

pub length-groups : (k v : ℕ) → (0 < length (groups k v)) × (length (groups k v) ≤ suc k)
unfolding groups
length-groups zero v = omega arith
length-groups (suc k) v = ground (arith, length-groups k (v / 128))

split_group : (v i : ℕ) → v * 2 ^ i ≡ v % 128 * 2 ^ i + v / 128 * 2 ^ (i + 7)
split_group v i = omega (
  arith,
  ap (λ (t : ℕ). t * 2 ^ i) (div-add-mod v 128),
  ap (λ (t : ℕ). v / 128 * t)
      (let e : 2 ^ (i + 7) ≡ 128 * 2 ^ i = simp towards_suc (omega arith) in e),
)

or_group_lem :
    (size result group i : ℕ)
    → result + group * 2 ^ i < size
    → or_group size result group i ≡ result + group * 2 ^ i
unfolding or_group
or_group_lem size result group i h = ap (λ k. result + k) (mod-eq_of_lt (omega arith))

-- One byte that comes next.
pub read_byte :
    (b : ByteArray) (x : ℕ) (rest : List ℕ)
    → IsValid b
    → unread b ≡ x ∷ rest
    → (c : ByteArray) × (read_fuint8 b ≡ ok (x, c)) × ReadOff b 1 c × (unread c ≡ rest)
unfolding read_fuint8
read_byte b x rest v e =
    let (c, eq, r, left) = read-unread b (x ∷ []) rest v (unread-room b x rest v e) e in
    (c, rw eq, r, left)

read_last :
    (rounds size i result x : ℕ) (b c : ByteArray)
    → read_fuint8 b ≡ ok (x, c)
    → x < 128
    → result + x * 2 ^ i < size
    → read_varint (suc rounds) size i result b ≡ ok (result + x * 2 ^ i, c)
unfolding read_varint
read_last rounds size i result x b c e h fits = ground (arith, or_group_lem size result x i fits)

read_next :
    (rounds size i result x : ℕ) (b c : ByteArray)
    → read_fuint8 b ≡ ok (x + 128, c)
    → x < 128
    → result + x * 2 ^ i < size
    → read_varint (suc rounds) size i result b
      ≡ read_varint rounds size (i + 7) (result + x * 2 ^ i) c
unfolding read_varint
read_next rounds size i result x b c e h fits =
    let same : or_group size result ((x + 128) % 128) i ≡ result + x * 2 ^ i =
      ap (λ g. or_group size result g i) (omega arith) ∙ or_group_lem size result x i fits in
    ground (arith, same)

groups_small : (k v : ℕ) → v < 128 → groups k v ≡ v ∷ []
unfolding groups
groups_small zero v h = refl
groups_small (suc k) v h = ground arith

groups_large : (k v : ℕ) → 128 ≤ v → groups (suc k) v ≡ (v % 128 + 128) ∷ groups k (v / 128)
unfolding groups
groups_large k v h = ground arith

-- The reader's result on groups that come next: their value, all of them, and nothing else.
abbrev pub Takes : ℕ → ℕ → ℕ → ℕ → ByteArray → ℕ → List ℕ → List ℕ → Type 0
Takes rounds size i result b v bytes rest =
    (c : ByteArray) × (read_varint rounds size i result b ≡ ok (result + v * 2 ^ i, c))
    × ReadOff b (length bytes) c
    × (unread c ≡ rest)

last_group :
    (rounds size i result : ℕ) (b : ByteArray) (v : ℕ) (bytes rest : List ℕ)
    → IsValid b
    → v < 128
    → result + v * 2 ^ i < size
    → bytes ≡ v ∷ []
    → unread b ≡ bytes ++ rest
    → Takes (suc rounds) size i result b v bytes rest
last_group rounds size i result b v bytes rest w small fits one e =
    let (c, eq, r, left) = read_byte b v rest w (e ∙ ap (λ l. l ++ rest) one) in
    (
      c,
      read_last rounds size i result v b c eq small fits,
      subst (λ l. ReadOff b (length l) c) (sym one) r,
      left,
    )

-- The reader takes the groups that come next, and nothing else.
pub read_varint-groups :
    (k rounds size i result : ℕ) (b : ByteArray) (v : ℕ) (rest : List ℕ)
    → IsValid b
    → k < rounds
    → v < 128 ^ suc k
    → result + v * 2 ^ i < size
    → unread b ≡ groups k v ++ rest
    → Takes rounds size i result b v (groups k v) rest
read_varint-groups k zero size i result b v rest w h small fits e = absurd (omega arith)
read_varint-groups zero (suc rounds) size i result b v rest w h small fits e =
    last_group rounds size i result b v (groups zero v) rest w (omega arith) fits
      (groups_small zero v (omega arith)) e
read_varint-groups (suc k) (suc rounds) size i result b v rest w h small fits e =
    elim (dec_lt v 128) [
      | yes low ↦
          last_group rounds size i result b v (groups (suc k) v) rest w low fits
            (groups_small (suc k) v low) e
      | no high ↦
          let shape = groups_large k v (omega arith) in
          let parts = split_group v i in
          let (c, eq, r, left) =
            read_byte b (v % 128 + 128) (groups k (v / 128) ++ rest) w
              (e ∙ ap (λ l. l ++ rest) shape) in
          let (d, eq', r', left') =
            read_varint-groups k rounds size (i + 7) (result + v % 128 * 2 ^ i) c (v / 128) rest
              r.valid (omega arith) (omega (arith, pow-suc 128 (suc k))) (omega (arith, parts))
              left in
          (
            d,
            read_next rounds size i result (v % 128) b c eq (omega arith) (omega (arith, parts))
                ∙ eq'
                ∙ ap (λ k. ok (k, d)) (omega (arith, parts)),
            subst (λ n. ReadOff b n d) (omega (arith, ap length shape)) (ReadOff-trans r r'),
            left',
          )
    ]
