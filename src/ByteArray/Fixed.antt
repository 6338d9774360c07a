-- ===== src/ByteArray/Fixed.antt =====
-- writeF* and readF*: integers of a fixed width in the order that the array is set to. A signed
-- value goes as its pattern, a float or a double as the pattern that memcpy copies.
use cor_reactor.Base.{
  ℕ, ◌+◌, ◌^◌, ◌<◌, ◌≡◌, sym, ap, ◌∙◌, subst, List, [], ◌∷◌, ◌++◌, length, drop, Result, ok, ◌>>=◌,
  arith,
}
use cor_reactor.Base.Int.{ℤ, to_word, of_word}
use cor_reactor.ByteArray.{ByteArray, Endian, write, read, set_position}
use cor_reactor.ByteArray.ByteOrder.{
  object_bytes, object_value, swap_for, object_bytes-swap_for, swap_for-object_value,
  length-object_bytes,
}
use cor_reactor.ByteArray.Invariant.{IsValid, contents}
use cor_reactor.ByteArray.Overwrite.{overwrite}
use cor_reactor.ByteArray.Read.{ReadOff}
use cor_reactor.ByteArray.Stream.{unread, write-Written, rewound, after_rewind, read-unread}

module _ (host : Endian) where
  -- The common body of writeFint16 to writeFuint64, at a width in bytes.
  unfoldable pub write_fixed : ℕ → ByteArray → ℕ → Result ByteArray
  write_fixed w b value = write b (object_bytes host w (swap_for host b.endian w value))

  -- The macro XX of readFint16 to readFuint64.
  unfoldable pub read_fixed : ℕ → ByteArray → Result (ℕ × ByteArray)
  read_fixed w b = do
    (bytes, c) ← read b w
    ok (swap_for host c.endian w (object_value host bytes), c)

  read_signed : ℕ → ℕ → ByteArray → Result (ℤ × ByteArray)
  unfolding read_fixed
  read_signed w half b = do (v, c) ← read_fixed w b; ok (of_word half v, c)

  unfoldable pub write_fint16 : ByteArray → ℤ → Result ByteArray
  write_fint16 b value = write_fixed 2 b (to_word (2 ^ 16) value)

  unfoldable pub write_fuint16 : ByteArray → ℕ → Result ByteArray
  write_fuint16 b value = write_fixed 2 b value

  unfoldable pub write_fint32 : ByteArray → ℤ → Result ByteArray
  write_fint32 b value = write_fixed 4 b (to_word (2 ^ 32) value)

  unfoldable pub write_fuint32 : ByteArray → ℕ → Result ByteArray
  write_fuint32 b value = write_fixed 4 b value

  unfoldable pub write_fint64 : ByteArray → ℤ → Result ByteArray
  write_fint64 b value = write_fixed 8 b (to_word (2 ^ 64) value)

  unfoldable pub write_fuint64 : ByteArray → ℕ → Result ByteArray
  write_fuint64 b value = write_fixed 8 b value

  -- The argument is the bit pattern that memcpy takes from the float.
  unfoldable pub write_float : ByteArray → ℕ → Result ByteArray
  unfolding write_fuint32
  write_float b pattern_ = write_fuint32 b pattern_

  unfoldable pub write_double : ByteArray → ℕ → Result ByteArray
  unfolding write_fuint64
  write_double b pattern_ = write_fuint64 b pattern_

  unfoldable pub read_fint16 : ByteArray → Result (ℤ × ByteArray)
  unfolding read_signed
  read_fint16 b = read_signed 2 (2 ^ 15) b

  unfoldable pub read_fuint16 : ByteArray → Result (ℕ × ByteArray)
  read_fuint16 b = read_fixed 2 b

  unfoldable pub read_fint32 : ByteArray → Result (ℤ × ByteArray)
  unfolding read_signed
  read_fint32 b = read_signed 4 (2 ^ 31) b

  unfoldable pub read_fuint32 : ByteArray → Result (ℕ × ByteArray)
  read_fuint32 b = read_fixed 4 b

  unfoldable pub read_fint64 : ByteArray → Result (ℤ × ByteArray)
  unfolding read_signed
  read_fint64 b = read_signed 8 (2 ^ 63) b

  unfoldable pub read_fuint64 : ByteArray → Result (ℕ × ByteArray)
  read_fuint64 b = read_fixed 8 b

  unfoldable pub read_float : ByteArray → Result (ℕ × ByteArray)
  unfolding read_fuint32
  read_float b = read_fuint32 b

  unfoldable pub read_double : ByteArray → Result (ℕ × ByteArray)
  unfolding read_fuint64
  read_double b = read_fuint64 b

-- writeFint8, writeFuint8: one byte, whatever the order.
unfoldable pub write_fint8 : ByteArray → ℤ → Result ByteArray
write_fint8 b value = write b (to_word (2 ^ 8) value ∷ [])

unfoldable pub write_fuint8 : ByteArray → ℕ → Result ByteArray
write_fuint8 b value = write b (value ∷ [])

-- The byte that `read` put into `v`.
unfoldable pub first_byte : List ℕ → ℕ
first_byte [] = 0
first_byte (x ∷ xs) = x

unfoldable pub read_fuint8 : ByteArray → Result (ℕ × ByteArray)
unfolding first_byte
read_fuint8 b = do (bytes, c) ← read b 1; ok (first_byte bytes, c)

unfoldable pub read_fint8 : ByteArray → Result (ℤ × ByteArray)
unfolding first_byte
read_fint8 b = do (bytes, c) ← read b 1; ok (of_word (2 ^ 7) (first_byte bytes), c)

-- On a host of either order a fixed-width writer writes the bytes of the value in the order of the
-- array.
pub write_fixed_order :
    (host : Endian) (w : ℕ) (b : ByteArray) (value : ℕ)
    → write_fixed host w b value ≡ write b (object_bytes b.endian w value)
unfolding write_fixed
write_fixed_order host w b value = ap (write b) (object_bytes-swap_for host b.endian w value)

-- Reading a fixed-width number that comes next.
pub read_fixed-unread :
    (host : Endian) (w : ℕ) (b : ByteArray) (value : ℕ) (rest : List ℕ)
    → IsValid b
    → b.position < b.capacity
    → value < 256 ^ w
    → unread b ≡ object_bytes b.endian w value ++ rest
    → (c : ByteArray) × (read_fixed host w b ≡ ok (value, c)) × ReadOff b w c × (unread c ≡ rest)
unfolding read_fixed
read_fixed-unread host w b value rest v room small e =
    let bytes = object_bytes b.endian w value in
    let width : length bytes ≡ w = length-object_bytes b.endian w value in
    let (c, eq, r, left) = read-unread b bytes rest v room e in
    let taken : read b w ≡ ok (bytes, c) = ap (read b) (sym width) ∙ eq in
    let order : c.endian ≡ b.endian = ap (λ (x : ByteArray). x.endian) r.frame in
    (
      c,
      rw taken (
          ap (λ k. ok (k, c))
            (ap (λ o. swap_for host o w (object_value host bytes)) order
              ∙ swap_for-object_value host b.endian w value small)),
      subst (λ k. ReadOff b k c) width r,
      left,
    )

-- On a host of either order: when a fixed-width writer wrote a value of `w` bytes to a valid array,
-- going back and reading with the same width returns the value, and the bytes it wrote over the
-- contents are those of the value in the order of the array.
pub read_fixed-write_fixed :
    (host : Endian) (w : ℕ) (b : ByteArray) (value : ℕ) (c : ByteArray)
    → IsValid b
    → 0 < w
    → value < 256 ^ w
    → write_fixed host w b value ≡ ok c
    → (e : ByteArray) × ((do back ← set_position c b.position; read_fixed host w back)
        ≡ ok (value, e))
      × (e.position ≡ c.position)
      × (contents c ≡ overwrite (contents b) b.position (object_bytes b.endian w value))
read_fixed-write_fixed host w b value c v wide small eq =
    let bytes = object_bytes b.endian w value in
    let width : length bytes ≡ w = length-object_bytes b.endian w value in
    let written = write-Written b bytes c v (sym (write_fixed_order host w b value) ∙ eq) in
    let (d, back, m, first) = rewound b c bytes v written in
    let order : d.endian ≡ b.endian = ap (λ (x : ByteArray). x.endian) m.frame ∙ written.endian in
    let room = after_rewind b c d bytes written m (omega (arith, width)) in
    let (e, taken, r, _) = read_fixed-unread host w d value _ m.valid room small (
      first
      ∙ ap (λ o. object_bytes o w value ++ drop (b.position + length bytes) (contents b))
          (sym order)) in
    (e, rw back taken, omega (arith, r.moved, m.position, written.moved, width), written.refines)
