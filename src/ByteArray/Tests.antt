-- ===== src/ByteArray/Tests.antt =====
-- Runs on small arrays, and the theorems at concrete inputs.
use cor_reactor.Base.{
  ℕ, ◌+◌, ◌≤◌, ◌≡◌, refl, List, [], ◌∷◌, none, some, ok, fail, null_deref, ◌>>=◌, arith, ◌⊎◌, take,
}
use cor_reactor.Base.Int.{pos}
use cor_reactor.ByteArray.{
  ByteArray, little, big, byte_array, write, write_from, write_loop, write_last, write_full,
  get_capacity, get_read_size, grow, append_nodes, node_count, deref, next, memcpy, read, read_from,
  copy_out, set_position,
}
use cor_reactor.ByteArray.Views.{
  View, get_read_buffers, get_read_buffers_at, get_read_buffers_lem, gather, views, views_from,
  walk,
}
use cor_reactor.ByteArray.Invariant.{IsValid, contents, byte_array-IsValid}
use cor_reactor.ByteArray.Write.{Written, write_lem}
use cor_reactor.ByteArray.Read.{ReadOff, read_lem}
use cor_reactor.ByteArray.Position.{read-write}
use cor_reactor.ByteArray.ByteOrder.{object_bytes, to_le, from_le, byteswap, swap_for, same_order}
use cor_reactor.ByteArray.Fixed.{write_fixed}
use cor_reactor.ByteArray.Varint.{varint_bytes, write_uint32, write_uint64, read_uint64}
use cor_reactor.ByteArray.Zigzag.{encode_zigzag, write_int32, write_int64, read_uint64-write_uint64}
use cor_reactor.ByteArray.Strings.{write_string_f16, write_string_vint}

-- Everything that a test runs through.
running : Unit {0}
unfolding write write_from write_loop write_last write_full get_capacity grow append_nodes
    node_count memcpy read read_from copy_out deref get_read_size next write_fixed write_uint32
    write_int32 write_int64 write_string_f16 write_string_vint write_uint64 varint_bytes
    object_bytes to_le swap_for same_order encode_zigzag byteswap from_le
running = tt

-- A fresh array of blocks of four bytes.
abbrev fresh : ByteArray
fresh = record {
  garbage = 0;
  base_size = 4;
  position = 0;
  capacity = 4;
  size = 0;
  endian = big;
  nodes = record { ptr = 0 ∷ 0 ∷ 0 ∷ 0 ∷ []; size = 4 } ∷ [];
  cur = some 0;
}

fresh-byte_array : byte_array 0 4 ≡ fresh
unfolding byte_array
fresh-byte_array = refl

fresh-IsValid : IsValid fresh
unfolding byte_array
fresh-IsValid = byte_array-IsValid 0 4 (omega arith)

-- Three bytes, and the position behind the first.
abbrev three : ByteArray
three = record {
  garbage = 0;
  base_size = 2;
  position = 1;
  capacity = 4;
  size = 3;
  endian = big;
  nodes = record { ptr = 7 ∷ 8 ∷ []; size = 2 } ∷ record { ptr = 9 ∷ 0 ∷ []; size = 2 } ∷ [];
  cur = some 0;
}

three-IsValid : IsValid three
three-IsValid = omega arith

abbrev six : List ℕ
six = 1 ∷ 2 ∷ 3 ∷ 4 ∷ 5 ∷ 6 ∷ []

-- Four bytes are free, six are written: two are missing, which is no more than four.
wrote_six : write fresh six ≡ fail null_deref
unfolding running
wrote_six = refl

write_three : (write fresh (1 ∷ 2 ∷ 3 ∷ []) >>= λ b. ok (contents b)) ≡ ok (1 ∷ 2 ∷ 3 ∷ [])
unfolding running
write_three = refl

got_three : (read three 2 >>= λ r. ok r.0) ≡ ok (8 ∷ 9 ∷ [])
unfolding running
got_three = refl

write_lem_example :
    (c : ByteArray) × (write three (1 ∷ 2 ∷ []) ≡ ok c) × Written three (1 ∷ 2 ∷ []) c
write_lem_example = write_lem three (1 ∷ 2 ∷ []) three-IsValid (λ s. omega (arith, s))

read_lem_example : (c : ByteArray) × (read three 2 ≡ ok (8 ∷ 9 ∷ [], c)) × ReadOff three 2 c
read_lem_example = read_lem three 2 three-IsValid (omega arith) (omega arith)

read-write_example :
    (c : ByteArray) × ((do
      written ← write three (1 ∷ 2 ∷ [])
      back ← set_position written 1
      read back 2)
      ≡ ok (1 ∷ 2 ∷ [], c))
    × IsValid c
    × (c.position ≡ 3)
read-write_example =
    read-write three (1 ∷ 2 ∷ []) three-IsValid (λ s. omega (arith, s)) (omega arith)

-- `three` after two bytes were written at its position.
abbrev written_two : ℕ → ℕ → ByteArray
written_two x y = record three {
  position = 3;
  nodes = record { ptr = 7 ∷ x ∷ []; size = 2 } ∷ record { ptr = y ∷ 0 ∷ []; size = 2 } ∷ [];
  cur = some 1;
}

wrote_300 : write_fixed little 2 three 300 ≡ ok (written_two 1 44)
unfolding running
wrote_300 = refl

wrote_varint : write_uint32 three 300 ≡ ok (written_two 172 2)
unfolding running
wrote_varint = refl

wrote_zigzag : write_int32 three (pos 150) ≡ ok (written_two 172 2)
unfolding running
wrote_zigzag = refl

-- `three` after the header 1 and the byte 65, and the same with a header of two bytes.
abbrev written_string : ByteArray
written_string = record three {
  position = 4;
  size = 4;
  nodes = record { ptr = 7 ∷ 0 ∷ []; size = 2 } ∷ record { ptr = 1 ∷ 65 ∷ []; size = 2 } ∷ [];
  cur = none;
}

wrote_f16 : write_string_f16 little three (65 ∷ []) ≡ ok written_string
unfolding running
wrote_f16 = refl

wrote_vint : write_string_vint three (65 ∷ []) ≡ ok (written_two 1 65)
unfolding running
wrote_vint = refl

wrote_long : write_uint64 three 300 ≡ ok (written_two 172 2)
unfolding running
wrote_long = refl

read_uint64-write_uint64_example :
    (e : ByteArray) × ((do d ← set_position (written_two 172 2) 1; read_uint64 d) ≡ ok (300, e))
    × (e.position ≡ 3)
    × (3 ≤ 1 + 10)
read_uint64-write_uint64_example =
    read_uint64-write_uint64 three 300 (written_two 172 2) three-IsValid (omega arith) wrote_long

wrote_long_zigzag : write_int64 three (pos 150) ≡ ok (written_two 172 2)
unfolding running
wrote_long_zigzag = refl

-- The views end behind the data, of three bytes, when they start at another position.
views_too_far :
    get_read_buffers_at three 2 2 ≡ ok (2, record { block = 1; offset = 0; len = 2 } ∷ [])
unfolding running get_read_buffers_at walk views_from views
views_too_far = refl

get_read_buffers_lem_example :
    (n : ℕ) × (vs : List View) × (get_read_buffers three 5 ≡ ok (n, vs))
    × ((n ≤ 5) × (1 + n ≤ 3) × ((n ≡ 5) ⊎ (1 + n ≡ 3)))
    × (gather three.nodes vs ≡ take n (8 ∷ 9 ∷ []))
get_read_buffers_lem_example = get_read_buffers_lem three 5 three-IsValid
