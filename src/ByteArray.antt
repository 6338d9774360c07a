-- ===== src/ByteArray.antt =====
-- include/bytearray.h and src/bytearray.cpp: a growing chain of fixed-size blocks with a position.
-- Sizes are plain numbers: no array comes near 2 ^ 64 bytes, so sums do not wrap; the differences
-- `m_size - m_position`, `m_capacity - m_position` and `m_size - position` keep their wrap-around.
-- A pointer into the chain is the index of its node, and `none` is a null pointer.
pub mod Memory
pub mod Chain
pub mod Cursor
pub mod Reading
pub mod Writing
pub mod Invariant
pub mod Capacity
pub mod Overwrite
pub mod Write
pub mod Read
pub mod Position
pub mod Stream
pub mod ByteOrder
pub mod Fixed
pub mod Varint
pub mod Zigzag
pub mod Strings
pub mod Views
mod Tests
use cor_reactor.Base.{
  ℕ, zero, suc, ◌+◌, ◌-◌, ◌/◌, ◌%◌, ◌^◌, List, [], ◌∷◌, ◌++◌, Option, none, some, Bool, true, false,
  ltb, leb, ◌==◌, if◌then◌else◌, length, get_elem?, set, take, drop, replicate, Result, ok, fail,
  out_of_range, null_deref, out_of_fuel, ◌>>=◌, or_fail,
}

-- SYLAR_LITTLE_ENDIAN, SYLAR_BIG_ENDIAN
pub data Endian : Type 0 where
  little : Endian
  big : Endian

-- ByteArray::Node, without `next`: the chain is a list.
pub record Node : Type 0 where
  pub ptr : List ℕ
  pub size : ℕ

-- `garbage` is the byte that fresh memory holds, which the program does not determine.
pub record ByteArray : Type 0 where
  pub garbage : ℕ
  pub base_size : ℕ
  pub position : ℕ
  pub capacity : ℕ
  pub size : ℕ
  pub endian : Endian
  pub nodes : List Node
  pub cur : Option ℕ

-- Node::Node(size_t s)
unfoldable pub new_node : ℕ → ℕ → Node
new_node garbage s = record { ptr = replicate s garbage; size = s }

-- ByteArray::ByteArray(size_t base_size)
unfoldable pub byte_array : ℕ → ℕ → ByteArray
unfolding new_node
byte_array garbage base = record {
  garbage = garbage;
  base_size = base;
  position = 0;
  capacity = base;
  size = 0;
  endian = big;
  nodes = new_node garbage base ∷ [];
  cur = some 0;
}

unfoldable pub is_little_endian : ByteArray → Bool
is_little_endian b = elim b.endian [ little ↦ true | big ↦ false ]

unfoldable pub set_is_little_endian : ByteArray → Bool → ByteArray
set_is_little_endian b val = record b { endian = if val then little else big }

-- The difference of two size_t, which wraps.
abbrev pub sub_size : ℕ → ℕ → ℕ
sub_size a b = if leb b a then a - b else 2 ^ 64 + a - b

unfoldable pub get_capacity : ByteArray → ℕ
get_capacity b = sub_size b.capacity b.position

unfoldable pub get_read_size : ByteArray → ℕ
get_read_size b = sub_size b.size b.position

-- `p->next` of the node at index i
unfoldable pub next : List Node → ℕ → Option ℕ
next nodes i = if ltb (suc i) (length nodes) then some (suc i) else none

-- The node that a pointer stands for, with its index.
unfoldable pub deref : List Node → Option ℕ → Result (ℕ × Node)
deref nodes none = fail null_deref
deref nodes (some i) = do n ← or_fail (get_elem? nodes i) null_deref; ok (i, n)

-- One round of addCapacity's `for`, `count` times.
unfoldable pub append_nodes : ℕ → ByteArray → ByteArray
append_nodes zero b = b
append_nodes (suc count) b = append_nodes count (record b {
  nodes = b.nodes ++ (new_node b.garbage b.base_size ∷ []);
  capacity = b.capacity + b.base_size;
})

-- `count` of addCapacity, from what is missing and the room that was left.
unfoldable pub node_count : ℕ → ℕ → ℕ → ℕ
node_count base old_cap missing = missing / base + (if ltb old_cap (missing % base) then 1 else 0)

unfoldable pub grow : ByteArray → ℕ → ℕ → ByteArray
grow b old_cap missing =
    let count = node_count b.base_size old_cap missing in
    let first = if count == 0 then none else some (length b.nodes) in
    let grown = append_nodes count b in
    record grown { cur = if old_cap == 0 then first else grown.cur }

unfoldable pub add_capacity : ByteArray → ℕ → ByteArray
unfolding get_capacity
add_capacity b size =
    if size == 0
    then b
    else if leb size (get_capacity b)
    then b
    else grow b (get_capacity b) (size - get_capacity b)

-- memcpy(dst + npos, src, |src|), which stays inside `dst` where the program calls it.
unfoldable pub memcpy : List ℕ → ℕ → List ℕ → List ℕ
memcpy [] npos src = []
memcpy (d ∷ dst) (suc npos) src = d ∷ memcpy dst npos src
memcpy (d ∷ dst) zero [] = d ∷ dst
memcpy (d ∷ dst) zero (s ∷ src) = s ∷ memcpy dst zero src

unfoldable pub store : List Node → ℕ → Node → ℕ → List ℕ → List Node
store nodes i n npos bytes = set nodes i (record n { ptr = memcpy n.ptr npos bytes })

-- The branch of the write loop in which the rest fits into the node.
unfoldable pub write_last : ByteArray → ℕ → List ℕ → Result ByteArray
unfolding store deref next
write_last b npos buf = do
  (i, n) ← deref b.nodes b.cur
  ok (record b {
    nodes = store b.nodes i n npos buf;
    cur = if n.size == npos + length buf then next b.nodes i else some i;
    position = b.position + length buf;
  })

-- The other branch: fill the node, go on to the next, and return its size.
unfoldable pub write_full : ByteArray → ℕ → ℕ → List ℕ → Result (ByteArray × ℕ)
unfolding store deref next
write_full b npos ncap buf = do
  (i, n) ← deref b.nodes b.cur
  let nodes' = store b.nodes i n npos (take ncap buf)
  (j, m) ← deref nodes' (next b.nodes i)
  ok (record b { nodes = nodes'; cur = some j; position = b.position + ncap }, m.size)

unfoldable pub write_loop : ℕ → ByteArray → ℕ → ℕ → List ℕ → Result ByteArray
write_loop zero b npos ncap buf = fail out_of_fuel
write_loop (suc fuel) b npos ncap [] = ok b
write_loop (suc fuel) b npos ncap (x ∷ xs) = elim (leb (length (x ∷ xs)) ncap) [
  | true ↦ write_last b npos (x ∷ xs)
  | false ↦ do
    (b', ncap') ← write_full b npos ncap (x ∷ xs)
    write_loop fuel b' 0 ncap' (drop ncap (x ∷ xs))
]

-- The end of `write` and of setPosition: `m_size` follows the position.
unfoldable pub raise_size : ByteArray → ByteArray
raise_size b = record b { size = if ltb b.size b.position then b.position else b.size }

unfoldable pub write_from : ByteArray → List ℕ → Result ByteArray
unfolding deref raise_size
write_from b buf = do
  let npos = b.position % b.base_size
  (i, n) ← deref b.nodes b.cur
  b' ← write_loop (suc (length buf)) b npos (sub_size n.size npos) buf
  ok (raise_size b')

-- void write(const void *buf, size_t size): `buf` is the bytes, `size` their number.
unfoldable pub write : ByteArray → List ℕ → Result ByteArray
unfolding write_from add_capacity
write b buf = if length buf == 0 then ok b else write_from (add_capacity b (length buf)) buf

-- The loop of both `read`s: the bytes copied, and the pointer after them.
unfoldable pub copy_out : ℕ → List Node → Option ℕ → ℕ → ℕ → ℕ → Result (List ℕ × Option ℕ)
copy_out zero nodes cur npos ncap size = fail out_of_fuel
copy_out (suc fuel) nodes cur npos ncap zero = ok ([], cur)
copy_out (suc fuel) nodes cur npos ncap (suc size) = elim (leb (suc size) ncap) [
  | true ↦ do
    (i, n) ← deref nodes cur
    ok (
      take (suc size) (drop npos n.ptr),
      (if n.size == npos + suc size then next nodes i else some i),
    )
  | false ↦ do
    (i, n) ← deref nodes cur
    (j, m) ← deref nodes (next nodes i)
    (rest, cur') ← copy_out fuel nodes (some j) 0 m.size (suc size - ncap)
    ok (take ncap (drop npos n.ptr) ++ rest, cur')
]

unfoldable pub read_from : ByteArray → ℕ → ℕ → Result (List ℕ × Option ℕ)
unfolding deref
read_from b size position = do
  let npos = position % b.base_size
  (i, n) ← deref b.nodes b.cur
  copy_out (suc size) b.nodes b.cur npos (sub_size n.size npos) size

-- void read(void *buf, size_t size)
unfoldable pub read : ByteArray → ℕ → Result (List ℕ × ByteArray)
read b size = if ltb (get_read_size b) size then fail out_of_range else do
  (out, cur') ← read_from b size b.position
  ok (out, record b { cur = cur'; position = b.position + size })

-- void read(void *buf, size_t size, size_t position) const
unfoldable pub read_at : ByteArray → ℕ → ℕ → Result (List ℕ)
read_at b size position =
    if ltb (sub_size b.size position) size
    then fail out_of_range
    else do (out, cur') ← read_from b size position; ok out

-- The `while (v > m_cur->size)` of setPosition, then the step past a node that ends at `v`.
unfoldable pub seek : ℕ → List Node → Option ℕ → ℕ → Result (Option ℕ)
unfolding deref next
seek zero nodes cur v = fail out_of_fuel
seek (suc fuel) nodes cur v = do
  (i, n) ← deref nodes cur
  elim (ltb n.size v) [
    | true ↦ seek fuel nodes (next nodes i) (v - n.size)
    | false ↦ ok (if v == n.size then next nodes i else some i)
  ]

unfoldable pub set_position : ByteArray → ℕ → Result ByteArray
unfolding raise_size
set_position b v = if ltb b.capacity v then fail out_of_range else do
  let moved = raise_size (record b { position = v })
  cur' ← seek (suc (length b.nodes)) b.nodes (some 0) v
  ok (record moved { cur = cur' })

-- void clear(): every node but the root is deleted.
unfoldable pub clear : ByteArray → ByteArray
clear b = record b {
  position = 0;
  size = 0;
  capacity = b.base_size;
  nodes = take 1 b.nodes;
  cur = some 0;
}

-- std::string toString() const
unfoldable pub to_string : ByteArray → Result (List ℕ)
to_string b = if get_read_size b == 0 then ok [] else read_at b (get_read_size b) b.position
