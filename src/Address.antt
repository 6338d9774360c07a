-- ===== src/Address.antt =====
-- include/address.h and src/address.cpp: IPv4 and IPv6 addresses, their order, and how a host is
-- split into a node and a service. In an IPv4Address the address and the port are the numbers that
-- their bytes in network order write: byteswapOnLittleEndian goes between the two, and &, | and ~ act
-- on each byte alike. getaddrinfo, getifaddrs and inet_pton are not the program's.
pub mod Words
pub mod Subnets
pub mod Networks6
pub mod Order
pub mod Hosts
mod Tests
use Prim.Native.Nat.{compare, Ordering}
use cor_reactor.Base.{
  ℕ, zero, suc, ◌+◌, ◌-◌, ◌*◌, ◌/◌, ◌%◌, ◌^◌, min, max, List, [], ◌∷◌, ◌++◌, Option, none, some,
  Bool, true, false, ◌&&◌, not, ◌==◌, ltb, leb, if◌then◌else◌, length, get_elem?, set, take,
  replicate, drop, codes, same_text, Result, ok, fail, undefined, ◌>>=◌,
}
use cor_reactor.Http.Dump.{decimal}

-- &, | and ~ on words of w bits.
unfoldable pub and_word : ℕ → ℕ → ℕ → ℕ
and_word zero a b = 0
and_word (suc w) a b = and_word w (a / 2) (b / 2) * 2 + min (a % 2) (b % 2)

unfoldable pub or_word : ℕ → ℕ → ℕ → ℕ
or_word zero a b = 0
or_word (suc w) a b = or_word w (a / 2) (b / 2) * 2 + max (a % 2) (b % 2)

unfoldable pub not_word : ℕ → ℕ → ℕ
not_word w a = 2 ^ w - 1 - a

-- CreateMask<uint32_t>: the shift of an int by more than 31 is undefined, and so is -2 ^ 31 - 1.
unfoldable pub create_mask : ℕ → Result ℕ
unfolding not_word
create_mask bits =
    if ltb bits 2
    then fail undefined
    else if ltb 32 bits
    then fail undefined
    else ok (not_word 32 (2 ^ (32 - bits) - 1))

-- CountBytes: the loop clears the lowest bit that is set, until none is left.
unfoldable pub count_bytes : ℕ → ℕ → ℕ
count_bytes zero value = 0
count_bytes (suc w) zero = 0
count_bytes (suc w) (suc value) = suc (count_bytes w (and_word 32 (suc value) value))

pub record Ipv4Address : Type 0 where
  pub port : ℕ
  pub address : ℕ

-- IPv4Address::IPv4Address(address, port)
unfoldable pub ipv4_address : ℕ → ℕ → Ipv4Address
ipv4_address address port = record { port = port; address = address }

-- `none` is nullptr.
unfoldable pub broadcast_address : Ipv4Address → ℕ → Result (Option Ipv4Address)
broadcast_address a prefix_len =
    if ltb 32 prefix_len
    then ok none
    else (create_mask prefix_len >>= λ mask.
        ok (some (record a { address = or_word 32 a.address mask })))

-- networdAddress
unfoldable pub netword_address : Ipv4Address → ℕ → Result (Option Ipv4Address)
netword_address a prefix_len =
    if ltb 32 prefix_len
    then ok none
    else (create_mask prefix_len >>= λ mask.
        ok (some (record a { address = and_word 32 a.address mask })))

unfoldable pub subnet_mask : Ipv4Address → ℕ → Result Ipv4Address
subnet_mask a prefix_len =
    create_mask prefix_len >>= λ mask. ok (record { port = 0; address = not_word 32 mask })

-- setPort, of a uint16_t
unfoldable pub set_port : Ipv4Address → ℕ → Ipv4Address
set_port a v = record a { port = v }

-- IPv4Address::insert
unfoldable pub insert : Ipv4Address → List ℕ
insert a =
    decimal (a.address / 2 ^ 24 % 256)
    ++ codes "."
    ++ decimal (a.address / 2 ^ 16 % 256)
    ++ codes "."
    ++ decimal (a.address / 2 ^ 8 % 256)
    ++ codes "."
    ++ decimal (a.address % 256)
    ++ codes ":"
    ++ decimal a.port

-- CreateMask<uint8_t>, of less than 8 bits, cut to a byte
unfoldable pub create_byte_mask : ℕ → ℕ
unfolding not_word
create_byte_mask bits = not_word 16 (2 ^ (8 - bits) - 1) % 256

-- The 16 bytes of an IPv6 address are `bytes`. One byte is changed, and those behind it are filled;
-- a byte outside of the array is undefined.
unfoldable pub fill_behind : ℕ → ℕ → List ℕ → List ℕ
fill_behind i value bytes = take i bytes ++ replicate (length bytes - i) value

unfoldable pub change_found : List ℕ → ℕ → (ℕ → ℕ) → ℕ → Option ℕ → Result (List ℕ)
unfolding fill_behind
change_found bytes i change value none = fail undefined
change_found bytes i change value (some b) = ok (fill_behind (suc i) value (set bytes i (change b)))

unfoldable pub change_byte : List ℕ → ℕ → (ℕ → ℕ) → ℕ → Result (List ℕ)
unfolding change_found
change_byte bytes i change value = change_found bytes i change value (get_elem? bytes i)

-- IPv6Address::broadcastAddress and IPv6Address::networdAddress
unfoldable pub broadcast_address6 : List ℕ → ℕ → Result (List ℕ)
unfolding change_byte
broadcast_address6 bytes prefix_len =
    change_byte bytes (prefix_len / 8) (λ b. or_word 8 b (create_byte_mask (prefix_len % 8))) 255

unfoldable pub netword_address6 : List ℕ → ℕ → Result (List ℕ)
unfolding change_byte
netword_address6 bytes prefix_len =
    change_byte bytes (prefix_len / 8) (λ b. and_word 8 b (create_byte_mask (prefix_len % 8))) 0

-- memcmp of the first n bytes
unfoldable pub memcmp : ℕ → List ℕ → List ℕ → Ordering
memcmp zero s t = Ordering.eq
memcmp (suc n) [] t = Ordering.eq
memcmp (suc n) (a ∷ s) [] = Ordering.eq
memcmp (suc n) (a ∷ s) (b ∷ t) =
    let rest = memcmp n s t in
    elim (compare a b) [
      | Ordering.lt ↦ Ordering.lt
      | Ordering.eq ↦ rest
      | Ordering.gt ↦ Ordering.gt
    ]

-- Address::operator<, on the bytes of the two socket addresses
unfoldable pub address_less : List ℕ → List ℕ → Bool
unfolding memcmp
address_less lhs rhs = elim (memcmp (min (length lhs) (length rhs)) lhs rhs) [
  | Ordering.lt ↦ true
  | Ordering.gt ↦ false
  | Ordering.eq ↦ ltb (length lhs) (length rhs)
]

-- Address::operator==
unfoldable pub address_equal : List ℕ → List ℕ → Bool
unfolding memcmp
address_equal lhs rhs =
    (length lhs == length rhs)
    && elim (memcmp (length lhs) lhs rhs) [ Ordering.eq ↦ true | _ ↦ false ]

-- memchr: what stands before and behind the first c
unfoldable pub split_at : ℕ → List ℕ → Option (List ℕ × List ℕ)
split_at c [] = none
split_at c (b ∷ s) =
    let rest = split_at c s in
    if b == c then some ([], s) else elim rest [ none ↦ none | some p ↦ some (b ∷ p.0, p.1) ]

-- What stands behind the closing bracket: a service, or not.
unfoldable pub service_of : List ℕ → Option (List ℕ)
service_of [] = none
service_of (d ∷ after) = if d == b':' then some after else none

unfoldable pub in_brackets : Option (List ℕ × List ℕ) → List ℕ × Option (List ℕ)
unfolding service_of
in_brackets none = ([], none)
in_brackets (some (node, after)) = (node, service_of after)

-- The block for `[node]:service`: the node, empty if there is none, and the service.
unfoldable pub bracketed : List ℕ → List ℕ × Option (List ℕ)
unfolding split_at in_brackets
bracketed [] = ([], none)
bracketed (c ∷ host) = if c == b'[' then in_brackets (split_at b']' host) else ([], none)

-- The test for a second colon: without one the service is cut off, with one it keeps its colon.
unfoldable pub cut_off : List ℕ → List ℕ → Bool → List ℕ × Option (List ℕ)
cut_off node after true = ([], some (b':' ∷ after))
cut_off node after false = (node, some after)

abbrev pub is_some : Option (List ℕ × List ℕ) → Bool
is_some none = false
is_some (some p) = true

unfoldable pub at_colon : Option (List ℕ × List ℕ) → List ℕ × Option (List ℕ)
unfolding split_at cut_off
at_colon none = ([], none)
at_colon (some (node, after)) = cut_off node after (is_some (split_at b':' after))

-- The block for `node:service`
unfoldable pub unbracketed : List ℕ → List ℕ × Option (List ℕ)
unfolding split_at at_colon
unbracketed host = at_colon (split_at b':' host)

-- The last block: `if (node.empty()) node = host`
unfoldable pub or_host : List ℕ → List ℕ × Option (List ℕ) → List ℕ × Option (List ℕ)
or_host host ([], service) = (host, service)
or_host host (c ∷ node, service) = (c ∷ node, service)

unfoldable pub or_unbracketed : List ℕ → List ℕ × Option (List ℕ) → List ℕ × Option (List ℕ)
unfolding unbracketed or_host
or_unbracketed host ([], service) = or_host host (unbracketed host)
or_unbracketed host (c ∷ node, service) = (c ∷ node, service)

-- What Lookup hands to getaddrinfo: node and service.
unfoldable pub lookup_target : List ℕ → List ℕ × Option (List ℕ)
unfolding bracketed or_unbracketed
lookup_target host = or_unbracketed host (bracketed host)
