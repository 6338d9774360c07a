-- ===== src/Address/Networks6.antt =====
-- Networks of IPv6 addresses.
use cor_reactor.Base.{
  ℕ, zero, suc, ◌-◌, ◌*◌, ◌/◌, ◌%◌, ◌^◌, ◌≤◌, ◌<◌, ◌≡◌, refl, ap, ◌∙◌, subst, List, [], ◌∷◌, ◌++◌,
  none, some, ok, fail, undefined, length, length-set, get_elem?, get_elem?-lt, get_elem?-some, set,
  take, replicate, All, All-get, arith,
}
use cor_reactor.Address.{
  and_word, not_word, create_byte_mask, fill_behind, change_found, change_byte, netword_address6,
}
use cor_reactor.Address.Words.{
  shl, ones, ones-pow, widened, widened_eq, shl-pow, shl-ones, high, and_word-shl,
}

create_byte_mask_lem : (r : ℕ) → r < 8 → create_byte_mask r ≡ shl (8 - r) (ones r)
unfolding create_byte_mask not_word
create_byte_mask_lem r h =
    let w : widened (8 - r) r ≡ 8 = omega (arith, widened_eq (8 - r) r) in
    let e : 2 ^ widened (8 - r) r ≡ 2 ^ 8 = ap (λ w. 2 ^ w) w in
    omega (arith, shl-ones (8 - r) r, ones-pow (8 - r), e)

and_byte :
    (r b : ℕ) → r < 8 → b < 256 → and_word 8 b (create_byte_mask r) ≡ b / 2 ^ (8 - r) * 2 ^ (8 - r)
and_byte r b h l =
    let w : widened (8 - r) r ≡ 8 = omega (arith, widened_eq (8 - r) r) in
    ap (and_word 8 b) (create_byte_mask_lem r h)
    ∙ subst (λ w. b < 2 ^ w → and_word w b (shl (8 - r) (ones r)) ≡ high (8 - r) b) w
        (and_word-shl (8 - r) r b) l
    ∙ shl-pow (8 - r) (b / 2 ^ (8 - r))

take-set :
    (bytes : List ℕ) (i v : ℕ)
    → i < length bytes
    → take (suc i) (set bytes i v) ≡ take i bytes ++ (v ∷ [])
take-set [] i v h = absurd (omega arith)
take-set (b ∷ bytes) zero v h = refl
take-set (b ∷ bytes) (suc i) v h = ap (◌∷◌ b) (take-set bytes i v (omega arith))

change_byte_lem :
    (bytes : List ℕ) (i : ℕ) (change : ℕ → ℕ) (value b : ℕ)
    → get_elem? bytes i ≡ some b
    → change_byte bytes i change value
      ≡ ok (take i bytes ++ (change b ∷ []) ++ replicate (length bytes - suc i) value)
unfolding change_byte change_found fill_behind
change_byte_lem bytes i change value b at = rw at (
    rw (take-set bytes i (change b) (get_elem?-some bytes i b at), length-set bytes i (change b))
      refl)

get_elem?-none : (bytes : List ℕ) (i : ℕ) → length bytes ≤ i → get_elem? bytes i ≡ none
get_elem?-none [] i h = refl
get_elem?-none (b ∷ bytes) zero h = absurd (omega arith)
get_elem?-none (b ∷ bytes) (suc i) h = get_elem?-none bytes i (omega arith)

change_byte_outside :
    (bytes : List ℕ) (i : ℕ) (change : ℕ → ℕ) (value : ℕ)
    → length bytes ≤ i
    → change_byte bytes i change value ≡ fail undefined
unfolding change_byte change_found
change_byte_outside bytes i change value h = rw (get_elem?-none bytes i h) refl

-- For a prefix of less than 128 bits of the 16 bytes of an IPv6 address, networdAddress keeps the
-- bytes of the prefix, clears the bits of the host in the byte where the prefix ends, and zeroes the
-- bytes behind it. For a longer prefix it writes outside of the address.
pub netword_address6_lem :
    (bytes : List ℕ) (prefix_len : ℕ)
    → length bytes ≡ 16
    → All (λ b. b < 256) bytes
    → (prefix_len < 128
        → (b : ℕ) × (get_elem? bytes (prefix_len / 8) ≡ some b)
          × (netword_address6 bytes prefix_len
              ≡ ok (
                  take (prefix_len / 8) bytes
                  ++ (b / 2 ^ (8 - prefix_len % 8) * 2 ^ (8 - prefix_len % 8) ∷ [])
                  ++ replicate (15 - prefix_len / 8) 0)))
      × (128 ≤ prefix_len → netword_address6 bytes prefix_len ≡ fail undefined)
unfolding netword_address6
netword_address6_lem bytes p l bs = (
  (λ h.
      let inside : p / 8 < length bytes = omega (arith, l) in
      let (b, at) = get_elem?-lt bytes (p / 8) inside in
      let byte = and_byte (p % 8) b (omega arith) (All-get _ bytes (p / 8) b bs at) in
      let rest : length bytes - suc (p / 8) ≡ 15 - p / 8 = omega (arith, l) in
      (
        b,
        at,
        change_byte_lem bytes (p / 8) (λ b. and_word 8 b (create_byte_mask (p % 8))) 0 b at
            ∙ ap
                (λ v.
                  ok (take (p / 8) bytes ++ (v ∷ []) ++ replicate (length bytes - suc (p / 8)) 0))
                byte
            ∙ ap
                (λ n. ok (
                  take (p / 8) bytes
                  ++ (b / 2 ^ (8 - p % 8) * 2 ^ (8 - p % 8) ∷ [])
                  ++ replicate n 0))
                rest,
      )),
  (λ h. change_byte_outside bytes (p / 8) _ 0 (omega (arith, l))),
)
