-- ===== src/Address/Subnets.antt =====
-- Networks of a prefix length.
use cor_reactor.Base.{
  ℕ, ◌+◌, ◌-◌, ◌*◌, ◌/◌, ◌^◌, ◌≤◌, ◌<◌, ◌≡◌, refl, ap, ◌∙◌, subst, none, some, le→ltb, lt→ltb, ok,
  fail, undefined, arith,
}
use cor_reactor.Address.{
  Ipv4Address, and_word, or_word, not_word, create_mask, broadcast_address, netword_address,
  subnet_mask,
}
use cor_reactor.Address.Words.{
  shl, ones, ones-pow, widened, widened_eq, shl-pow, shl-ones, high, and_word-shl, or_word-shl,
}

-- The mask of a prefix of at least two bits: ones over the host bits.
abbrev host_bits : ℕ → ℕ
host_bits prefix_len = 32 - prefix_len

width_lem : (prefix_len : ℕ) → prefix_len ≤ 32 → widened (host_bits prefix_len) prefix_len ≡ 32
width_lem p h = omega (arith, widened_eq (host_bits p) p)

create_mask_lem : (p : ℕ) → 2 ≤ p → p ≤ 32 → create_mask p ≡ ok (shl (host_bits p) (ones p))
unfolding create_mask not_word
create_mask_lem p l h =
    let e : 2 ^ widened (host_bits p) p ≡ 2 ^ 32 = ap (λ w. 2 ^ w) (width_lem p h) in
    rw (le→ltb p 2 l, le→ltb 32 p h)
      (ap ok (omega (arith, shl-ones (host_bits p) p, ones-pow (host_bits p), e)))

create_mask_short : (p : ℕ) → p < 2 → create_mask p ≡ fail undefined
unfolding create_mask
create_mask_short p h = rw (lt→ltb p 2 h) refl

and_mask :
    (p a : ℕ)
    → p ≤ 32
    → a < 2 ^ 32
    → and_word 32 a (shl (host_bits p) (ones p)) ≡ a / 2 ^ host_bits p * 2 ^ host_bits p
and_mask p a h b =
    subst (λ w. a < 2 ^ w → and_word w a (shl (host_bits p) (ones p)) ≡ high (host_bits p) a)
      (width_lem p h) (and_word-shl (host_bits p) p a) b
    ∙ shl-pow (host_bits p) (a / 2 ^ host_bits p)

-- For a prefix of 2 to 32 bits networdAddress clears the bits of the host, and keeps the port. A
-- longer prefix gives nullptr; for a prefix of 0 or 1 bits the mask is undefined behaviour.
pub netword_address_lem :
    (a : Ipv4Address) (prefix_len : ℕ)
    → a.address < 2 ^ 32
    → (2 ≤ prefix_len
        → prefix_len ≤ 32
        → netword_address a prefix_len
          ≡ ok (
              some
                (record a { address = a.address / 2 ^ (32 - prefix_len) * 2 ^ (32 - prefix_len) })))
      × (32 < prefix_len → netword_address a prefix_len ≡ ok none)
      × (prefix_len < 2 → netword_address a prefix_len ≡ fail undefined)
unfolding netword_address
netword_address_lem a p b = (
  (λ l h.
      rw (le→ltb 32 p h, create_mask_lem p l h)
        (ap (λ n. ok (some (record a { address = n }))) (and_mask p a.address h b))),
  (λ h. rw (lt→ltb 32 p h) refl),
  (λ h. rw (le→ltb 32 p (omega arith), create_mask_short p h) refl),
)

or_mask :
    (p a : ℕ)
    → p ≤ 32
    → a < 2 ^ 32
    → or_word 32 a (shl (host_bits p) (ones p))
      ≡ 2 ^ 32 - 2 ^ host_bits p + (a - a / 2 ^ host_bits p * 2 ^ host_bits p)
or_mask p a h b =
    let k = host_bits p in
    let e : 2 ^ widened k p ≡ 2 ^ 32 = ap (λ w. 2 ^ w) (width_lem p h) in
    subst (λ w. a < 2 ^ w → or_word w a (shl k (ones p)) ≡ shl k (ones p) + (a - high k a))
      (width_lem p h) (or_word-shl k p a) b
    ∙ omega (arith, shl-pow k (a / 2 ^ k), shl-ones k p, e)

-- For a prefix of 2 to 32 bits broadcastAddress sets the bits of the network and keeps the bits of the
-- host, and subnetMask has ones for the bits of the host.
pub broadcast_address_lem :
    (a : Ipv4Address) (prefix_len : ℕ)
    → a.address < 2 ^ 32
    → 2 ≤ prefix_len
    → prefix_len ≤ 32
    → (broadcast_address a prefix_len
        ≡ ok (
            some (record a {
              address =
                  2 ^ 32
                  - 2 ^ (32 - prefix_len)
                  + (a.address - a.address / 2 ^ (32 - prefix_len) * 2 ^ (32 - prefix_len));
            })))
      × (subnet_mask a prefix_len ≡ ok (record { port = 0; address = 2 ^ (32 - prefix_len) - 1 }))
unfolding broadcast_address subnet_mask not_word
broadcast_address_lem a p b l h =
    let k = host_bits p in
    let e : 2 ^ widened k p ≡ 2 ^ 32 = ap (λ w. 2 ^ w) (width_lem p h) in
    (
      rw (le→ltb 32 p h, create_mask_lem p l h)
          (ap (λ n. ok (some (record a { address = n }))) (or_mask p a.address h b)),
      rw (create_mask_lem p l h) (
          ap (λ n. ok (record { port = 0; address = n }))
            (omega (arith, shl-ones k p, e, ones-pow k))),
    )
