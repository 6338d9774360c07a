-- ===== src/Address/Tests.antt =====
-- Runs of the addresses, and the theorems at concrete addresses.
use cor_reactor.Base.{
  ℕ, List, All, ◌-◌, ◌+◌, ◌*◌, ◌^◌, ◌≡◌, refl, ◌<◌, [], ◌∷◌, ◌++◌, none, some, true, codes, arith,
}
use cor_reactor.Http.Dump.{decimal}
use cor_reactor.Address.{Ipv4Address, insert, and_word, count_bytes, lookup_target}
use cor_reactor.Address.Hosts.{lacks, is_plain, lookup_target_lem}

-- 192.168.1.130:80
abbrev host : Ipv4Address
host = record { port = 80; address = 192 * 2 ^ 24 + 168 * 2 ^ 16 + 256 + 130 }

prints_host : insert host ≡ codes "192.168.1.130:80"
unfolding insert decimal
prints_host = refl

counts_mask : count_bytes 32 (2 ^ 32 - 2 ^ 8) ≡ 24
unfolding count_bytes and_word
counts_mask = refl

lookup_target_lem_example :
    (is_plain (codes "host") ≡ true
      → lacks b':' (codes "host") ≡ true
      → lacks b':' (codes "80") ≡ true
      → (lookup_target (codes "host" ++ (b':' ∷ codes "80")) ≡ (codes "host", some (codes "80")))
        × (lookup_target (codes "host") ≡ (codes "host", none)))
    × (lacks b']' (codes "host") ≡ true
        → (lookup_target (b'[' ∷ (codes "host" ++ (b']' ∷ b':' ∷ codes "80")))
            ≡ (codes "host", some (codes "80")))
          × (lookup_target (b'[' ∷ (codes "host" ++ (b']' ∷ []))) ≡ (codes "host", none)))
lookup_target_lem_example = lookup_target_lem b'h' (codes "ost") (codes "80")

abbrev bytes6 : List ℕ
bytes6 = 254 ∷ 128 ∷ 0 ∷ 0 ∷ 0 ∷ 0 ∷ 0 ∷ 0 ∷ 1 ∷ 2 ∷ 3 ∷ 4 ∷ 5 ∷ 6 ∷ 7 ∷ 8 ∷ []

bytes6_small : All (λ b. b < 256) bytes6
bytes6_small = (
  omega arith,
  (
    omega arith,
    (
      omega arith,
      (
        omega arith,
        (
          omega arith,
          (
            omega arith,
            (
              omega arith,
              (
                omega arith,
                (
                  omega arith,
                  (
                    omega arith,
                    (
                      omega arith,
                      (omega arith, (omega arith, (omega arith, (omega arith, (omega arith, tt))))),
                    ),
                  ),
                ),
              ),
            ),
          ),
        ),
      ),
    ),
  ),
)
