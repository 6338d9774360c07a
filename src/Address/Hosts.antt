-- ===== src/Address/Hosts.antt =====
-- What Lookup takes for the node and the service of a host.
use cor_reactor.Base.{
  ℕ, ◌≡◌, refl, ◌∙◌, List, [], ◌∷◌, ◌++◌, none, some, Bool, true, ◌&&◌, not, ◌==◌, ==_iff, arith,
}
use cor_reactor.Address.{
  split_at, service_of, in_brackets, bracketed, cut_off, at_colon, unbracketed, or_host,
  or_unbracketed, lookup_target,
}

-- A text without the byte c.
unfoldable pub lacks : ℕ → List ℕ → Bool
lacks c [] = true
lacks c (b ∷ s) = not (b == c) && lacks c s

split_at-append :
    (c : ℕ) (s t : List ℕ) → lacks c s ≡ true → split_at c (s ++ (c ∷ t)) ≡ some (s, t)
unfolding split_at lacks
split_at-append c [] t h = rw ((==_iff c c).1 refl) refl
split_at-append c (b ∷ s) t h = grind (arith, split_at-append c s t)

split_at-lacks : (c : ℕ) (s : List ℕ) → lacks c s ≡ true → split_at c s ≡ none
unfolding split_at lacks
split_at-lacks c [] h = refl
split_at-lacks c (b ∷ s) h = grind (arith, split_at-lacks c s)

-- No bracket in front.
unfoldable pub is_plain : List ℕ → Bool
is_plain [] = true
is_plain (c ∷ s) = not (c == b'[')

bracketed-plain : (host : List ℕ) → is_plain host ≡ true → bracketed host ≡ ([], none)
unfolding bracketed is_plain
bracketed-plain [] h = refl
bracketed-plain (c ∷ s) h = ground arith

lookup_target-plain :
    (host : List ℕ)
    → is_plain host ≡ true
    → lookup_target host ≡ or_host host (at_colon (split_at b':' host))
unfolding lookup_target or_unbracketed unbracketed
lookup_target-plain host h = rw (bracketed-plain host h) refl

is_plain-append : (c : ℕ) (s t : List ℕ) → is_plain (c ∷ s) ≡ true → is_plain (c ∷ (s ++ t)) ≡ true
unfolding is_plain
is_plain-append c s t h = h

named_service :
    (c : ℕ) (name service : List ℕ)
    → lacks b':' (c ∷ name) ≡ true
    → lacks b':' service ≡ true
    → or_host
        ((c ∷ name) ++ (b':' ∷ service))
        (at_colon (split_at b':' ((c ∷ name) ++ (b':' ∷ service))))
      ≡ (c ∷ name, some service)
unfolding or_host at_colon cut_off
named_service c name service h k =
    rw (split_at-append b':' (c ∷ name) service h) (rw (split_at-lacks b':' service k) refl)

named_alone :
    (c : ℕ) (name : List ℕ)
    → lacks b':' (c ∷ name) ≡ true
    → or_host (c ∷ name) (at_colon (split_at b':' (c ∷ name))) ≡ (c ∷ name, none)
unfolding or_host at_colon
named_alone c name h = rw (split_at-lacks b':' (c ∷ name) h) refl

in_brackets_lem :
    (c : ℕ) (name after : List ℕ)
    → lacks b']' (c ∷ name) ≡ true
    → lookup_target (b'[' ∷ ((c ∷ name) ++ (b']' ∷ after))) ≡ (c ∷ name, service_of after)
unfolding lookup_target bracketed or_unbracketed in_brackets
in_brackets_lem c name after h = rw (split_at-append b']' (c ∷ name) after h) refl

-- For a host that does not start with a bracket: a non-empty name with one colon behind it is split
-- into the name and the service, and a name without a colon is the node, without a service. For a
-- non-empty node without a closing bracket, the node in brackets is taken apart from the service
-- behind the colon, or stands alone.
pub lookup_target_lem :
    (c : ℕ) (name service : List ℕ)
    → (is_plain (c ∷ name) ≡ true
        → lacks b':' (c ∷ name) ≡ true
        → lacks b':' service ≡ true
        → (lookup_target ((c ∷ name) ++ (b':' ∷ service)) ≡ (c ∷ name, some service))
          × (lookup_target (c ∷ name) ≡ (c ∷ name, none)))
      × (lacks b']' (c ∷ name) ≡ true
          → (lookup_target (b'[' ∷ ((c ∷ name) ++ (b']' ∷ b':' ∷ service)))
              ≡ (c ∷ name, some service))
            × (lookup_target (b'[' ∷ ((c ∷ name) ++ (b']' ∷ []))) ≡ (c ∷ name, none)))
unfolding service_of
lookup_target_lem c name service = (
  (λ p h k. (
    lookup_target-plain _ (is_plain-append c name (b':' ∷ service) p)
        ∙ named_service c name service h k,
    lookup_target-plain _ p ∙ named_alone c name h,
  )),
  (λ h. (in_brackets_lem c name (b':' ∷ service) h, in_brackets_lem c name [] h)),
)

-- A host with at least two colons and no bracket in front, such as an IPv6 address, is the node as a
-- whole, but what follows its first colon is handed over as the service, colon included.
pub lookup_target_colons :
    (before middle after : List ℕ)
    → is_plain (before ++ (b':' ∷ (middle ++ (b':' ∷ after)))) ≡ true
    → lacks b':' before ≡ true
    → lacks b':' middle ≡ true
    → lookup_target (before ++ (b':' ∷ (middle ++ (b':' ∷ after))))
      ≡ (before ++ (b':' ∷ (middle ++ (b':' ∷ after))), some (b':' ∷ (middle ++ (b':' ∷ after))))
unfolding at_colon cut_off or_host
lookup_target_colons before middle after p h k =
    lookup_target-plain _ p
    ∙ rw (split_at-append b':' before (middle ++ (b':' ∷ after)) h)
        (rw (split_at-append b':' middle after k) refl)
