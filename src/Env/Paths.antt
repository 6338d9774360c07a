-- ===== src/Env/Paths.antt =====
-- The directory and the name of a path.
use cor_reactor.Base.{
  ℕ, ◌≡◌, refl, ap, ◌⊎◌, inl, inr, [], ◌∷◌, ◌++◌, Option, none, some, true, ◌==◌, ==_iff, codes,
  Bool-cases, arith,
}
use cor_reactor.Http.{Text}
use cor_reactor.Address.Hosts.{lacks}
use cor_reactor.Env.{extend_split, split_last, name_of, dirname_of, dirname, basename}

-- Where a text was split, if it was.
abbrev pub IsSplit : Text → Option (Text × Text) → Type 0
IsSplit s none = lacks b'/' s ≡ true
IsSplit s (some (before, behind)) = (s ≡ before ++ (b'/' ∷ behind)) × (lacks b'/' behind ≡ true)

extend_split-IsSplit :
    (c : ℕ) (s : Text) (o : Option (Text × Text))
    → IsSplit s o
    → IsSplit (c ∷ s) (extend_split c s o)
unfolding extend_split lacks
extend_split-IsSplit c s none h = elim (Bool-cases (c == b'/')) [
  | inl p ↦ rw p (ap (λ c. c ∷ s) ((==_iff c b'/').0 p), h)
  | inr p ↦ rw p (ground arith)
]
extend_split-IsSplit c s (some (before, behind)) (e, h) = (ap (◌∷◌ c) e, h)

split_last-IsSplit : (s : Text) → IsSplit s (split_last s)
unfolding split_last lacks
split_last-IsSplit [] = refl
split_last-IsSplit (c ∷ s) = extend_split-IsSplit c s (split_last s) (split_last-IsSplit s)

parts_lem :
    (s : Text) (o : Option (Text × Text))
    → IsSplit s o
    → ((lacks b'/' s ≡ true) × (dirname_of o ≡ codes ".") × (name_of s o ≡ s))
      ⊎ ((dir : Text) × (s ≡ dir ++ (b'/' ∷ name_of s o))
          × (lacks b'/' (name_of s o) ≡ true)
          × (dirname_of o ≡ dirname_of (some (dir, name_of s o))))
unfolding dirname_of name_of
parts_lem s none h = inl (h, refl, refl)
parts_lem s (some (before, behind)) (e, h) = inr (before, e, h, refl)

-- A path without a slash is its own name in the directory `.`. Any other path is a directory, a slash
-- and a name without a slash; Basename is the name, and Dirname the directory, or `/` where nothing
-- stands before the slash.
pub dirname-basename :
    (s : Text)
    → ((lacks b'/' s ≡ true) × (dirname s ≡ codes ".") × (basename s ≡ s))
      ⊎ ((dir : Text) × (s ≡ dir ++ (b'/' ∷ basename s))
          × (lacks b'/' (basename s) ≡ true)
          × (dirname s ≡ dirname_of (some (dir, basename s))))
unfolding dirname basename
dirname-basename s = parts_lem s (split_last s) (split_last-IsSplit s)
