-- ===== src/IoManager/Waiting.antt =====
-- idle: the timeouts that epoll_wait is given.
use native.Mathlib.Decide.{dec_lt}
use cor_reactor.Base.{
  ℕ, ◌%◌, ◌^◌, ◌-◌, ◌≤◌, ◌<◌, ◌≡◌, ap, ◌⊎◌, inl, inr, List, [], ◌∷◌, All, false, ◌==◌, Bool-cases,
  arith, ==_iff, ◌≢◌, ◌∙◌, sym, subst, lt→ltb, le→ltb,
}
use cor_reactor.Base.Int.{ℤ, pos, negsuc}
use cor_reactor.IoManager.Idle.{clamp, to_int, Answer, interrupted, failed, events, wait}

-- At most three seconds, and not longer than v.
abbrev pub IsShort : ℕ → ℤ → Type 0
IsShort v t = (n : ℕ) × (t ≡ pos n) × (n ≤ 3000) × (n ≤ v)

abbrev pub IsEndless : ℤ → Type 0
IsEndless t = (n : ℕ) × (t ≡ negsuc n)

to_int_small : (v : ℕ) → v % 2 ^ 32 < 2 ^ 31 → to_int v ≡ pos (v % 2 ^ 32)
to_int_small v h = ground arith

to_int_large : (v : ℕ) → 2 ^ 31 ≤ v % 2 ^ 32 → to_int v ≡ negsuc (2 ^ 32 - 1 - v % 2 ^ 32)
to_int_large v h = ground arith

-- The three cases of clamp.
data Clamped (v : ℕ) : Type 0 where
  capped : (2 ^ 31 ≤ v % 2 ^ 32 → v ≡ 2 ^ 64 - 1) → clamp v ≡ 3000 → 3000 ≤ v → Clamped v
  small : clamp v ≡ v → v % 2 ^ 32 ≤ 3000 → Clamped v
  large : clamp v ≡ v → 2 ^ 31 ≤ v % 2 ^ 32 → v ≢ 2 ^ 64 - 1 → Clamped v

clamp-Clamped : (v : ℕ) → Clamped v
unfolding clamp
clamp-Clamped v = elim (Bool-cases (v == 2 ^ 64 - 1)) [
  | inl m ↦ capped (λ h. (==_iff v _).0 m) (rw m) (omega (arith, (==_iff v _).0 m))
  | inr m ↦ elim (dec_lt (v % 2 ^ 32) (2 ^ 31)) [
    | no k ↦
        large (rw (m, le→ltb (v % 2 ^ 32) (2 ^ 31) (omega (arith, k)))) (omega (arith, k)) (other m)
    | yes k ↦ elim (dec_lt 3000 (v % 2 ^ 32)) [
      | yes l ↦
          capped (λ h. omega (arith, h, k))
            (rw (m, lt→ltb (v % 2 ^ 32) (2 ^ 31) k, lt→ltb 3000 (v % 2 ^ 32) l)) (omega (arith, l))
      | no l ↦
          small
            (rw (m, lt→ltb (v % 2 ^ 32) (2 ^ 31) k, le→ltb 3000 (v % 2 ^ 32) (omega (arith, l))))
            (omega (arith, l))
    ]
  ]
]
  where
    other : (v == 2 ^ 64 - 1) ≡ false → v ≢ 2 ^ 64 - 1
    other m e = cc (m, (==_iff v (2 ^ 64 - 1)).1 e)

-- What the timeouts have in common, once the first has it.
clamp-clamp : (v : ℕ) → clamp (clamp v) ≡ clamp v
unfolding clamp
clamp-clamp v = go v (clamp-Clamped v)
  where
    go : (v : ℕ) → Clamped v → clamp (clamp v) ≡ clamp v
    go v (capped h e k) = ap clamp e ∙ sym e
    go v (small e h) = ap clamp e
    go v (large e h k) = ap clamp e

wait_All :
    (P : ℤ → Type 0) (v : ℕ) (answers : List Answer)
    → P (to_int (clamp v))
    → All P (wait v answers).0
unfolding wait
wait_All P v [] h = (h, tt)
wait_All P v (interrupted ∷ answers) h =
    (h, wait_All P (clamp v) answers (subst (λ n. P (to_int n)) (sym (clamp-clamp v)) h))
wait_All P v (failed ∷ answers) h = (h, tt)
wait_All P v (events rs ∷ answers) h = (h, tt)

clamp-IsShort : (v : ℕ) → (v % 2 ^ 32 < 2 ^ 31) ⊎ (v ≡ 2 ^ 64 - 1) → IsShort v (to_int (clamp v))
clamp-IsShort v h = go (clamp-Clamped v) h
  where
    go : Clamped v → (v % 2 ^ 32 < 2 ^ 31) ⊎ (v ≡ 2 ^ 64 - 1) → IsShort v (to_int (clamp v))
    go (capped k e l) h = (3000, ap to_int e, omega arith, l)
    go (small e k) h = (v % 2 ^ 32, ap to_int e ∙ to_int_small v (omega (arith, k)), k, omega arith)
    go (large e k n) (inl h) = absurd (omega (arith, h, k))
    go (large e k n) (inr h) = absurd (n h)

-- However often it is interrupted, epoll_wait is given at most three seconds and not more than the
-- time until the next timer, in milliseconds, when that time has no bit 31 or there is no timer.
-- When there is one and its time has bit 31, it is given a negative number each time.
pub wait_lem :
    (v : ℕ) (answers : List Answer)
    → (((v % 2 ^ 32 < 2 ^ 31) ⊎ (v ≡ 2 ^ 64 - 1)) → All (IsShort v) (wait v answers).0)
      × (2 ^ 31 ≤ v % 2 ^ 32 → v ≢ 2 ^ 64 - 1 → All IsEndless (wait v answers).0)
wait_lem v answers = (
  (λ h. wait_All (IsShort v) v answers (clamp-IsShort v h)),
  (λ h n. wait_All IsEndless v answers (endless (clamp-Clamped v) h n)),
)
  where
    endless : Clamped v → 2 ^ 31 ≤ v % 2 ^ 32 → v ≢ 2 ^ 64 - 1 → IsEndless (to_int (clamp v))
    endless (capped k e l) h n = absurd (n (k h))
    endless (small e k) h n = absurd (omega (arith, h, k))
    endless (large e k l) h n = (2 ^ 32 - 1 - v % 2 ^ 32, ap to_int e ∙ to_int_large v h)
