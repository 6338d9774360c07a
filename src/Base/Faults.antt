-- ===== src/Base/Faults.antt =====
-- What a call of the program ends in: a value, an exception, a failed assertion, undefined
-- behaviour such as a shift by the width, or (of a model only) fuel that ran out.
use mathlib.Core.Path.{◌≡◌, refl, ap}
use mathlib.Core.Logic.{◌⊎◌, inl, inr}
use mathlib.Core.Option.{Option, none, some}
use mathlib.Core.Bool.{Bool, true, false}

pub data Fault : Type 0 where
  out_of_range : Fault
  assertion : Fault
  null_deref : Fault
  out_of_fuel : Fault
  undefined : Fault

pub data Result {ℓ} (A : Type ℓ) : Type ℓ where
  ok : A → Result A
  fail : Fault → Result A

infixl 5 ◌>>=◌
infixl 5 ◌>>◌
-- The first fault ends the call.
abbrev pub ◌>>=◌ {κ ℓ} : {B : Type κ} {A : Type ℓ} (r : Result B) (next : B → Result A) → Result A
fail fault >>= next = fail fault
ok value >>= next = next value

abbrev pub ◌>>◌ {κ ℓ} : {B : Type κ} {A : Type ℓ} (r : Result B) (rest : Result A) → Result A
r >> rest = r >>= (λ value. rest)

abbrev pub or_fail {ℓ} : {A : Type ℓ} → Option A → Fault → Result A
or_fail none e = fail e
or_fail (some a) e = ok a

-- VERSION04_ASSERT
abbrev pub check : Bool → Result (Unit {0})
check true = ok tt
check false = fail assertion

pub Result-cases {ℓ} :
    {A : Type ℓ} (r : Result A) → ((a : A) × (r ≡ ok a)) ⊎ ((e : Fault) × (r ≡ fail e))
Result-cases (ok a) = inl (a, refl)
Result-cases (fail e) = inr (e, refl)

-- A chain that ends well had a first call that did.
pub >>=-eq-ok {κ ℓ} :
    {B : Type κ} {A : Type ℓ} (r : Result B) (next : B → Result A) {a : A}
    → (r >>= next) ≡ ok a
    → (value : B) × (r ≡ ok value) × (next value ≡ ok a)
>>=-eq-ok (fail fault) next h = cc
>>=-eq-ok (ok value) next h = (value, refl, h)

pub ok_eq {ℓ} : {A : Type ℓ} {a b : A} → ok a ≡ ok b → a ≡ b
ok_eq {a = a} h = ap (λ r. elim r [ ok x ↦ x | fail e ↦ a ]) h
