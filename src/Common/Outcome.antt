-- ===== src/Common/Outcome.antt =====
-- A Go function that returns a value and an error: the value, or the code of the error.
use mathlib.Core.Path.{◌≡◌, refl}
use mathlib.Core.Logic.{◌⊎◌, inl, inr}
use mathlib.Core.Bool.{Bool, true, false}

-- The first type is that of the codes.
pub data Result {ℓ} (E A : Type ℓ) : Type ℓ where
  err : E → Result E A
  ok : A → Result E A

-- `if bad { return errCode(...) }`
abbrev pub reject_if {ℓ} : {E : Type ℓ} → Bool → E → Result E (Unit {ℓ})
reject_if true code = err code
reject_if false code = ok tt

-- `x, err := call(); if err != nil { return err }`
infixl 5 ◌>>=◌
abbrev pub ◌>>=◌ {ℓ} : {E A B : Type ℓ} → Result E A → (A → Result E B) → Result E B
err code >>= rest = err code
ok x >>= rest = rest x

-- The same where the call returns an error alone.
infixl 5 ◌>>◌
abbrev pub ◌>>◌ {ℓ} : {E B : Type ℓ} → Result E (Unit {ℓ}) → Result E B → Result E B
call >> rest = call >>= λ _. rest

-- A bind succeeds only where both of its calls do.
pub >>=-eq-ok {ℓ} :
    {E A B : Type ℓ} (call : Result E A) (rest : A → Result E B) {y : B}
    → ◌≡◌ {A = Result E B} (call >>= rest) (ok y)
    → (x : A) × (call ≡ ok x) × (rest x ≡ ok y)
>>=-eq-ok (err code) rest bound = cc
>>=-eq-ok (ok x) rest bound = (x, refl, bound)

pub Result-cases {ℓ} :
    {E A : Type ℓ} (r : Result E A) → ((a : A) × (r ≡ ok a)) ⊎ ((e : E) × (r ≡ err e))
Result-cases (ok a) = inl (a, refl)
Result-cases (err e) = inr (e, refl)

-- A guard is passed only where its test fails.
pub reject_if-eq-ok {ℓ} :
    {E B : Type ℓ} (bad : Bool) (code : E) (rest : Unit {ℓ} → Result E B) {y : B}
    → ◌≡◌ {A = Result E B} (reject_if bad code >>= rest) (ok y)
    → (bad ≡ false) × (rest tt ≡ ok y)
reject_if-eq-ok true code rest h = cc
reject_if-eq-ok false code rest h = (refl, h)

pub ok_injective {ℓ} : {E A : Type ℓ} {a b : A} → ◌≡◌ {A = Result E A} (ok a) (ok b) → a ≡ b
ok_injective h = cc
