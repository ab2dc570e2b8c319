-- ===== src/Common/Lists.antt =====
-- Lists measured by native numbers, Boolean searches, and predicates over all members.
use Prim.Native.Nat.{ℕ, zero, suc, ◌+◌, ◌≤◌}
use Prim.Native.String.{String}
use mathlib.Core.Path.{◌≡◌, refl, ap}
use mathlib.Core.Logic.{inl, inr}
use mathlib.Core.Bool.{Bool, true, false, ◌||◌, ◌&&◌}
use mathlib.Core.Option.{Option, none, some}
use mathlib.Core.List.{List, [], ◌∷◌, ◌++◌, map}
use native.Mathlib.Omega.{arith}
use text.Mathlib.Text.{◌==◌ as str_eq}
use glassroot.Common.Tests.{if◌then◌else◌, Bool-cases}

module _ {ℓ} {A : Type ℓ} where
  abbrev pub length : List A → ℕ
  length [] = 0
  length (x ∷ xs) = suc (length xs)

  pub length-append : (xs ys : List A) → length (xs ++ ys) ≡ length xs + length ys
  length-append [] ys = omega arith
  length-append (x ∷ xs) ys = omega (arith, length-append xs ys)

  -- `for _, x := range xs { if test(x) { return true } }; return false`
  abbrev pub any : (A → Bool) → List A → Bool
  any test [] = false
  any test (x ∷ xs) = test x || any test xs

  abbrev pub all : (A → Bool) → List A → Bool
  all test [] = true
  all test (x ∷ xs) = test x && all test xs

  abbrev pub drop : ℕ → List A → List A
  drop zero xs = xs
  drop (suc n) [] = []
  drop (suc n) (x ∷ xs) = drop n xs

  abbrev pub take : ℕ → List A → List A
  take zero xs = []
  take (suc n) [] = []
  take (suc n) (x ∷ xs) = x ∷ take n xs

  -- The rows that a WHERE clause selects, in their order, and their number.
  abbrev pub select : (A → Bool) → List A → List A
  select test [] = []
  select test (x ∷ xs) = let rest = select test xs in if test x then x ∷ rest else rest

  abbrev pub count : (A → Bool) → List A → ℕ
  count test [] = 0
  count test (x ∷ xs) = let rest = count test xs in if test x then suc rest else rest

  -- The first row that a WHERE clause selects.
  abbrev pub find : (A → Bool) → List A → Option A
  find test [] = none
  find test (x ∷ xs) = let rest = find test xs in if test x then some x else rest

  abbrev pub All {κ} : (A → Type κ) → List A → Type κ
  All P [] = Unit
  All P (x ∷ xs) = P x × All P xs

  pub length-take_le : (n : ℕ) (xs : List A) → length (take n xs) ≤ n
  length-take_le zero xs = omega arith
  length-take_le (suc n) [] = omega arith
  length-take_le (suc n) (x ∷ xs) = omega (arith, length-take_le n xs)

  -- No two members are the same by a test.
  abbrev pub Unique : (A → A → Bool) → List A → Type 0
  Unique same [] = Unit
  Unique same (x ∷ xs) = (any (same x) xs ≡ false) × Unique same xs

  pub any-append :
      (test : A → Bool) (xs ys : List A) → any test (xs ++ ys) ≡ (any test xs || any test ys)
  any-append test [] ys = refl
  any-append test (x ∷ xs) ys = ground (arith, any-append test xs ys)

  pub count-append :
      (test : A → Bool) (xs ys : List A) → count test (xs ++ ys) ≡ count test xs + count test ys
  count-append test [] ys = omega arith
  count-append test (x ∷ xs) ys = ground (arith, count-append test xs ys)

  pub any-map :
      (test : A → Bool) (f : A → A) (xs : List A)
      → ((x : A) → test (f x) ≡ test x)
      → any test (map f xs) ≡ any test xs
  any-map test f [] h = refl
  any-map test f (x ∷ xs) h = ground (arith, any-map test f xs h, h x)

  pub find-append :
      (test : A → Bool) (xs ys : List A)
      → find test (xs ++ ys) ≡ (if any test xs then find test xs else find test ys)
  find-append test [] ys = refl
  find-append test (x ∷ xs) ys = ground (arith, find-append test xs ys)

  -- A weaker test finds something wherever a stronger one does.
  pub any_mono :
      (p q : A → Bool) (xs : List A)
      → ((x : A) → p x ≡ true → q x ≡ true)
      → any q xs ≡ false
      → any p xs ≡ false
  any_mono p q [] h e = refl
  any_mono p q (x ∷ xs) h e = ground (arith, any_mono p q xs h, h x)

  pub any-find :
      (test : A → Bool) (xs : List A) (x : A) → find test xs ≡ some x → any test xs ≡ true
  any-find test [] x h = cc
  any-find test (y ∷ ys) x h = ground (arith, any-find test ys x)

  pub find-none : (test : A → Bool) (xs : List A) → any test xs ≡ false → find test xs ≡ none
  find-none test [] h = refl
  find-none test (x ∷ xs) h = ground (arith, find-none test xs)

  pub find-some :
      (test : A → Bool) (xs : List A)
      → any test xs ≡ true
      → (x : A) × (find test xs ≡ some x) × (test x ≡ true)
  find-some test [] h = cc
  find-some test (x ∷ xs) h = elim (Bool-cases (test x)) [
    | inl t ↦ (x, rw t, t)
    | inr t ↦ let (y, found, ty) = find-some test xs (ground arith) in (y, ground arith, ty)
  ]

  pub find-test : (test : A → Bool) (xs : List A) (x : A) → find test xs ≡ some x → test x ≡ true
  find-test test [] x h = cc
  find-test test (y ∷ ys) x h = ground (arith, find-test test ys x)

  pub Unique-append_one :
      (same : A → A → Bool) (xs : List A) (z : A)
      → Unique same xs
      → any (λ x. same x z) xs ≡ false
      → Unique same (xs ++ z ∷ [])
  Unique-append_one same [] z u h = (refl, tt)
  Unique-append_one same (x ∷ xs) z u h =
      (rw any-append (ground arith), Unique-append_one same xs z u.1 (ground arith))

  pub Unique-map :
      (same : A → A → Bool) (f : A → A) (xs : List A)
      → ((x y : A) → same (f x) (f y) ≡ same x y)
      → Unique same xs
      → Unique same (map f xs)
  Unique-map same f [] h u = tt
  Unique-map same f (x ∷ xs) h u = (any-both x xs u.0, Unique-map same f xs h u.1)
    where
      any-both :
          (x : A) (ys : List A) → any (same x) ys ≡ false → any (same (f x)) (map f ys) ≡ false
      any-both x [] e = refl
      any-both x (y ∷ ys) e = ground (arith, any-both x ys, h x y)

module _ {ℓ κ} {A : Type ℓ} (P : A → Type κ) where
  pub All-append : (xs ys : List A) → All P xs → All P ys → All P (xs ++ ys)
  All-append [] ys hx hy = hy
  All-append (x ∷ xs) ys hx hy = (hx.0, All-append xs ys hx.1 hy)

pub length-map {ℓ κ} :
    {A : Type ℓ} {B : Type κ} (f : A → B) (xs : List A) → length (map f xs) ≡ length xs
length-map f [] = refl
length-map f (x ∷ xs) = ap suc (length-map f xs)

abbrev pub contains_string : String → List String → Bool
contains_string v xs = any (λ x. str_eq x v) xs
