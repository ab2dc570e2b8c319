-- ===== src/Common/Sort.antt =====
-- `sort.SliceStable` as an insertion sort, and sets of strings in order.
use Prim.Native.Nat.{suc}
use Prim.Native.String.{String}
use mathlib.Core.Path.{◌≡◌, refl, ap, ◌∙◌}
use mathlib.Core.Bool.{Bool}
use mathlib.Core.List.{List, [], ◌∷◌}
use native.Mathlib.Omega.{arith}
use text.Mathlib.Text.{◌==◌ as str_eq}
use glassroot.Common.Tests.{if◌then◌else◌}
use glassroot.Common.Lists.{count, length}
use glassroot.Common.Text.{string_lt}

module _ {ℓ} {A : Type ℓ} (less : A → A → Bool) where
  -- Before the first member that is not less, so that equal members keep their order.
  unfoldable pub insert_by : A → List A → List A
  insert_by x [] = x ∷ []
  insert_by x (y ∷ ys) = let rest = insert_by x ys in if less y x then y ∷ rest else x ∷ y ∷ ys

  unfoldable pub sort : List A → List A
  unfolding insert_by
  sort [] = []
  sort (x ∷ xs) = insert_by x (sort xs)

  count-insert_by :
      (p : A → Bool) (x : A) (ys : List A)
      → count p (insert_by x ys) ≡ (if p x then suc (count p ys) else count p ys)
  unfolding insert_by
  count-insert_by p x [] = refl
  count-insert_by p x (y ∷ ys) = ground (arith, count-insert_by p x ys)

  -- Sorting changes no count.
  pub count-sort : (p : A → Bool) (xs : List A) → count p (sort xs) ≡ count p xs
  unfolding sort
  count-sort p [] = refl
  count-sort p (x ∷ xs) = count-insert_by p x (sort xs) ∙ ground (arith, count-sort p xs)

  length-insert_by : (x : A) (ys : List A) → length (insert_by x ys) ≡ suc (length ys)
  unfolding insert_by
  length-insert_by x [] = refl
  length-insert_by x (y ∷ ys) = ground (arith, length-insert_by x ys)

  pub length-sort : (xs : List A) → length (sort xs) ≡ length xs
  unfolding sort
  length-sort [] = refl
  length-sort (x ∷ xs) = length-insert_by x (sort xs) ∙ ap suc (length-sort xs)

insert_string : String → List String → List String
insert_string v [] = v ∷ []
insert_string v (x ∷ xs) =
    let rest = insert_string v xs in
    if str_eq v x then x ∷ xs else if string_lt x v then x ∷ rest else v ∷ x ∷ xs

-- The keys of a map, sorted.
unfoldable pub sorted_unique : List String → List String
unfolding insert_string
sorted_unique [] = []
sorted_unique (x ∷ xs) = insert_string x (sorted_unique xs)
