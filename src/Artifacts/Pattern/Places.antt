-- ===== src/Artifacts/Pattern/Places.antt =====
-- The places of the table of answers that a test leaves out, counted.
use glassroot.Common.{
  ℕ, zero, suc, ◌+◌, ◌*◌, ◌≤◌, ◌<◌, ◌≡◌, refl, sym, ap, subst, ◌∙◌, Bool, false, ◌&&◌, ◌||◌, ◌==◌,
  ==_iff, Bool-cases, inl, inr, arith, if◌then◌else◌,
}

-- The places of a row, and of all rows, that a test leaves out.
pub column : (ℕ → ℕ → Bool) → ℕ → ℕ → ℕ
column taken i zero = 0
column taken i (suc n) = (if taken i n then 0 else 1) + column taken i n

pub table : (ℕ → ℕ → Bool) → ℕ → ℕ → ℕ
unfolding column
table taken zero n = 0
table taken (suc m) n = column taken m n + table taken m n

abbrev pub here : ℕ → ℕ → ℕ → ℕ → Bool
here i j a b = a == i && b == j

abbrev pub with_place : ℕ → ℕ → (ℕ → ℕ → Bool) → ℕ → ℕ → Bool
with_place i j taken a b = here i j a b || taken a b

column_other :
    (taken : ℕ → ℕ → Bool) (i j a n : ℕ)
    → (a == i) ≡ false
    → column (with_place i j taken) a n ≡ column taken a n
unfolding column
column_other taken i j a zero h = refl
column_other taken i j a (suc n) h = ground (arith, h, column_other taken i j a n)

column_past :
    (taken : ℕ → ℕ → Bool) (i j n : ℕ)
    → n ≤ j
    → column (with_place i j taken) i n ≡ column taken i n
unfolding column
column_past taken i j zero h = refl
column_past taken i j (suc n) h = ground (arith, column_past taken i j n)

column_taken :
    (taken : ℕ → ℕ → Bool) (i j n : ℕ)
    → j < n
    → taken i j ≡ false
    → suc (column (with_place i j taken) i n) ≡ column taken i n
unfolding column
column_taken taken i j zero h free = elim h [ ]
column_taken taken i j (suc n) h free = elim (Bool-cases (n == j)) [
  | inl last ↦
      let e : n ≡ j = (==_iff n j).0 last in
      let f : taken i n ≡ false = ap (taken i) e ∙ free in
      ground (arith, f, column_past taken i j n, e)
  | inr before ↦ ground (arith, before, column_taken taken i j n)
]

table_past :
    (taken : ℕ → ℕ → Bool) (i j m n : ℕ)
    → m ≤ i
    → table (with_place i j taken) m n ≡ table taken m n
unfolding table
table_past taken i j zero n h = refl
table_past taken i j (suc m) n h =
    omega (arith, column_other taken i j m n (ground arith), table_past taken i j m n (omega arith))

pub table_taken :
    (taken : ℕ → ℕ → Bool) (i j m n : ℕ)
    → i < m
    → j < n
    → taken i j ≡ false
    → suc (table (with_place i j taken) m n) ≡ table taken m n
unfolding table
table_taken taken i j zero n h k free = elim h [ ]
table_taken taken i j (suc m) n h k free = elim (Bool-cases (m == i)) [
  | inl last ↦
      let e : m ≡ i = (==_iff m i).0 last in
      subst
        (λ r.
          suc (column (with_place i j taken) r n + table (with_place i j taken) r n)
          ≡ column taken r n + table taken r n)
        (sym e)
        (omega (arith, column_taken taken i j n k free, table_past taken i j i n (omega arith)))
  | inr before ↦
      omega
        (arith, column_other taken i j m n before, table_taken taken i j m n (ground arith) k free)
]

column-ext :
    (p q : ℕ → ℕ → Bool) (i n : ℕ) → ((a b : ℕ) → p a b ≡ q a b) → column p i n ≡ column q i n
unfolding column
column-ext p q i zero h = refl
column-ext p q i (suc n) h = ground (arith, h i n, column-ext p q i n h)

pub table-ext :
    (p q : ℕ → ℕ → Bool) (m n : ℕ) → ((a b : ℕ) → p a b ≡ q a b) → table p m n ≡ table q m n
unfolding table
table-ext p q zero n h = refl
table-ext p q (suc m) n h = omega (arith, column-ext p q m n h, table-ext p q m n h)

abbrev pub nothing : ℕ → ℕ → Bool
nothing a b = false

column_all : (i n : ℕ) → column nothing i n ≡ n
unfolding column
column_all i zero = refl
column_all i (suc n) = omega (arith, column_all i n)

pub table_all : (m n : ℕ) → table nothing m n ≡ m * n
unfolding table
table_all zero n = omega arith
table_all (suc m) n = grind (arith, column_all m n, table_all m n)
