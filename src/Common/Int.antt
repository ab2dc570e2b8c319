-- ===== src/Common/Int.antt =====
-- Signed integers over the native numbers, under the names of the library: what the code's int64
-- identifiers need, which are only tested for being positive and for equality.
use Prim.Native.Nat.{ℕ, zero, suc, ◌-◌, ◌^◌}
use mathlib.Core.Path.{◌≡◌}
use mathlib.Core.Bool.{Bool, true, false}
use native.Mathlib.Omega.{arith}
use glassroot.Common.Tests.{◌==◌, ltb, if◌then◌else◌}

-- `negsuc n` is -(n + 1).
pub data ℤ : Type 0 where
  pos : ℕ → ℤ
  negsuc : ℕ → ℤ

-- `x <= 0`
abbrev pub nonpositive : ℤ → Bool
nonpositive (pos zero) = true
nonpositive (pos (suc n)) = false
nonpositive (negsuc n) = true

abbrev pub eq_ℤ : ℤ → ℤ → Bool
eq_ℤ (pos a) (pos b) = a == b
eq_ℤ (negsuc a) (negsuc b) = a == b
eq_ℤ _ _ = false

abbrev pub max_int64 : ℕ
max_int64 = 2 ^ 63 - 1

-- `x++` on an int64, which wraps around.
abbrev pub increment64 : ℤ → ℤ
increment64 (pos n) = if n == max_int64 then negsuc n else pos (suc n)
increment64 (negsuc zero) = pos 0
increment64 (negsuc (suc n)) = negsuc n

abbrev pub less_ℤ : ℤ → ℤ → Bool
less_ℤ (pos a) (pos b) = ltb a b
less_ℤ (pos a) (negsuc b) = false
less_ℤ (negsuc a) (pos b) = true
less_ℤ (negsuc a) (negsuc b) = ltb b a

pub eq_ℤ→eq : (a b : ℤ) → eq_ℤ a b ≡ true → a ≡ b
eq_ℤ→eq a b h = ground arith

pub eq_ℤ_refl : (a : ℤ) → eq_ℤ a a ≡ true
eq_ℤ_refl a = ground arith

pub less_ℤ-increment64 : (a : ℤ) → less_ℤ a (pos max_int64) ≡ true → less_ℤ a (increment64 a) ≡ true
less_ℤ-increment64 (pos n) h = ground arith
less_ℤ-increment64 (negsuc zero) h = ground arith
less_ℤ-increment64 (negsuc (suc n)) h = ground arith

pub less_ℤ_irrefl : (a : ℤ) → less_ℤ a a ≡ false
less_ℤ_irrefl a = ground arith
