-- ===== src/Common/Clock.antt =====
-- `time.Time`: the nanoseconds since Go's zero time, and whether the location is UTC. A time is
-- stored as RFC 3339 text, which keeps whole seconds; the text is read here as its seconds, and two
-- texts compare as their seconds do (years up to 9999).
use Prim.Native.Nat.{ℕ, zero, suc, ◌+◌, ◌*◌, ◌/◌, ◌%◌, ◌^◌, ◌≤◌, ◌<◌}
use mathlib.Core.Bool.{Bool, true, false, not, ◌&&◌}
use mathlib.Core.List.{List, [], ◌∷◌}
use mathlib.Core.Path.{◌≡◌}
use native.Mathlib.Omega.{arith}
use glassroot.Common.Tests.{ltb, ◌==◌, if◌then◌else◌}

pub record Time : Type 0 where
  pub nanos : ℕ
  pub utc : Bool

abbrev pub nanos_per_second : ℕ
nanos_per_second = 1_000_000_000

abbrev pub is_zero : Time → Bool
is_zero t = t.nanos == 0

abbrev pub valid_time : Time → Bool
valid_time t = not (is_zero t) && t.utc

-- `t.Add(d).UTC()`
abbrev pub add_nanos : Time → ℕ → Time
add_nanos t d = record { nanos = t.nanos + d; utc = true }

-- `t.UTC().Format(time.RFC3339)`
abbrev pub format_time : Time → ℕ
format_time t = t.nanos / nanos_per_second

abbrev pub parse_time : ℕ → Time
parse_time s = record { nanos = s * nanos_per_second; utc = true }

-- What is stored is not later than the time, by less than a second.
pub format_le : (t : Time) → (parse_time (format_time t)).nanos ≤ t.nanos
format_le t = omega arith

pub format_lt : (t : Time) → t.nanos < (parse_time (format_time t)).nanos + nanos_per_second
format_lt t = omega arith

-- The digits of a fraction of a second, from the first, without the zeros at the end:
-- `fraction_digits k n` writes `n` in `k` digits.
unfoldable pub fraction_digits : ℕ → ℕ → List ℕ
fraction_digits zero n = []
fraction_digits (suc k) n =
    let unit = 10 ^ k in
    let rest = fraction_digits k (n % unit) in if n == 0 then [] else (b'0' + n / unit) ∷ rest

abbrev ends_utc : List ℕ → List ℕ
ends_utc [] = b'Z' ∷ []
ends_utc (c ∷ cs) = c ∷ ends_utc cs

-- What stands behind the seconds in RFC 3339 text with nanoseconds: `Z`, or `.5Z`.
unfoldable pub fraction_text : ℕ → List ℕ
unfolding fraction_digits
fraction_text n = if n == 0 then b'Z' ∷ [] else b'.' ∷ ends_utc (fraction_digits 9 n)

-- The order of texts, as SQLite compares them.
abbrev pub text_le : List ℕ → List ℕ → Bool
text_le [] ys = true
text_le (x ∷ xs) [] = false
text_le (x ∷ xs) (y ∷ ys) =
    let rest = text_le xs ys in if ltb x y then true else if x == y then rest else false

pub record Stamp : Type 0 where
  pub seconds : ℕ
  pub fraction : List ℕ

-- `t.UTC().Format(time.RFC3339Nano)`: the text up to the seconds, and the rest of it.
unfoldable pub format_nano : Time → Stamp
unfolding fraction_text
format_nano t = record {
  seconds = t.nanos / nanos_per_second;
  fraction = fraction_text (t.nanos % nanos_per_second);
}

-- The seconds stand first in the text, in a fixed number of digits.
unfoldable pub stamp_le : Stamp → Stamp → Bool
stamp_le a b =
    if ltb a.seconds b.seconds
    then true
    else if a.seconds == b.seconds
    then text_le a.fraction b.fraction
    else false

-- Text order is at most a second away from the order of the times.
pub stamp_le_lt :
    (a b : Time)
    → stamp_le (format_nano a) (format_nano b) ≡ true
    → a.nanos < b.nanos + nanos_per_second
unfolding stamp_le format_nano
stamp_le_lt a b h = ground arith

-- A time in a later second has the greater text.
pub stamp_le_of_second :
    (a b : Time) → format_time a < format_time b → stamp_le (format_nano a) (format_nano b) ≡ true
unfolding stamp_le format_nano
stamp_le_of_second a b h = ground arith

-- A fraction of a second sorts before the whole second that it follows: `.` comes before `Z`.
pub stamp_le-whole_second :
    (s f : ℕ)
    → 0 < f
    → f < nanos_per_second
    → stamp_le
        (format_nano (record { nanos = s * nanos_per_second + f; utc = true }))
        (format_nano (record { nanos = s * nanos_per_second; utc = true }))
      ≡ true
unfolding stamp_le format_nano
stamp_le-whole_second s f h k = ground arith

-- And a whole second sorts behind every later time within it.
pub stamp_le-after_whole_second :
    (s f : ℕ)
    → 0 < f
    → f < nanos_per_second
    → stamp_le
        (format_nano (record { nanos = s * nanos_per_second; utc = true }))
        (format_nano (record { nanos = s * nanos_per_second + f; utc = true }))
      ≡ false
unfolding stamp_le format_nano
stamp_le-after_whole_second s f h k = ground arith
