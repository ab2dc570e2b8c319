-- ===== src/Common/Text.antt =====
-- Text as the list of its code points, and the tests that the code makes on identifiers.
use Prim.Native.Nat.{ℕ, ◌+◌}
use Prim.Native.Char.{code, nul}
use Prim.Native.String.{String, compare, ◌++◌ as str_append}
use Prim.Native.Nat.{Ordering}
use mathlib.Core.Bool.{Bool, true, false, ◌||◌, ◌&&◌}
use mathlib.Core.List.{List, [], ◌∷◌}
use text.Mathlib.Text.{starts_with}
use glassroot.Common.Tests.{ltb, leb, ◌==◌, if◌then◌else◌}
use glassroot.Common.Lists.{any, all, drop}

abbrev pub codes : String → List ℕ
codes String.[] = []
codes (String.◌∷◌ c s) = code c ∷ codes s

-- The bytes of a code point in UTF-8, and Go's `len` of a string.
abbrev pub utf8_width : ℕ → ℕ
utf8_width c = if ltb c 0x80 then 1 else if ltb c 0x800 then 2 else if ltb c 0x10000 then 3 else 4

unfoldable pub byte_length : List ℕ → ℕ
byte_length [] = 0
byte_length (c ∷ cs) = utf8_width c + byte_length cs

-- `r >= '0' && r <= '9' || r >= 'a' && r <= 'f'`
abbrev pub is_lower_hex : ℕ → Bool
is_lower_hex c = leb b'0' c && leb c b'9' || leb b'a' c && leb c b'f'

-- `len(s) == 71 && strings.HasPrefix(s, "sha256:")` and lower hexadecimal digits behind it.
unfoldable pub valid_digest : String → Bool
unfolding byte_length
valid_digest s =
    byte_length (codes s) == 71 && starts_with s "sha256:" && all is_lower_hex (drop 7 (codes s))

abbrev pub is_control : ℕ → Bool
is_control c = ltb c 0x20 || c == 0x7f

unfoldable pub has_control : String → Bool
has_control s = any is_control (codes s)

-- `a < b` on Go strings: the order of their bytes.
abbrev pub string_lt : String → String → Bool
string_lt a b = elim (compare a b) [ Ordering.lt ↦ true | _ ↦ false ]

-- `strings.Join(xs, "\x00")`
unfoldable pub join_nul : List String → String
join_nul [] = ""
join_nul (x ∷ []) = x
join_nul (x ∷ y ∷ xs) = str_append x (String.◌∷◌ nul (join_nul (y ∷ xs)))
