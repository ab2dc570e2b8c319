-- ===== src/Policy/Application/Distinct.antt =====
-- The binding lets only findings through that are distinct and not yet waived.
use glassroot.Common.{
  ◌≡◌, refl, String, false, ◌||◌, List, [], ◌∷◌, map, any, str_eq, eq_iff, Unique, All, ok,
  >>=-eq-ok, reject_if, arith,
}
use glassroot.Model.{Finding}
use glassroot.Policy.Governance.{invalid_original_finding, duplicate_finding_id}
use glassroot.Policy.Application.{check_original, is_waived}

abbrev Fresh : List String → List Finding → Type 0
Fresh seen fs = All (λ (f : Finding). any (str_eq f.id) seen ≡ false) fs

str_eq_sym : (a b : String) → str_eq a b ≡ false → str_eq b a ≡ false
str_eq_sym a b h = ground (arith, eq_iff a b, eq_iff b a, h)

Fresh-apart :
    (x : String) (seen : List String) (fs : List Finding)
    → Fresh (x ∷ seen) fs
    → (any (str_eq x) (map (λ (f : Finding). f.id) fs) ≡ false) × Fresh seen fs
Fresh-apart x seen [] h = (refl, tt)
Fresh-apart x seen (f ∷ fs) h =
    let (apart, fresh) = Fresh-apart x seen fs h.1 in
    let other : str_eq x f.id ≡ false = str_eq_sym f.id x (ground (arith, h.0)) in
    (ground (arith, other, apart), (ground (arith, h.0), fresh))

check_original-Fresh :
    (seen : List String) (fs : List Finding)
    → check_original seen fs ≡ ok tt
    → Fresh seen fs × Unique str_eq (map (λ (f : Finding). f.id) fs)
unfolding check_original
check_original-Fresh seen [] h = (tt, tt)
check_original-Fresh seen (f ∷ fs) h =
    let (_, _, h₁) =
      >>=-eq-ok
        (reject_if (str_eq f.id "" || str_eq f.rule_id "" || f.waived || is_waived f.disposition)
          invalid_original_finding)
        _ h in
    let (_, new, h₂) = >>=-eq-ok (reject_if (any (str_eq f.id) seen) duplicate_finding_id) _ h₁ in
    let (fresh, distinct) = check_original-Fresh (f.id ∷ seen) fs h₂ in
    let (apart, later) = Fresh-apart f.id seen fs fresh in
    ((ground (arith, new), later), (apart, distinct))

-- The findings that pass the check have different ids.
pub check_original-Unique :
    (fs : List Finding)
    → check_original [] fs ≡ ok tt
    → Unique str_eq (map (λ (f : Finding). f.id) fs)
check_original-Unique fs h = (check_original-Fresh [] fs h).1
