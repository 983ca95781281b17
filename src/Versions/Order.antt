-- ===== src/Versions/Order.antt =====
-- The comparison of two versions (nmoscommon/utils.py, `api_ver_compare`).
use nmos_common.Common.{ℕ, String, ◌≡◌, refl, true, false, Option, none, some, List, [], ◌∷◌, arith}
use nmos_common.Versions.{
  less, parts, Comparison, older_major, newer_major, older_minor, newer_minor, same, compare_minor,
  compare_parts, api_ver_compare,
}

abbrev pub flip : Option Comparison → Option Comparison
flip none = none
flip (some older_major) = some newer_major
flip (some newer_major) = some older_major
flip (some older_minor) = some newer_minor
flip (some newer_minor) = some older_minor
flip (some same) = some same

less_asym : (s t : List ℕ) → less s t ≡ true → less t s ≡ false
unfolding less
less_asym [] [] h = refl
less_asym [] (b ∷ t) h = refl
less_asym (a ∷ s) [] h = cc
less_asym (a ∷ s) (b ∷ t) h = ground (arith, less_asym s t)

compare_minor-flip : (s t : List (List ℕ)) → compare_minor t s ≡ flip (compare_minor s t)
unfolding compare_minor
compare_minor-flip [] [] = refl
compare_minor-flip [] (b ∷ t) = refl
compare_minor-flip (a ∷ s) [] = refl
compare_minor-flip (a ∷ s) (b ∷ t) = ground (arith, less_asym a b, less_asym b a)

compare_parts-flip : (s t : List (List ℕ)) → compare_parts t s ≡ flip (compare_parts s t)
unfolding compare_parts
compare_parts-flip [] [] = refl
compare_parts-flip [] (b ∷ t) = refl
compare_parts-flip (a ∷ s) [] = refl
compare_parts-flip (a ∷ s) (b ∷ t) =
    ground (arith, less_asym a b, less_asym b a, compare_minor-flip s t)

-- Exchanging the versions exchanges older and newer, and keeps the part that decides; one order
-- raises exactly if the other does.
pub api_ver_compare-flip :
    (first second : String) → api_ver_compare second first ≡ flip (api_ver_compare first second)
unfolding api_ver_compare
api_ver_compare-flip first second = compare_parts-flip (parts first) (parts second)
