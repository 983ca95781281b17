-- ===== src/Rql/Dates.antt =====
-- The format that a partial date is read by (nmoscommon/rql/dateutil/util.py), on code points.
use nmos_common.Common.{
  ℕ, ◌≡◌, refl, ap, Bool, true, false, Option, none, some, List, [], ◌∷◌, ◌++◌, codes, length,
  get_elem?, eqb, ltb, if_both, if◌then◌else◌,
}

abbrev pub Text : Type 0
Text = List ℕ

-- `%Y-%m-%dT%H:%M:%S.%fZ`
abbrev pub iso_format : Text
iso_format = codes "%Y-%m-%dT%H:%M:%S.%fZ"

abbrev after_prefix : Text → Text → Option Text
after_prefix [] x = some x
after_prefix (c ∷ sep) [] = none
after_prefix (c ∷ sep) (d ∷ x) = let rest = after_prefix sep x in if eqb c d then rest else none

abbrev pub is_empty {ℓ} : {A : Type ℓ} → List A → Bool
is_empty [] = true
is_empty (_ ∷ _) = false

-- `split_in_two`: at the first place where the separator stands
unfoldable pub split_in_two : Text → Text → Text × Text
split_in_two [] sep = ([], [])
split_in_two (c ∷ x) sep =
    let (before, after) = split_in_two x sep in
    elim (after_prefix sep (c ∷ x)) [ some rest ↦ ([], rest) | none ↦ (c ∷ before, after) ]

-- what follows the first separator, if that is something
abbrev pub longer : Text → Text → Text × List Text → Text × List Text
longer start sep (next_match, found) =
    ((if is_empty next_match then start else start ++ sep ++ next_match), sep ∷ found)

unfoldable pub partial_match : Text → List Text → Text × List Text
partial_match x [] = ([], [])
partial_match x (sep ∷ seps) =
    let (start, rest) = split_in_two x sep in
    let more = longer start sep (partial_match rest seps) in
    if is_empty rest
    then (start, (if ltb (length start) (length x) then sep ∷ [] else []))
    else more

abbrev prepend : ℕ → List Text → List Text
prepend c [] = (c ∷ []) ∷ []
prepend c (t ∷ l) = (c ∷ t) ∷ l

-- `re.split(r'%.', format)`
unfoldable pub split_format : Text → List Text
split_format [] = [] ∷ []
split_format (c ∷ []) = (c ∷ []) ∷ []
split_format (c ∷ d ∷ f) =
    let after = split_format f in
    let rest = split_format (d ∷ f) in if eqb c b'%' then [] ∷ after else prepend c rest

abbrev solid : List Text → List Text
solid [] = []
solid (t ∷ l) = let rest = solid l in if is_empty t then rest else t ∷ rest

-- the separators that were found are all, or one more is looked for in the format
abbrev pub format_for : Text → List Text → List Text → Text
format_for format seps found = elim (get_elem? seps (length found)) [
  | none ↦ format
  | some sep ↦ (partial_match format (found ++ sep ∷ [])).0
]

-- `_partial_match_format`
unfoldable pub partial_match_format : Text → Text → Text
partial_match_format x format =
    let seps = solid (split_format format) in format_for format seps (partial_match x seps).1

-- the separators found are the first ones of those looked for
pub data IsPrefix : List Text → List Text → Type 0 where
  none_found : {l : List Text} → IsPrefix [] l
  one_found : {t : Text} {l m : List Text} → IsPrefix l m → IsPrefix (t ∷ l) (t ∷ m)

pub partial_match-IsPrefix : (x : Text) (seps : List Text) → IsPrefix (partial_match x seps).1 seps
unfolding partial_match
partial_match-IsPrefix x [] = none_found
partial_match-IsPrefix x (sep ∷ seps) =
    if_both {A = Text × List Text} (λ p. IsPrefix p.1 (sep ∷ seps))
      (is_empty (split_in_two x sep).1) _ _
      (if_both (λ l. IsPrefix l (sep ∷ seps)) (ltb (length (split_in_two x sep).0) (length x)) _ _
        (one_found none_found) none_found)
      (one_found (partial_match-IsPrefix (split_in_two x sep).1 seps))

-- so the format is kept exactly if all are found
pub IsPrefix-all : {l m : List Text} → IsPrefix l m → get_elem? m (length l) ≡ none → l ≡ m
IsPrefix-all {m = []} none_found h = refl
IsPrefix-all {m = t ∷ m} none_found h = cc
IsPrefix-all (one_found {t = t} p) h = ap (λ x. t ∷ x) (IsPrefix-all p h)
