-- ===== src/Mongo/Conjunction.antt =====
-- When `handle_type_f` merges the conditions of a conjunction (nmoscommon/rql/query/mongodb.py).
use nmos_common.Common.{
  suc, ◌≤◌, String, ◌≡◌, refl, ap, sym, append-nil, append_assoc, ◌∙◌, Bool, true, false, not, ◌||◌,
  some, List, [], ◌∷◌, ◌++◌, eq_iff, eqb, elem, length, arith, Bool-cases, inl, inr, if◌then◌else◌,
}
use nmos_common.Common.Json.{Json, dict, Fields, end, field}
use nmos_common.Mongo.{
  handle_type_f, not_merged, collapse, all_fields, all_names, distinct, put_field, put_fields,
  merge, single,
}

-- conditions on one field each
abbrev pub singles : List (String × Json) → List Json
singles [] = []
singles ((k, j) ∷ l) = single k j ∷ singles l

abbrev pub names : List (String × Json) → List String
names [] = []
names ((k, j) ∷ l) = k ∷ names l

-- all of them in one dict
abbrev pub together : List (String × Json) → Fields
together [] = end
together ((k, j) ∷ l) = field k j (together l)

abbrev pub repeats : List String → Bool
repeats [] = false
repeats (k ∷ ks) = elem k ks || repeats ks

abbrev fields_of : List (String × Json) → List Fields
fields_of [] = []
fields_of ((k, j) ∷ l) = field k j end ∷ fields_of l

all_fields-singles : (l : List (String × Json)) → all_fields (singles l) ≡ some (fields_of l)
unfolding all_fields
all_fields-singles [] = refl
all_fields-singles ((k, j) ∷ l) = rw (all_fields-singles l) refl

all_names-fields_of : (l : List (String × Json)) → all_names (fields_of l) ≡ names l
unfolding all_names
all_names-fields_of [] = refl
all_names-fields_of ((k, j) ∷ l) = ap (λ x. k ∷ x) (all_names-fields_of l)

length-singles : (l : List (String × Json)) → length (singles l) ≡ length (names l)
length-singles [] = refl
length-singles ((k, j) ∷ l) = ap suc (length-singles l)

distinct-le : (ks : List String) → length (distinct ks) ≤ length ks
unfolding distinct
distinct-le [] = omega arith
distinct-le (k ∷ ks) = ground (arith, distinct-le ks)

distinct-length : (ks : List String) → eqb (length (distinct ks)) (length ks) ≡ not (repeats ks)
unfolding distinct
distinct-length [] = refl
distinct-length (k ∷ ks) = ground (arith, distinct-length ks, distinct-le ks)

put_field-new :
    (k : String) (j : Json) (d : List (String × Json))
    → elem k (names d) ≡ false
    → put_field k j (together d) ≡ together (d ++ (k, j) ∷ [])
unfolding put_field
put_field-new k j [] h = refl
put_field-new k j ((i, x) ∷ d) h = ground (arith, put_field-new k j d, eq_iff k i, eq_iff i k)

elem_mid :
    (k : String) (j : Json) (d l : List (String × Json)) → elem k (names (d ++ (k, j) ∷ l)) ≡ true
elem_mid k j [] l = ground (arith, eq_iff k k)
elem_mid k j ((i, x) ∷ d) l = ground (arith, elem_mid k j d l)

elem_before :
    (k : String) (j : Json) (d l : List (String × Json))
    → repeats (names (d ++ (k, j) ∷ l)) ≡ false
    → elem k (names d) ≡ false
elem_before k j [] l h = refl
elem_before k j ((i, x) ∷ d) l h =
    ground (arith, eq_iff i k, eq_iff k i, elem_mid k j d l, elem_before k j d l)

merge-singles :
    (l d : List (String × Json))
    → repeats (names (d ++ l)) ≡ false
    → merge (fields_of l) (together d) ≡ together (d ++ l)
unfolding merge put_fields
merge-singles [] d h = ap together (sym (append-nil d))
merge-singles ((k, j) ∷ l) d h =
    let moved = append_assoc d ((k, j) ∷ []) l in
    ap (merge (fields_of l)) (put_field-new k j d (elem_before k j d l h))
    ∙ merge-singles l (d ++ (k, j) ∷ []) (ap (λ x. repeats (names x)) moved ∙ h)
    ∙ ap together moved

count_lem :
    (l : List (String × Json))
    → eqb (length (distinct (all_names (fields_of l)))) (length (singles l))
      ≡ not (repeats (names l))
count_lem l =
    ap (λ x. eqb (length (distinct x)) (length (singles l))) (all_names-fields_of l)
    ∙ ap (eqb (length (distinct (names l)))) (length-singles l)
    ∙ distinct-length (names l)

collapse-singles :
    (operator : String) (l : List (String × Json))
    → collapse operator (singles l) (some (fields_of l))
      ≡ (if repeats (names l) then not_merged operator (singles l) else dict (together l))
unfolding collapse
collapse-singles operator l = elim (Bool-cases (repeats (names l))) [
  | inl twice ↦ ground (arith, count_lem l)
  | inr once ↦ ground (arith, count_lem l, merge-singles l [] once)
]

-- A conjunction of conditions on one field each becomes one dict that holds all of them, in their
-- order, if no field is named twice; otherwise the conditions are kept in a list under the
-- operator, except that a lone condition stands for itself.
pub handle_type_f-singles :
    (operator : String) (l : List (String × Json))
    → handle_type_f operator (singles l)
      ≡ (if repeats (names l) then not_merged operator (singles l) else dict (together l))
unfolding handle_type_f
handle_type_f-singles operator l =
    ap (collapse operator (singles l)) (all_fields-singles l) ∙ collapse-singles operator l
