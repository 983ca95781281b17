-- ===== src/Versions/Downgrade.antt =====
-- The loop of `translate_api_version` ends on DOWNGRADE_MAP (nmoscommon/utils.py).
use nmos_common.Common.{
  ℕ, suc, String, ◌≡◌, ◌≢◌, refl, sym, subst, false, Option, none, some, List, ◌==◌, eq_iff, codes,
  arith, Bool-cases, inl, inr, if◌then◌else◌,
}
use nmos_common.Common.Dict.{Dict, get}
use nmos_common.Common.Json.{Json, null, bool, int, str, list, dict, Fields}
use nmos_common.Versions.{downgrade_map, Comparison, api_ver_compare, is_newer, less}
use nmos_common.Versions.Translate.{
  Reached, unfinished, broken, reached, Translated, raised, refused, endless, one_down, downgrade,
  permit, finish, from_version, fuel, translate_api_version, version_list, previous, before, last,
  insert, sorted, remove_keys_from_resource, rstrip_s,
}

module _ (rtype : List ℕ) (target_ver : String) where
  abbrev go : ℕ → Fields → String → Reached
  go = downgrade downgrade_map rtype target_ver

  -- a round at a version that is not in the map is the last one
  last_round :
      (n : ℕ) (obj : Fields) (v : String)
      → get v downgrade_map ≡ none
      → go (suc n) obj v ≢ unfinished
  unfolding downgrade one_down
  last_round n obj v h = ground (arith)

  -- a round at a version leads to one from which the loop ends
  round :
      (n : ℕ) (obj : Fields) (v w : String) (types : Dict (List String))
      → get v downgrade_map ≡ some types
      → previous v (version_list downgrade_map) ≡ some w
      → ((obj' : Fields) → go n obj' w ≢ unfinished)
      → go (suc n) obj v ≢ unfinished
  unfolding downgrade one_down
  round n obj v w types found prev h = ground (arith, h (remove_keys_from_resource obj rtype types))

  from_10 : (n : ℕ) (obj : Fields) → go (suc n) obj "v1.0" ≢ unfinished
  unfolding get
  from_10 n obj = last_round n obj "v1.0" refl

  from_11 : (n : ℕ) (obj : Fields) → go (suc (suc n)) obj "v1.1" ≢ unfinished
  unfolding get previous version_list before last sorted insert less
  from_11 n obj = round (suc n) obj "v1.1" "v1.0" _ refl refl (from_10 n)

  from_12 : (n : ℕ) (obj : Fields) → go (suc (suc (suc n))) obj "v1.2" ≢ unfinished
  unfolding get previous version_list before last sorted insert less
  from_12 n obj = round (suc (suc n)) obj "v1.2" "v1.1" _ refl refl (from_11 n)

  from_13 : (n : ℕ) (obj : Fields) → go (suc (suc (suc (suc n)))) obj "v1.3" ≢ unfinished
  unfolding get previous version_list before last sorted insert less
  from_13 n obj = round (suc (suc (suc n))) obj "v1.3" "v1.2" _ refl refl (from_12 n)

  unknown :
      (v : String)
      → (v == "v1.1") ≡ false
      → (v == "v1.2") ≡ false
      → (v == "v1.3") ≡ false
      → get v downgrade_map ≡ none
  unfolding get
  unknown v a b c = ground (
    arith,
    eq_iff v "v1.1",
    eq_iff v "v1.2",
    eq_iff v "v1.3",
    eq_iff "v1.1" v,
    eq_iff "v1.2" v,
    eq_iff "v1.3" v,
  )

  from_any : (obj : Fields) (v : String) → go 5 obj v ≢ unfinished
  from_any obj v = elim (Bool-cases (v == "v1.1")) [
    | inl a ↦ subst (λ x. go 5 obj x ≢ unfinished) (sym ((eq_iff v "v1.1").0 a)) (from_11 3 obj)
    | inr a ↦ elim (Bool-cases (v == "v1.2")) [
      | inl b ↦ subst (λ x. go 5 obj x ≢ unfinished) (sym ((eq_iff v "v1.2").0 b)) (from_12 2 obj)
      | inr b ↦ elim (Bool-cases (v == "v1.3")) [
        | inl c ↦ subst (λ x. go 5 obj x ≢ unfinished) (sym ((eq_iff v "v1.3").0 c)) (from_13 1 obj)
        | inr c ↦ last_round 4 obj v (unknown v a b c)
      ]
    ]
  ]

  five : fuel downgrade_map rtype target_ver ≡ 5
  unfolding version_list sorted insert less
  five = refl

  permit-ends :
      (d : Option String) (removed : List String) (obj : Fields) (v : String)
      → permit downgrade_map rtype target_ver d removed obj v ≢ endless
  unfolding permit
  permit-ends d removed obj v = ground (arith)

  finish-ends :
      (d : Option String) (removed : List String) (r : Reached)
      → r ≢ unfinished
      → finish downgrade_map rtype target_ver d removed r ≢ endless
  unfolding finish
  finish-ends d removed broken h = cc
  finish-ends d removed unfinished h = absurd (h refl)
  finish-ends d removed (reached obj v) h = permit-ends d removed obj v

  from_version-ends :
      (d : Option String) (removed : List String) (obj : Fields) (j : Json)
      → from_version downgrade_map rtype target_ver d removed obj j ≢ endless
  unfolding from_version
  from_version-ends d removed obj null = cc
  from_version-ends d removed obj (bool b) = cc
  from_version-ends d removed obj (int n) = cc
  from_version-ends d removed obj (list items) = cc
  from_version-ends d removed obj (dict fields) = cc
  from_version-ends d removed obj (str v) =
      finish-ends d removed _ (subst (λ n. go n obj v ≢ unfinished) (sym five) (from_any obj v))

outcome-ends :
    (o : Option Comparison) (out : Translated)
    → out ≢ endless
    → elim o [ none ↦ raised | some c ↦ (if is_newer c then refused else out) ] ≢ endless
outcome-ends none out h = cc
outcome-ends (some c) out h = ground (arith, h)

-- With DOWNGRADE_MAP the loop always ends, whatever the object, its version and the target are:
-- the fuel of the model, one round more than there are versions, is enough.
pub translate_api_version-ends :
    (obj : Fields) (resource_type target_ver : String) (downgrade_ver : Option String)
    (removed : List String)
    → translate_api_version downgrade_map obj resource_type target_ver downgrade_ver removed
      ≢ endless
unfolding translate_api_version
translate_api_version-ends obj resource_type target_ver downgrade_ver removed =
    outcome-ends (api_ver_compare target_ver (last "" (version_list downgrade_map))) _
      (from_version-ends (rstrip_s (codes resource_type)) target_ver downgrade_ver removed obj _)
