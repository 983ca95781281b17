-- ===== src/Versions/Translate.antt =====
-- The translation of an object to a target version (nmoscommon/utils.py, `translate_api_version`).
use nmos_common.Common.{
  ℕ, zero, suc, String, true, false, Option, none, some, List, [], ◌∷◌, ◌==◌, codes, same_text, eqb,
  length, if◌then◌else◌, is_some,
}
use nmos_common.Common.Dict.{Dict, get, keys}
use nmos_common.Common.Json.{Json, str, Fields, end, field}
use nmos_common.Versions.{Map, less, api_ver_compare, is_older, is_newer, remove_fields}

-- `resource_type.rstrip('s')`
unfoldable pub rstrip_s : List ℕ → List ℕ
rstrip_s [] = []
rstrip_s (c ∷ s) = elim (rstrip_s s) [
  | [] ↦ (if eqb c b's' then [] else c ∷ [])
  | d ∷ t ↦ c ∷ d ∷ t
]

unfoldable pub insert : String → List String → List String
insert v [] = v ∷ []
insert v (w ∷ ws) =
    let rest = insert v ws in if less (codes v) (codes w) then v ∷ w ∷ ws else w ∷ rest

-- `sorted`
unfoldable pub sorted : List String → List String
sorted [] = []
sorted (v ∷ vs) = insert v (sorted vs)

-- `version_list`
unfoldable pub version_list : Map → List String
version_list translation_map = "v1.0" ∷ sorted (keys translation_map)

unfoldable pub last : String → List String → String
last v [] = v
last v (w ∷ ws) = last w ws

-- `version_list[version_list.index(v) - 1]`, where the index -1 is the last element's
unfoldable pub before : String → String → List String → Option String
before earlier v [] = none
before earlier v (w ∷ ws) = let later = before w v ws in if w == v then some earlier else later

unfoldable pub previous : String → List String → Option String
previous v versions = before (last "" versions) v versions

unfoldable pub get_field : String → Fields → Option Json
get_field k end = none
get_field k (field name j rest) =
    let later = get_field k rest in if name == k then some j else later

-- a write to a key that is there
unfoldable pub set_field : String → Json → Fields → Fields
set_field k j end = end
set_field k j (field name i rest) =
    let later = set_field k j rest in if name == k then field name j rest else field name i later

unfoldable pub pop_field : String → Fields → Fields
pop_field k end = end
pop_field k (field name j rest) =
    let later = pop_field k rest in if name == k then later else field name j later

unfoldable pub pop_all : List String → Fields → Fields
pop_all [] obj = obj
pop_all (k ∷ ks) obj = pop_all ks (pop_field k obj)

-- the keys that a version's entry takes from a resource of the type
unfoldable pub removals : List ℕ → Dict (List String) → List String
removals rtype [] = []
removals rtype ((type, ks) ∷ types) =
    let later = removals rtype types in if same_text (codes type) rtype then ks else later

unfoldable pub remove_keys : List String → Fields → Fields
remove_keys [] obj = obj
remove_keys (k ∷ ks) obj = remove_keys ks (remove_fields k obj)

abbrev pub remove_keys_from_resource : Fields → List ℕ → Dict (List String) → Fields
remove_keys_from_resource obj rtype types = remove_keys (removals rtype types) obj

-- how the loop ends: in an exception, out of fuel, or at a version
pub data Reached : Type 0 where
  broken unfinished : Reached
  reached : Fields → String → Reached

-- a KeyError of the map, or None of the function, or the object
pub data Translated : Type 0 where
  raised refused endless : Translated
  translated : Fields → Translated

module _ (translation_map : Map) (rtype : List ℕ) (target_ver : String) where
  -- the body of the loop
  unfoldable pub one_down : Fields → String → Option (Fields × String)
  one_down obj current = elim (get current translation_map) [
    | none ↦ none
    | some types ↦ elim (previous current (version_list translation_map)) [
      | none ↦ none
      | some v ↦ some (remove_keys_from_resource obj rtype types, v)
    ]
  ]

  unfoldable pub downgrade : ℕ → Fields → String → Reached
  downgrade zero obj current = unfinished
  downgrade (suc n) obj current = elim (api_ver_compare target_ver current) [
    | none ↦ broken
    | some c ↦ elim (is_older c) [
      | false ↦ reached obj current
      | true ↦ elim (one_down obj current) [ none ↦ broken | some (obj', v) ↦ downgrade n obj' v ]
    ]
  ]

  -- the version is noted, other keys are deleted, and the version is checked
  unfoldable pub permit : Option String → List String → Fields → String → Translated
  permit downgrade_ver removed obj current =
      let noted =
        if is_some (get_field "@_apiversion" obj)
        then set_field "@_apiversion" (str current) obj
        else obj in
      let out = translated (pop_all removed noted) in
      if target_ver == current then out else elim downgrade_ver [
        | none ↦ refused
        | some d ↦ if d == "" then refused else elim (api_ver_compare current d) [
          | none ↦ raised
          | some c ↦ if is_older c then refused else out
        ]
      ]

  unfoldable pub finish : Option String → List String → Reached → Translated
  finish downgrade_ver removed broken = raised
  finish downgrade_ver removed unfinished = endless
  finish downgrade_ver removed (reached obj current) = permit downgrade_ver removed obj current

  -- enough for a round at each version
  abbrev pub fuel : ℕ
  fuel = suc (length (version_list translation_map))

  unfoldable pub from_version : Option String → List String → Fields → Json → Translated
  from_version downgrade_ver removed obj (str current) =
      finish downgrade_ver removed (downgrade fuel obj current)
  from_version downgrade_ver removed obj _ = raised

abbrev or_max : String → Option Json → Json
or_max v none = str v
or_max v (some j) = j

unfoldable pub translate_api_version :
    Map → Fields → String → String → Option String → List String → Translated
translate_api_version translation_map obj resource_type target_ver downgrade_ver removed =
    let max_ver = last "" (version_list translation_map) in
    let current = or_max max_ver (get_field "@_apiversion" obj) in
    let out =
      from_version translation_map (rstrip_s (codes resource_type)) target_ver downgrade_ver removed
        obj current in
    elim (api_ver_compare target_ver max_ver) [
      | none ↦ raised
      | some c ↦ (if is_newer c then refused else out)
    ]
