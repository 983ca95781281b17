-- ===== src/Versions.antt =====
-- nmoscommon/utils.py: the comparison of API versions, and the translation of an object down to an
-- older version. Texts are compared as lists of code points.
pub mod Translate
pub mod Order
pub mod Removal
pub mod Downgrade
use Prim.Native.Char.{code}
use nmos_common.Common.{
  same_text, codes, ℕ, zero, suc, String, Bool, true, false, Option, none, some, List, [], ◌∷◌,
  ◌==◌, ◌&&◌, ◌||◌, ltb, eqb, length, if◌then◌else◌, is_some,
}
use nmos_common.Common.Dict.{Dict, get, has, keys}
use nmos_common.Common.Json.{
  Json, null, bool, int, str, list, dict, Items, nil, item, Fields, end, field,
}

abbrev pub Map : Type 0
Map = Dict (Dict (List String))

-- DOWNGRADE_MAP
abbrev pub downgrade_map : Map
downgrade_map =
    (
      "v1.1",
      ("node", "description" ∷ "tags" ∷ "api" ∷ "clocks" ∷ [])
          ∷ ("device", "description" ∷ "tags" ∷ "controls" ∷ [])
          ∷ ("source", "clock_name" ∷ "grain_rate" ∷ "channels" ∷ [])
          ∷ (
            "flow",
            "device_id" ∷ "grain_rate" ∷ "media_type" ∷ "sample_rate" ∷ "bit_depth" ∷ "DID_SDID"
                ∷ "frame_width" ∷ "frame_height" ∷ "interlace_mode" ∷ "colorspace" ∷ "components"
                ∷ "transfer_characteristic" ∷ [],
          )
          ∷ [],
    )
    ∷ (
      "v1.2",
      ("node", "interfaces" ∷ [])
          ∷ ("sender", "interface_bindings" ∷ "caps" ∷ "subscription" ∷ [])
          ∷ ("receiver", "interface_bindings" ∷ [])
          ∷ [],
    )
    ∷ (
      "v1.3",
      ("node", "attached_network_device" ∷ "authorization" ∷ [])
          ∷ ("device", "authorization" ∷ [])
          ∷ ("source", "event_type" ∷ [])
          ∷ ("flow", "event_type" ∷ [])
          ∷ [],
    )
    ∷ []

-- `<` on texts
unfoldable pub less : List ℕ → List ℕ → Bool
less [] [] = false
less [] (b ∷ t) = true
less (a ∷ s) [] = false
less (a ∷ s) (b ∷ t) = let rest = less s t in ltb a b || (eqb a b && rest)

abbrev pub push : ℕ → List (List ℕ) → List (List ℕ)
push c [] = (c ∷ []) ∷ []
push c (word ∷ words) = (c ∷ word) ∷ words

-- `.split(".")`
unfoldable pub split_dots : List ℕ → List (List ℕ)
split_dots [] = [] ∷ []
split_dots (c ∷ s) = let rest = split_dots s in if eqb c b'.' then [] ∷ rest else push c rest

abbrev pub tail : List ℕ → List ℕ
tail [] = []
tail (_ ∷ s) = s

abbrev pub parts : String → List (List ℕ)
parts version = split_dots (tail (codes version))

-- the results -1, 1, -2, 2 and 0
pub data Comparison : Type 0 where
  older_major newer_major older_minor newer_minor same : Comparison

-- `none` is an IndexError
unfoldable pub compare_minor : List (List ℕ) → List (List ℕ) → Option Comparison
compare_minor (a ∷ _) (b ∷ _) =
    if less a b then some older_minor else if less b a then some newer_minor else some same
compare_minor _ _ = none

unfoldable pub compare_parts : List (List ℕ) → List (List ℕ) → Option Comparison
compare_parts (a ∷ s) (b ∷ t) =
    if less a b then some older_major else if less b a then some newer_major else compare_minor s t
compare_parts _ _ = none

unfoldable pub api_ver_compare : String → String → Option Comparison
api_ver_compare first second = compare_parts (parts first) (parts second)

abbrev pub is_older : Comparison → Bool
is_older older_major = true
is_older older_minor = true
is_older _ = false

abbrev pub is_newer : Comparison → Bool
is_newer newer_major = true
is_newer newer_minor = true
is_newer _ = false

-- `_remove_if_present`: in every dict at any depth
unfoldable mutual
  pub remove_if_present : String → Json → Json
  remove_if_present k (list items) = list (remove_items k items)
  remove_if_present k (dict fields) = dict (remove_fields k fields)
  remove_if_present k null = null
  remove_if_present k (bool b) = bool b
  remove_if_present k (int n) = int n
  remove_if_present k (str s) = str s

  pub remove_items : String → Items → Items
  remove_items k nil = nil
  remove_items k (item j items) = item (remove_if_present k j) (remove_items k items)

  pub remove_fields : String → Fields → Fields
  remove_fields k end = end
  remove_fields k (field name j fields) =
      let rest = remove_fields k fields in
      let kept = remove_if_present k j in if name == k then rest else field name kept rest
