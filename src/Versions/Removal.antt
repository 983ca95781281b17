-- ===== src/Versions/Removal.antt =====
-- What `_remove_if_present` leaves (nmoscommon/utils.py).
use nmos_common.Common.{String, ◌≡◌, refl, ap, Bool, false, arith, ◌==◌, ◌||◌}
use nmos_common.Common.Json.{
  Json, null, bool, int, str, list, dict, Items, nil, item, Fields, end, field,
}
use nmos_common.Versions.{remove_if_present, remove_items, remove_fields}

-- the key stands in some dict, at any depth
unfoldable mutual
  pub occurs : String → Json → Bool
  occurs k (list items) = in_items k items
  occurs k (dict fields) = in_fields k fields
  occurs k null = false
  occurs k (bool b) = false
  occurs k (int n) = false
  occurs k (str s) = false

  pub in_items : String → Items → Bool
  in_items k nil = false
  in_items k (item j items) = occurs k j || in_items k items

  pub in_fields : String → Fields → Bool
  in_fields k end = false
  in_fields k (field name j fields) = name == k || occurs k j || in_fields k fields

mutual
  unfolding occurs remove_if_present

  none_left : (k : String) (j : Json) → occurs k (remove_if_present k j) ≡ false
  none_left k (list items) = none_left_items k items
  none_left k (dict fields) = none_left_fields k fields
  none_left k null = refl
  none_left k (bool b) = refl
  none_left k (int n) = refl
  none_left k (str s) = refl

  none_left_items : (k : String) (items : Items) → in_items k (remove_items k items) ≡ false
  none_left_items k nil = refl
  none_left_items k (item j items) = ground (arith, none_left k j, none_left_items k items)

  none_left_fields : (k : String) (fields : Fields) → in_fields k (remove_fields k fields) ≡ false
  none_left_fields k end = refl
  none_left_fields k (field name j fields) =
      ground (arith, none_left k j, none_left_fields k fields)

mutual
  unfolding occurs remove_if_present

  unchanged : (k : String) (j : Json) → occurs k j ≡ false → remove_if_present k j ≡ j
  unchanged k (list items) h = ap list (unchanged_items k items h)
  unchanged k (dict fields) h = ap dict (unchanged_fields k fields h)
  unchanged k null h = refl
  unchanged k (bool b) h = refl
  unchanged k (int n) h = refl
  unchanged k (str s) h = refl

  unchanged_items :
      (k : String) (items : Items) → in_items k items ≡ false → remove_items k items ≡ items
  unchanged_items k nil h = refl
  unchanged_items k (item j items) h = ground (arith, unchanged k j, unchanged_items k items)

  unchanged_fields :
      (k : String) (fields : Fields) → in_fields k fields ≡ false → remove_fields k fields ≡ fields
  unchanged_fields k end h = refl
  unchanged_fields k (field name j fields) h =
      ground (arith, unchanged k j, unchanged_fields k fields)

-- A removed key stands nowhere any more, at no depth.
pub occurs-remove_if_present : (k : String) (j : Json) → occurs k (remove_if_present k j) ≡ false
occurs-remove_if_present = none_left

-- A value in which the key stands nowhere is left as it is.
pub remove_if_present_absent :
    (k : String) (j : Json) → occurs k j ≡ false → remove_if_present k j ≡ j
remove_if_present_absent = unchanged
