-- ===== src/Tests/Versioned.antt =====
-- Versions and their translation at concrete inputs (nmoscommon/utils.py).
use nmos_common.Common.{◌≡◌, ◌≢◌, refl, some, none, [], ◌∷◌}
use nmos_common.Common.Dict.{get}
use nmos_common.Common.Json.{str, Fields, field, end}
use nmos_common.Versions.{
  downgrade_map, api_ver_compare, compare_parts, compare_minor, split_dots, less, older_minor,
  remove_if_present,
}
use nmos_common.Versions.Translate.{
  translate_api_version, translated, endless, from_version, downgrade, finish, permit, one_down,
  previous, before, version_list, sorted, insert, last, rstrip_s, removals, remove_keys, get_field,
  set_field, pop_all, pop_field,
}
use nmos_common.Versions.Downgrade.{translate_api_version-ends}

-- parts are compared as texts
ten_before_nine : api_ver_compare "v1.10" "v1.9" ≡ some older_minor
unfolding api_ver_compare compare_parts compare_minor split_dots less
ten_before_nine = refl

abbrev node : Fields
node =
    field "id" (str "n1") (field "interfaces" (str "eth0") (field "@_apiversion" (str "v1.2") end))

translate_api_version-ends_example :
    translate_api_version downgrade_map node "nodes" "v1.1" none ("max_api_version" ∷ []) ≢ endless
translate_api_version-ends_example =
    translate_api_version-ends node "nodes" "v1.1" none ("max_api_version" ∷ [])

down_to_11 :
    translate_api_version downgrade_map node "nodes" "v1.1" none ("max_api_version" ∷ [])
    ≡ translated (field "id" (str "n1") (field "@_apiversion" (str "v1.1") end))
unfolding translate_api_version from_version downgrade finish permit one_down previous before
    version_list sorted insert last rstrip_s removals remove_keys get_field set_field pop_all
    pop_field get api_ver_compare compare_parts compare_minor split_dots less remove_if_present
down_to_11 = refl
