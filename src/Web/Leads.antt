-- ===== src/Web/Leads.antt =====
-- Where a path leads in a resource (nmoscommon/webapi.py, obj_path_access).
use nmos_common.Common.{
  ℕ, String, ◌≡◌, refl, Bool, true, false, Option, none, some, ◌⊎◌, List, [], ◌∷◌, if◌then◌else◌,
}
use nmos_common.Common.Json.{Json, Items, Fields, null, bool, int, str, list, dict, end, field}
use nmos_common.Common.Unicode.{Unicode}
use nmos_common.Web.{Response, is_number, returns_json, jsonify, htmlify, ipp_response}
use nmos_common.Web.Errors.{Werkzeug}
use nmos_common.Web.Resource.{answered, segments, position, get_field, get_item, show_part, alone}

module _ (unicode : Unicode) where
  -- The part that a path leads to: through the key of a dict or the position in a list.
  pub data Leads : List String → Json → Json → Type 0 where
    here : {v : Json} → Leads [] v v
    by_key :
        {x : String} {path : List String} {d : Fields} {v w : Json}
        → get_field x d ≡ some v
        → Leads path v w
        → Leads (x ∷ path) (dict d) w
    by_position :
        {x : String} {path : List String} {l : Items} {i : ℕ} {v w : Json}
        → position unicode x ≡ some i
        → get_item i l ≡ some v
        → Leads path v w
        → Leads (x ∷ path) (list l) w

part_status : (html : Bool) (v : Json) → (returns_json html (alone (show_part v))).status ≡ 200
unfolding returns_json jsonify htmlify ipp_response
part_status html null = refl
part_status html (bool b) = refl
part_status html (int n) = refl
part_status html (str s) = refl
part_status true (list l) = refl
part_status false (list l) = refl
part_status true (dict end) = refl
part_status false (dict end) = refl
part_status true (dict (field x v d)) = refl
part_status false (dict (field x v d)) = refl

-- the status of an answer, if it is sent
abbrev pub status_sent : Option Response → Option ℕ
status_sent none = none
status_sent (some r) = some r.status

module _ (unicode : Unicode) (lib : Werkzeug) (html : Bool) (path : String) (rep : Json) where
  -- the answer that shows a part, or no answer
  abbrev pub Shows : Json → Option Response → Type 0
  Shows v r =
      (r ≡ (if is_number v then none else some (returns_json html (alone (show_part v)))))
      × (status_sent r ≡ (if is_number v then none else some 200))

  -- what a GET is answered
  abbrev pub Answers : Option Response → Type 0
  Answers r =
      ((v : Json) × Leads unicode (segments path) rep v × Shows v r)
      ⊎ (((v : Json) → ¬ Leads unicode (segments path) rep v) × (status_sent r ≡ some 404))

  abbrev error_404 : Response
  error_404 = answered lib false html none
