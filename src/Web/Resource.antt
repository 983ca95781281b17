-- ===== src/Web/Resource.antt =====
-- nmoscommon/webapi.py, obj_path_access: a GET is answered by the part of a resource that the rest
-- of its path leads to. Characters beyond ASCII, and how a response is sent, are parameters.
use Prim.Native.Char.{Char, code}
use nmos_common.Common.{
  ℕ, zero, suc, String, Bool, not, Option, none, some, List, [], ◌∷◌, ◌==◌, codes, keep_if, eqb,
  if◌then◌else◌,
}
use nmos_common.Common.Json.{Json, Items, Fields, str, list, dict, nil, item, end, field}
use nmos_common.Common.Unicode.{Unicode, Whole, plus, minus, int_of}
use nmos_common.Web.Errors.{Werkzeug, http_exception, error}
use nmos_common.Web.{Returned, data_value, response, Result, Response, jsonify, returns_json}

abbrev push : Char → List String → List String
push c [] = String.◌∷◌ c String.[] ∷ []
push c (word ∷ words) = String.◌∷◌ c word ∷ words

-- `path.split('/')`
unfoldable pub split_path : String → List String
split_path String.[] = "" ∷ []
split_path (String.◌∷◌ c s) =
    let rest = split_path s in if eqb (code c) b'/' then "" ∷ rest else push c rest

-- `[x for x in path.split('/') if x != '']`
unfoldable pub segments : String → List String
segments path = keep_if (λ x. not (x == "")) (split_path path)

-- of the negative numbers only -0 is a position
abbrev pub not_negative : Option Whole → Option ℕ
not_negative (some (plus n)) = some n
not_negative (some (minus zero)) = some 0
not_negative _ = none

-- `int(x)`, when it is not below 0
unfoldable pub position : Unicode → String → Option ℕ
position unicode x = not_negative (int_of unicode (codes x))

unfoldable pub get_field : String → Fields → Option Json
get_field x end = none
get_field x (field name v d) = let rest = get_field x d in if name == x then some v else rest

unfoldable pub get_item : ℕ → Items → Option Json
get_item i nil = none
get_item zero (item v l) = some v
get_item (suc i) (item v l) = get_item i l

abbrev pub item_at : Option ℕ → Items → Option Json
item_at none l = none
item_at (some i) l = get_item i l

abbrev pub then_in : Option Json → (Json → Option Json) → Option Json
then_in none f = none
then_in (some v) f = f v

module _ (unicode : Unicode) where
  -- one round of the loop; none is `abort(404)`
  unfoldable pub enter : String → Json → Option Json
  enter x (dict d) = get_field x d
  enter x (list l) = item_at (position unicode x) l
  enter x _ = none

  unfoldable pub walk : List String → Json → Option Json
  walk [] rep = some rep
  walk (x ∷ path) rep = then_in (enter x rep) (walk path)

-- an empty dict is shown as an empty list, and a text is made JSON here
abbrev pub show_part : Json → Returned
show_part (dict end) = data_value (list nil)
show_part (str s) = response (jsonify (str s) 200 [])
show_part v = data_value v

-- none is `abort(404)`
abbrev pub part_of : Option Json → Option Returned
part_of none = none
part_of (some v) = some (show_part v)

-- `obj_path_access`, for a handler that returns data
unfoldable pub obj_path_access : Unicode → Bool → String → Json → Option Returned
obj_path_access unicode is_get path rep =
    if is_get then part_of (walk unicode (segments path) rep) else some (data_value rep)

abbrev pub alone : Returned → Result
alone r = record { status = none; headers = none; value = r }

-- a resource route, `returns_json(obj_path_access(method))`, with the error handler
abbrev pub answered : Werkzeug → Bool → Bool → Option Returned → Response
answered lib is_head html none = error lib is_head html (http_exception 404 "")
answered lib is_head html (some r) = returns_json html (alone r)

-- what becomes of a response when it is sent; none is an exception in the server
abbrev pub sent : Werkzeug → Bool → Response → Option Response
sent lib is_head r = if lib.sends is_head r.body then some r else none

unfoldable pub resource_route :
    Unicode → Werkzeug → (method : String) → (html : Bool) → String → Json → Option Response
resource_route unicode lib method html path rep =
    sent lib (method == "HEAD")
      (answered lib (method == "HEAD") html (obj_path_access unicode (method == "GET") path rep))
