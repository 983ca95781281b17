-- ===== src/Ipc/Wire.antt =====
-- JSON values as the messages of nmoscommon/ipc.py hold them: what `in`, `*` and `**` do with them.
use Prim.Native.String.{String}
use nmos_common.Common.{
  ◌≡◌, refl, ap, Bool, false, Option, none, some, List, [], ◌∷◌, ◌==◌, ◌||◌, codes, map,
}
use nmos_common.Common.Dict.{Dict, has, keys}
use nmos_common.Common.Json.{Json, str, list, dict, Items, nil, item, Fields, end, field}
use nmos_common.Auth.Claims.{is_inside}

unfoldable pub items_of : List Json → Items
items_of [] = nil
items_of (v ∷ vs) = item v (items_of vs)

unfoldable pub values : Items → List Json
values nil = []
values (item v l) = v ∷ values l

unfoldable pub fields_of : Dict Json → Fields
fields_of [] = end
fields_of ((name, v) ∷ d) = field name v (fields_of d)

unfoldable pub entries : Fields → Dict Json
entries end = []
entries (field name v d) = (name, v) ∷ entries d

abbrev pub is_listed : String → Items → Bool
is_listed x nil = false
is_listed x (item (str s) l) = s == x || is_listed x l
is_listed x (item _ l) = is_listed x l

-- `x in v`; none is a TypeError
unfoldable pub contains : String → Json → Option Bool
contains x (dict d) = some (has x (entries d))
contains x (list l) = some (is_listed x l)
contains x (str s) = some (is_inside (codes x) (codes s))
contains x _ = none

abbrev pub characters : String → List Json
characters String.[] = []
characters (String.◌∷◌ c s) = str (String.◌∷◌ c String.[]) ∷ characters s

-- the arguments `*v` and `**v`; none is a TypeError
unfoldable pub starred : Json → Option (List Json)
starred (list l) = some (values l)
starred (str s) = some (characters s)
starred (dict d) = some (map str (keys (entries d)))
starred _ = none

unfoldable pub keyed : Json → Option (Dict Json)
keyed (dict d) = some (entries d)
keyed _ = none

pub values-items_of : (vs : List Json) → values (items_of vs) ≡ vs
unfolding values items_of
values-items_of [] = refl
values-items_of (v ∷ vs) = ap (◌∷◌ v) (values-items_of vs)

pub entries-fields_of : (d : Dict Json) → entries (fields_of d) ≡ d
unfolding entries fields_of
entries-fields_of [] = refl
entries-fields_of ((name, v) ∷ d) = ap (◌∷◌ (name, v)) (entries-fields_of d)
