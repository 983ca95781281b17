-- ===== src/Tests/Mongos.antt =====
-- The translation to MongoDB at concrete queries (nmoscommon/rql/query/mongodb.py).
use nmos_common.Common.{◌≡◌, refl, [], ◌∷◌, String, List, if◌then◌else◌}
use nmos_common.Common.Json.{Json, int, str, dict, field, end}
use nmos_common.Mongo.{
  handle_type_f, collapse, all_fields, all_names, distinct, merge, put_fields, put_field,
  not_merged, single, unparse, Node, leaf, call, no_nodes, node, ok, assemble, translate_name,
  handle_type_a, as_field,
}
use nmos_common.Mongo.Conjunction.{singles, names, together, repeats, handle_type_f-singles}

abbrev conditions : List (String × Json)
conditions = ("a", int 1) ∷ ("b", int 2) ∷ []

handle_type_f-singles_example : handle_type_f "$and" (singles conditions) ≡ (
    if repeats (names conditions)
    then not_merged "$and" (singles conditions)
    else dict (together conditions))
handle_type_f-singles_example = handle_type_f-singles "$and" conditions

-- two dicts, two names: merged, and the first condition on "a" is gone
lost_condition :
    handle_type_f "$and"
      (dict (field "a" (int 1) (field "b" (int 2) end)) ∷ single "a" (int 3) ∷ [])
    ≡ dict (field "a" (int 3) (field "b" (int 2) end))
unfolding handle_type_f collapse all_fields all_names distinct merge put_fields put_field
lost_condition = refl

abbrev both : Node
both = call "and" (
    node (call "eq" (node (leaf (str "a")) (node (leaf (int 1)) no_nodes)))
      (node (call "eq" (node (leaf (str "b")) (node (leaf (int 2)) no_nodes))) no_nodes))

unparsed : unparse both ≡ ok (dict (together conditions))
unfolding unparse assemble translate_name handle_type_a as_field handle_type_f collapse all_fields
    all_names distinct merge put_fields put_field
unparsed = refl
