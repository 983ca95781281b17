-- ===== src/Mongo.antt =====
-- nmoscommon/rql/query/mongodb.py: the translation of a parsed RQL query into a MongoDB query. A
-- dict with a key that is no text is no JSON document: `bad_field` stands for it.
pub mod Conjunction
use nmos_common.Common.{
  ℕ, String, Bool, true, false, Option, none, some, List, [], ◌∷◌, ◌++◌, ◌<>◌, ◌==◌, ◌&&◌, eqb,
  elem, length, if◌then◌else◌,
}
use nmos_common.Common.Dict.{Dict, get}
use nmos_common.Common.Json.{
  Json, null, bool, int, str, list, dict, Items, nil, item, Fields, end, field,
}

-- a value, a node with a name and arguments, or a dict without these
mutual
  pub data Node : Type 0 where
    leaf : Json → Node
    call : String → Nodes → Node
    malformed : Node

  pub data Nodes : Type 0 where
    no_nodes : Nodes
    node : Node → Nodes → Nodes

-- the two UnparseErrors, and a TypeError or AttributeError of an assembler
pub data MongoError : Type 0 where
  unexpected_form unsupported wrong_arguments bad_field : MongoError

pub data Mongo {ℓ} (A : Type ℓ) : Type ℓ where
  ok : A → Mongo A
  err : MongoError → Mongo A

infixl 10 ◌>>=◌
abbrev pub ◌>>=◌ {ℓ κ} : {A : Type ℓ} {B : Type κ} → Mongo A → (A → Mongo B) → Mongo B
ok a >>= f = f a
err e >>= f = err e

abbrev pub append_items : Items → Items → Items
append_items nil js = js
append_items (item i is) js = item i (append_items is js)

unfoldable mutual
  -- `flatten`
  pub flatten : Items → Items
  flatten nil = nil
  flatten (item j items) = append_items (flat j) (flatten items)

  pub flat : Json → Items
  flat (list items) = flatten items
  flat null = item null nil
  flat (bool b) = item (bool b) nil
  flat (int n) = item (int n) nil
  flat (str s) = item (str s) nil
  flat (dict fields) = item (dict fields) nil

abbrev pub to_items : List Json → Items
to_items [] = nil
to_items (j ∷ js) = item j (to_items js)

-- {key: value}
abbrev pub single : String → Json → Json
single key value = dict (field key value end)

unfoldable pub as_field : Json → Mongo String
as_field (str s) = ok s
as_field _ = err bad_field

unfoldable pub handle_type_a : List Json → Mongo Json
handle_type_a (name ∷ value ∷ []) = as_field name >>= λ k. ok (single k value)
handle_type_a _ = err wrong_arguments

unfoldable pub handle_type_b : String → List Json → Mongo Json
handle_type_b operator (name ∷ value ∷ []) =
    as_field name >>= λ k. ok (single k (single operator value))
handle_type_b operator _ = err wrong_arguments

unfoldable pub handle_type_c : String → List Json → Mongo Json
handle_type_c operator (name ∷ values) =
    as_field name >>= λ k. ok (single k (single operator (list (flatten (to_items values)))))
handle_type_c operator [] = err wrong_arguments

unfoldable pub handle_type_d : String → List Json → Json
handle_type_d operator values = single operator (list (to_items values))

unfoldable pub under : String → Fields → Fields
under operator end = end
under operator (field k j rest) = field k (single operator j) (under operator rest)

unfoldable pub handle_type_e : String → List Json → Mongo Json
handle_type_e operator (dict query ∷ []) = ok (dict (under operator query))
handle_type_e operator _ = err wrong_arguments

abbrev pub field_names : Fields → List String
field_names end = []
field_names (field k j rest) = k ∷ field_names rest

-- the items of the values, and none if one is no dict
unfoldable pub all_fields : List Json → Option (List Fields)
all_fields [] = some []
all_fields (dict fields ∷ js) = elim (all_fields js) [ none ↦ none | some l ↦ some (fields ∷ l) ]
all_fields (_ ∷ js) = none

unfoldable pub all_names : List Fields → List String
all_names [] = []
all_names (fields ∷ l) = field_names fields ++ all_names l

-- the elements of `set(names)`
unfoldable pub distinct : List String → List String
distinct [] = []
distinct (k ∷ ks) = let rest = distinct ks in if elem k ks then rest else k ∷ rest

-- `d[k] = j`
unfoldable pub put_field : String → Json → Fields → Fields
put_field k j end = field k j end
put_field k j (field name i rest) =
    let later = put_field k j rest in if name == k then field name j rest else field name i later

unfoldable pub put_fields : Fields → Fields → Fields
put_fields end d = d
put_fields (field k j rest) d = put_fields rest (put_field k j d)

-- `dict(chain.from_iterable(…))`
unfoldable pub merge : List Fields → Fields → Fields
merge [] d = d
merge (fields ∷ l) d = merge l (put_fields fields d)

-- the last two branches
abbrev pub not_merged : String → List Json → Json
not_merged operator (j ∷ []) = j
not_merged operator values = handle_type_d operator values

-- the branches on whether all values are dicts
unfoldable pub collapse : String → List Json → Option (List Fields) → Json
collapse operator values none = not_merged operator values
collapse operator values (some l) =
    if eqb (length (distinct (all_names l))) (length values)
    then dict (merge l end)
    else not_merged operator values

unfoldable pub handle_type_f : String → List Json → Json
handle_type_f operator values = collapse operator values (all_fields values)

-- OPERATOR_MAP
unfoldable pub translate_name : String → String
translate_name name =
    "$" <> (if name == "out" then "nin" else if name == "contains" then "all" else name)

-- `assemblers[name](name, *args)`
unfoldable pub assemble : String → List Json → Mongo Json
assemble name args =
    if name == "$eq"
    then handle_type_a args
    else if elem name ("$lte" ∷ "$lt" ∷ "$gt" ∷ "$gte" ∷ "$ne" ∷ [])
    then handle_type_b name args
    else if elem name ("$in" ∷ "$nin" ∷ "$all" ∷ [])
    then handle_type_c name args
    else if elem name ("$or" ∷ "$nor" ∷ [])
    then ok (handle_type_d name args)
    else if name == "$not"
    then handle_type_e name args
    else if name == "$and"
    then ok (handle_type_f name args)
    else err unsupported

unfoldable mutual
  pub unparse : Node → Mongo Json
  unparse (leaf j) = ok j
  unparse (call name args) = unparse_all args >>= assemble (translate_name name)
  unparse malformed = err unexpected_form

  pub unparse_all : Nodes → Mongo (List Json)
  unparse_all no_nodes = ok []
  unparse_all (node n ns) = unparse n >>= λ j. unparse_all ns >>= λ js. ok (j ∷ js)
