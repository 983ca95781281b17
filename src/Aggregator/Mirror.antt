-- ===== src/Aggregator/Mirror.antt =====
-- The local mirror of what is registered, and the requests that its changes queue
-- (nmoscommon/aggregator.py, `register_into`, `unregister_from`, `_add_mirror_keys`).
use nmos_common.Common.{
  String, Bool, false, Option, none, some, [], ◌∷◌, ◌++◌, ◌==◌, ◌&&◌, if◌then◌else◌,
}
use nmos_common.Common.Dict.{Dict, get, put, remove, has}
use nmos_common.Common.Json.{Json, str}
use nmos_common.Aggregator.{Aggregator, Resource, Entities}

abbrev pub empty_or {ℓ} : {V : Type ℓ} → Option (Dict V) → Dict V
empty_or none = []
empty_or (some d) = d

-- `entities[namespace][res_type]`, where a missing key counts as an empty dict
unfoldable pub entries : String → String → Entities → Dict Resource
entries namespace res_type entities = empty_or (get res_type (empty_or (get namespace entities)))

-- `_add_mirror_keys`
unfoldable pub add_mirror_keys : String → String → Entities → Entities
add_mirror_keys namespace res_type entities =
    let types = empty_or (get namespace entities) in
    put namespace (if has res_type types then types else put res_type [] types) entities

-- `entities[namespace][res_type] = d`
unfoldable pub store : String → String → Dict Resource → Entities → Entities
store namespace res_type d entities =
    put namespace (put res_type d (empty_or (get namespace entities))) entities

abbrev pub is_node : String → String → Bool
is_node namespace res_type = namespace == "resource" && res_type == "node"

-- the object that is sent; its data gets the key for an 'id' if it has none
unfoldable pub send_obj : String → String → Dict Json → Resource
send_obj res_type key attrs = record {
  type = res_type;
  attrs = if has "id" attrs then attrs else put "id" (str key) attrs;
}

module _ {H : Type 0} where
  unfoldable pub queue_request : String → String → String → String → Aggregator H → Aggregator H
  queue_request method namespace res_type key s = record s {
    queue =
        s.queue
        ++ record { method = method; namespace = namespace; res_type = res_type; key = key } ∷ [];
  }

  unfoldable pub register_into : String → String → String → Dict Json → Aggregator H → Aggregator H
  register_into namespace res_type key attrs s =
      let obj = send_obj res_type key attrs in
      let entities' = add_mirror_keys namespace res_type s.entities in
      queue_request "POST" namespace res_type key (
        if is_node namespace res_type then record s { node = some obj } else record s {
          entities =
              store namespace res_type (put key obj (entries namespace res_type entities'))
                entities';
        })

  -- `none` is the KeyError of a namespace that is not in the mirror
  unfoldable pub unregister_from : String → String → String → Aggregator H → Option (Aggregator H)
  unregister_from namespace res_type key s =
      let forget = λ (types : Dict (Dict Resource)).
        if has res_type types
        then record s {
          entities =
              store namespace res_type (remove key (entries namespace res_type s.entities))
                s.entities;
        }
        else s in
      if is_node namespace res_type
      then some (queue_request "DELETE" namespace res_type key (record s { node = none }))
      else elim (get namespace s.entities) [
        | none ↦ none
        | some types ↦ some (queue_request "DELETE" namespace res_type key (forget types))
      ]

  -- the 'resource' namespace, which the Node belongs to
  unfoldable pub register : String → String → Dict Json → Aggregator H → Aggregator H
  register = register_into "resource"

  unfoldable pub unregister : String → String → Aggregator H → Option (Aggregator H)
  unregister = unregister_from "resource"

  -- the flag of `stop`
  unfoldable pub stop : Aggregator H → Aggregator H
  stop s = record s { running = false }
