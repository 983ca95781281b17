-- ===== src/Facade/Operations.antt =====
-- The operations of the facade's clients: each changes the local copy and passes the change on
-- (nmoscommon/facade.py, `addResource` to `delClock`).
use nmos_common.Common.{
  String, Bool, true, false, Option, none, some, List, [], ◌∷◌, ◌==◌, if◌then◌else◌,
}
use nmos_common.Common.Dict.{or_empty, Dict, get, put, remove, has}
use nmos_common.Common.Json.{Json, str}
use nmos_common.Facade.{
  Peer, Facade, Control, Arg, Resources, text, object, call_ipc_method, control_arg,
}

-- `self.resources[type][key] = value`, where a missing dict is made
unfoldable pub keep_resource : String → String → Dict Json → Facade → Facade
keep_resource type key value s = record s {
  resources = put type (put key value (or_empty (get type s.resources))) s.resources;
}

abbrev is_flow : String → Json → Bool
is_flow key (str flow) = key == flow
is_flow key _ = false

-- The loop over the transports deletes those of a flow; at a transport without a 'flow-id' it
-- raises a KeyError, which the first component tells.
unfoldable pub drop_transports : String → Dict (Dict Json) → Bool × Dict (Dict Json)
drop_transports key [] = (true, [])
drop_transports key ((transport, value) ∷ rest) =
    let (done, rest') = drop_transports key rest in
    elim (get "flow-id" value) [
      | none ↦ (false, (transport, value) ∷ rest)
      | some flow ↦ (done, (if is_flow key flow then rest' else (transport, value) ∷ rest'))
    ]

unfoldable pub forget_transports : String → Resources → Bool × Resources
forget_transports key resources = elim (get "transport" resources) [
  | none ↦ (true, resources)
  | some d ↦ (let (done, d') = drop_transports key d in (done, put "transport" d' resources))
]

-- the local half of `delResource`
unfoldable pub forget_resource : String → String → Resources → Bool × Resources
forget_resource type key resources =
    let (done, resources') =
      (if type == "flow" then forget_transports key resources else (true, resources)) in
    let forgotten = put type (remove key (or_empty (get type resources'))) resources' in
    if has type resources
    then (done, (if done then forgotten else resources'))
    else (true, resources)

module _ (peer : Peer) where
  abbrev report : String → List Arg → Facade → Facade
  report method args s = (call_ipc_method peer method args s).1

  unfoldable pub add_resource : String → String → Dict Json → Facade → Facade
  add_resource type key value s =
      report "res_register" (text type ∷ text key ∷ object value ∷ [])
        (keep_resource type key value s)

  unfoldable pub update_resource : String → String → Dict Json → Facade → Facade
  update_resource type key value s =
      report "res_update" (text type ∷ text key ∷ object value ∷ [])
        (keep_resource type key value s)

  -- the first component is false on a KeyError
  unfoldable pub del_resource : String → String → Facade → Bool × Facade
  del_resource type key s =
      let (done, resources') = forget_resource type key s.resources in
      let s' = record s { resources = resources' } in
      (done, (if done then report "res_unregister" (text type ∷ text key ∷ []) s' else s'))

  unfoldable pub add_control : String → Control → Facade → Facade
  add_control device_id control s =
      report "control_register" (text device_id ∷ control_arg peer control ∷ []) (record s {
        controls =
            put device_id (put control.href control (or_empty (get device_id s.controls)))
              s.controls;
      })

  unfoldable pub del_control : String → Control → Facade → Facade
  del_control device_id control s =
      report "control_unregister" (text device_id ∷ control_arg peer control ∷ []) (
        if has device_id s.controls
        then record s {
          controls =
              put device_id (remove control.href (or_empty (get device_id s.controls))) s.controls;
        }
        else s)

  unfoldable pub get_node_self : String → Facade → Option Json × Facade
  get_node_self api_version = call_ipc_method peer "self_get" (text api_version ∷ [])

  unfoldable pub get_reg_status : Facade → Option Json × Facade
  get_reg_status = call_ipc_method peer "status_get" []

  unfoldable pub add_clock : Dict Json → Facade → Facade
  add_clock clk_data = report "clock_register" (object clk_data ∷ [])

  unfoldable pub update_clock : Dict Json → Facade → Facade
  update_clock clk_data = report "clock_update" (object clk_data ∷ [])

  unfoldable pub del_clock : String → Facade → Facade
  del_clock clk_name = report "clock_unregister" (text clk_name ∷ [])
