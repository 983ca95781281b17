-- ===== src/Facade.antt =====
-- nmoscommon/facade.py, class Facade: the proxy of a node facade on the same machine. `events` is
-- every connection and every call made over IPC so far, the last one at the end, and
-- `Peer.answer` what comes of the last of them.
pub mod Operations
pub mod Reports
pub mod Again
use nmos_common.Common.{
  ℕ, String, Bool, true, false, not, Option, none, some, List, [], ◌∷◌, ◌++◌, ◌<>◌, ◌==◌, ◌||◌, ltb,
  if◌then◌else◌,
}
use nmos_common.Common.Dict.{or_empty, Dict, get, put, remove}
use nmos_common.Common.Json.{Json, null, bool, int, str, list, dict}

-- an argument of a call; a dict is passed as such
pub data Arg : Type 0 where
  text : String → Arg
  number : ℕ → Arg
  href : Option String → Arg
  object : Dict Json → Arg

pub data Event : Type 0 where
  connect : Event
  invoke : (method : String) (args : List Arg) → Event

pub data Answer : Type 0 where
  raised : Answer
  answered : Json → Answer

-- a control's data has an 'href'
pub record Control : Type 0 where
  pub href : String
  pub attrs : Dict Json

pub record Peer : Type 0 where
  pub answer : List Event → Answer
  pub srv_type : String
  pub pid : ℕ

abbrev pub Resources : Type 0
Resources = Dict (Dict (Dict Json))

-- `ipc` tells whether there is a proxy
pub record Facade : Type 0 where
  pub ipc : Bool
  pub srv_registered : Bool
  pub reregister : Bool
  pub resources : Resources
  pub controls : Dict (Dict Control)
  pub href : Option String
  pub proxy_path : Option String
  pub events : List Event

abbrev pub new : Facade
new = record {
  ipc = false;
  srv_registered = false;
  reregister = false;
  resources = [];
  controls = [];
  href = none;
  proxy_path = none;
  events = [];
}

-- `s == FAC_SUCCESS`, where False equals 0
unfoldable pub is_success : Json → Bool
is_success (int n) = ltb n 1
is_success (bool b) = not b
is_success _ = false

-- the codes that `debug_message` has a text for; it raises on the others
unfoldable pub is_known : Json → Bool
is_known (int n) = ltb n 6
is_known (bool b) = true
is_known _ = false

abbrev pub say : Event → Facade → Facade
say e s = record s { events = s.events ++ e ∷ [] }

abbrev pub has_answered : Answer → Bool
has_answered raised = false
has_answered (answered _) = true

-- what is shown of a resource: some details of receivers are hidden
unfoldable pub shown : String → Dict Json → Dict Json
shown type resource =
    if type == "receiver" then remove "pipeline_id" (remove "pipel_id" resource) else resource

module _ (peer : Peer) where
  abbrev pub named : String → List Arg → Event
  named method args = invoke method (text peer.srv_type ∷ number peer.pid ∷ args)

  unfoldable pub setup_ipc : Facade → Facade
  setup_ipc s = let s' = say connect s in record s' { ipc = has_answered (peer.answer s'.events) }

  -- `if not self.ipc: self.setup_ipc()`
  unfoldable pub connected : Facade → Facade
  connected s = let s' = setup_ipc s in if s.ipc then s else s'

  unfoldable pub on_register : Answer → Facade → Facade
  on_register raised s = record s { ipc = false }
  on_register (answered code) s =
      if is_success code
      then record s { srv_registered = true }
      else if is_known code
      then s
      else record s { ipc = false }

  abbrev pub srv_register : Option String → Option String → Event
  srv_register srv_href proxy_path = invoke "srv_register" (
      text peer.srv_type
      ∷ text ("urn:x-ipstudio:service:" <> peer.srv_type)
      ∷ number peer.pid
      ∷ href srv_href
      ∷ href proxy_path
      ∷ [])

  unfoldable pub register_service : Option String → Option String → Facade → Facade
  register_service srv_href proxy_path s =
      let s₁ = connected (record s { href = srv_href; proxy_path = proxy_path }) in
      let s₂ = say (srv_register srv_href proxy_path) s₁ in
      let s₃ = on_register (peer.answer s₂.events) s₂ in if s₁.ipc then s₃ else s₁

  unfoldable pub on_unregister : Answer → Facade → Facade
  on_unregister raised s = record s { ipc = false }
  on_unregister (answered _) s = record s { srv_registered = false }

  unfoldable pub unregister_service : Facade → Facade
  unregister_service s =
      let s₁ = connected s in
      let s₂ = say (named "srv_unregister" []) s₁ in
      let s₃ = on_unregister (peer.answer s₂.events) s₂ in if s₁.ipc then s₃ else s₁

  -- calls one after the other; the first that raises ends the loop
  unfoldable pub say_all : List Event → Facade → Bool × Facade
  say_all [] s = (true, s)
  say_all (e ∷ es) s =
      let s' = say e s in
      let rest = say_all es s' in
      elim (peer.answer s'.events) [
        | raised ↦ (false, record s' { ipc = false })
        | answered _ ↦ rest
      ]

  unfoldable pub resource_calls_of : String → Dict (Dict Json) → List Event
  resource_calls_of type [] = []
  resource_calls_of type ((key, resource) ∷ rest) =
      named "res_register" (text type ∷ text key ∷ object (shown type resource) ∷ [])
      ∷ resource_calls_of type rest

  unfoldable pub resource_calls : Resources → List Event
  resource_calls [] = []
  resource_calls ((type, d) ∷ types) = resource_calls_of type d ++ resource_calls types

  abbrev pub control_arg : Control → Arg
  control_arg c = object (put "href" (str c.href) c.attrs)

  unfoldable pub control_calls_of : String → Dict Control → List Event
  control_calls_of device_id [] = []
  control_calls_of device_id ((_, control) ∷ rest) =
      named "control_register" (text device_id ∷ control_arg control ∷ [])
      ∷ control_calls_of device_id rest

  unfoldable pub control_calls : Dict (Dict Control) → List Event
  control_calls [] = []
  control_calls ((device_id, d) ∷ devices) = control_calls_of device_id d ++ control_calls devices

  -- the loops of `reregister_all`, which return on a call that raises
  unfoldable pub register_all : Facade → Facade
  register_all s =
      let (sent_resources, s₁) = say_all (resource_calls s.resources) s in
      let (sent_controls, s₂) = say_all (control_calls s₁.controls) s₁ in
      if not sent_resources
      then s₁
      else if not sent_controls
      then s₂
      else record s₂ { reregister = false }

  unfoldable pub reregister_all : Facade → Facade
  reregister_all s =
      let s₁ = unregister_service s in
      let s₂ = register_service s₁.href s₁.proxy_path s₁ in
      if s₁.srv_registered then s₁ else if not s₂.srv_registered then s₂ else register_all s₂

  unfoldable pub check_registered : Facade → Facade
  check_registered s = if not s.srv_registered || s.reregister then reregister_all s else s

  unfoldable pub on_heartbeat : Answer → Facade → Facade
  on_heartbeat raised s = record s { ipc = false }
  on_heartbeat (answered code) s =
      if is_success code
      then check_registered (record s { srv_registered = true })
      else if is_known code
      then check_registered (record s { srv_registered = false })
      else record s { srv_registered = false; ipc = false }

  unfoldable pub heartbeat_service : Facade → Facade
  heartbeat_service s =
      let s₁ = connected s in
      let s₂ = say (named "srv_heartbeat" []) s₁ in
      let s₃ = on_heartbeat (peer.answer s₂.events) s₂ in if s₁.ipc then s₃ else s₁

  unfoldable pub on_call : Answer → Facade → Option Json × Facade
  on_call raised s = (none, record s { ipc = false; reregister = true })
  on_call (answered value) s = (some value, s)

  -- `_call_ipc_method`; a Python None is `none`, whatever it stands for
  unfoldable pub call_ipc_method : String → List Arg → Facade → Option Json × Facade
  call_ipc_method method args s =
      let s₁ = connected s in
      let s₂ = say (named method args) s₁ in
      let out = on_call (peer.answer s₂.events) s₂ in
      if not s.srv_registered
      then (none, record s { reregister = true })
      else if s₁.ipc
      then out
      else (none, record s₁ { reregister = true })
