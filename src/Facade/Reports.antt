-- ===== src/Facade/Reports.antt =====
-- What a call over IPC leaves (nmoscommon/facade.py, `_call_ipc_method`).
use nmos_common.Common.{
  ◌≡◌, refl, ap, ◌∙◌, if_both, not, ◌⊎◌, inl, inr, true, String, Option, some, List, [], ◌∷◌, ◌++◌,
  arith, ◌&&◌, ◌==◌, if◌then◌else◌, eq_iff,
}
use nmos_common.Common.Dict.{or_empty, Dict, get, put, get-put}
use nmos_common.Common.Json.{Json}
use nmos_common.Facade.{
  Peer, Facade, Arg, Event, Answer, answered, raised, named, on_call, connected, setup_ipc, say,
  call_ipc_method, text, object,
}
use nmos_common.Facade.Operations.{add_resource, keep_resource}

-- The call is the last event and it was answered, or re-registration is asked for.
abbrev pub IsReported : Peer → Event → Facade → Type 0
IsReported peer e s =
    ((before : List Event) × (value : Json) × (s.events ≡ before ++ e ∷ [])
      × (peer.answer s.events ≡ answered value))
    ⊎ (s.reregister ≡ true)

-- the resource that the facade's client keeps
abbrev pub kept : String → String → Facade → Option (Dict Json)
kept type key s = get key (or_empty (get type s.resources))

kept-put :
    (type key : String) (value : Dict Json) (s : Facade) (type' key' : String)
    → kept type' key' (keep_resource type key value s)
      ≡ (if type == type' && key == key' then some value else kept type' key' s)
unfolding keep_resource
kept-put type key value s type' key' =
    rw (get-put type type' (put key value (or_empty (get type s.resources))) s.resources)
      (ground (arith, eq_iff type type', get-put key key' value (or_empty (get type s.resources))))

module _ (peer : Peer) where
  on_call-IsReported :
      (e : Event) (before : List Event) (s : Facade) (a : Answer)
      → s.events ≡ before ++ e ∷ []
      → peer.answer s.events ≡ a
      → IsReported peer e (on_call peer a s).1
  unfolding on_call
  on_call-IsReported e before s raised made h = inr refl
  on_call-IsReported e before s (answered value) made h = inl (before, value, made, h)

  call_ipc_method-IsReported :
      (method : String) (args : List Arg) (s : Facade)
      → IsReported peer (named peer method args) (call_ipc_method peer method args s).1
  unfolding call_ipc_method
  call_ipc_method-IsReported method args s =
      let P : Option Json × Facade → Type 0 = λ r. IsReported peer (named peer method args) r.1 in
      if_both P (not s.srv_registered) _ _ (inr refl) (
        if_both P (connected peer s).ipc _ _
          (on_call-IsReported _ (connected peer s).events
            (say (named peer method args) (connected peer s)) _ refl refl)
          (inr refl))

  -- a call over IPC leaves what the client keeps
  call_ipc_method-resources :
      (method : String) (args : List Arg) (s : Facade)
      → ((call_ipc_method peer method args s).1.resources ≡ s.resources)
        × ((call_ipc_method peer method args s).1.controls ≡ s.controls)
  unfolding call_ipc_method on_call connected setup_ipc
  call_ipc_method-resources method args s = ground arith

  -- A resource that is added is kept at its type and key and nowhere else, and no addition is lost:
  -- either the call that reports it was made last and answered, or re-registration is asked for.
  pub add_resource_lem :
      (type key : String) (value : Dict Json) (s : Facade) (type' key' : String)
      → (kept type' key' (add_resource peer type key value s)
          ≡ (if type == type' && key == key' then some value else kept type' key' s))
        × IsReported peer
            (named peer "res_register" (text type ∷ text key ∷ object value ∷ []))
            (add_resource peer type key value s)
  unfolding add_resource
  add_resource_lem type key value s type' key' =
      let args = text type ∷ text key ∷ object value ∷ [] in
      (
        ap (λ r. get key' (or_empty (get type' r)))
              (call_ipc_method-resources "res_register" args (keep_resource type key value s)).0
            ∙ kept-put type key value s type' key',
        call_ipc_method-IsReported "res_register" args (keep_resource type key value s),
      )
