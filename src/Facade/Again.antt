-- ===== src/Facade/Again.antt =====
-- Re-registration of a service with all that it keeps (nmoscommon/facade.py, `reregister_all`).
use nmos_common.Common.{
  ◌≡◌, refl, sym, ap, ◌∙◌, true, false, String, Option, List, [], ◌∷◌, ◌++◌, append_assoc,
  append-nil, arith, map,
}
use nmos_common.Common.Dict.{Dict}
use nmos_common.Common.Json.{Json, int}
use mathlib.Core.List.{map-append}
use nmos_common.Facade.{
  Peer, Facade, Event, answered, named, say, say_all, connected, setup_ipc, on_register,
  on_unregister, register_service, unregister_service, srv_register, register_all, reregister_all,
  resource_calls, resource_calls_of, control_calls, control_calls_of, is_success, text, object,
  shown, Control, control_arg,
}

-- the entries of a dict of dicts, each with both of its keys
abbrev pub entries : {V : Type 0} → List (String × List (String × V)) → List (String × String × V)
entries [] = []
entries ((k, d) ∷ ds) = map (λ e. (k, e.0, e.1)) d ++ entries ds

module _ (peer : Peer) where
  -- the call that registers a resource, under its type and its key
  abbrev pub resource_call : String × String × Dict Json → Event
  resource_call (type, key, resource) =
      named peer "res_register" (text type ∷ text key ∷ object (shown type resource) ∷ [])

  -- the call that registers a control of a device
  abbrev pub control_call : String × String × Control → Event
  control_call (device_id, href, control) =
      named peer "control_register" (text device_id ∷ control_arg peer control ∷ [])

  resource_calls_of-map :
      (type : String) (d : Dict (Dict Json))
      → resource_calls_of peer type d ≡ map resource_call (map (λ e. (type, e.0, e.1)) d)
  unfolding resource_calls_of
  resource_calls_of-map type [] = refl
  resource_calls_of-map type ((key, resource) ∷ rest) =
      ap (◌∷◌ (resource_call (type, key, resource))) (resource_calls_of-map type rest)

  control_calls_of-map :
      (device_id : String) (d : Dict Control)
      → control_calls_of peer device_id d ≡ map control_call (map (λ e. (device_id, e.0, e.1)) d)
  unfolding control_calls_of
  control_calls_of-map device_id [] = refl
  control_calls_of-map device_id ((href, control) ∷ rest) =
      ap (◌∷◌ (control_call (device_id, href, control))) (control_calls_of-map device_id rest)

  resource_calls-map :
      (ds : Dict (Dict (Dict Json))) → resource_calls peer ds ≡ map resource_call (entries ds)
  unfolding resource_calls
  resource_calls-map [] = refl
  resource_calls-map ((type, d) ∷ ds) =
      rw (resource_calls_of-map type d, resource_calls-map ds)
        (sym (map-append resource_call (map (λ e. (type, e.0, e.1)) d) (entries ds)))

  control_calls-map :
      (ds : Dict (Dict Control)) → control_calls peer ds ≡ map control_call (entries ds)
  unfolding control_calls
  control_calls-map [] = refl
  control_calls-map ((device_id, d) ∷ ds) =
      rw (control_calls_of-map device_id d, control_calls-map ds)
        (sym (map-append control_call (map (λ e. (device_id, e.0, e.1)) d) (entries ds)))

  -- the loop changes nothing but the proxy and the events
  record Said (s : Facade) (s' : Facade) : Type 0 where
    registered : s'.srv_registered ≡ s.srv_registered
    flag : s'.reregister ≡ s.reregister

  say_all-Said : (es : List Event) (s : Facade) → Said s (say_all peer es s).1
  unfolding say_all
  say_all-Said [] s = record { registered = refl; flag = refl }
  say_all-Said (e ∷ es) s =
      let more = say_all-Said es (say e s) in
      record { registered = ground (arith, more.registered); flag = ground (arith, more.flag) }

  register_service-flag :
      (h p : Option String) (s : Facade) → (register_service peer h p s).reregister ≡ s.reregister
  unfolding register_service on_register connected setup_ipc
  register_service-flag h p s = ground arith

  unregister_service-flag : (s : Facade) → (unregister_service peer s).reregister ≡ s.reregister
  unfolding unregister_service on_unregister connected setup_ipc
  unregister_service-flag s = ground arith

  register_all-flag : (s : Facade) → (register_all peer s).reregister ≡ true → s.reregister ≡ true
  unfolding register_all
  register_all-flag s h =
      let a = say_all-Said (resource_calls peer s.resources) s in
      let s₁ = (say_all peer (resource_calls peer s.resources) s).1 in
      let b = say_all-Said (control_calls peer s₁.controls) s₁ in ground (arith, a.flag, b.flag)

  -- Re-registration never sets the flag `reregister`, however it ends: if the flag is set
  -- afterwards, it was set before.
  pub reregister_all-flag :
      (s : Facade) → (reregister_all peer s).reregister ≡ true → s.reregister ≡ true
  unfolding reregister_all
  reregister_all-flag s h =
      let s₁ = unregister_service peer s in
      let s₂ = register_service peer s₁.href s₁.proxy_path s₁ in
      ground (
        arith,
        unregister_service-flag s,
        register_service-flag s₁.href s₁.proxy_path s₁,
        register_all-flag s₂,
      )

-- the events of one call
module _ (peer : Peer) (success : (es : List Event) → peer.answer es ≡ answered (int 0)) where
  step :
      (e : Event) (es : List Event) (s : Facade)
      → say_all peer (e ∷ es) s ≡ say_all peer es (say e s)
  unfolding say_all
  step e es s = ground (arith, success (s.events ++ e ∷ []))

  say_all_lem :
      (es : List Event) (s : Facade)
      → say_all peer es s ≡ (true, record s { events = s.events ++ es })
  unfolding say_all
  say_all_lem [] s = ground (arith, append-nil s.events)
  say_all_lem (e ∷ es) s =
      step e es s ∙ (say_all_lem es (say e s) ∙ ground (arith, append_assoc s.events (e ∷ []) es))

  register_all_lem :
      (s : Facade)
      → register_all peer s ≡ record s {
        reregister = false;
        events = (s.events ++ resource_calls peer s.resources) ++ control_calls peer s.controls;
      }
  unfolding register_all
  register_all_lem s =
      rw
        (
          say_all_lem (resource_calls peer s.resources) s,
          say_all_lem (control_calls peer s.controls)
              (record s { events = s.events ++ resource_calls peer s.resources }),
        )
        refl

  unregister_service_lem :
      (s : Facade)
      → s.ipc ≡ true
      → unregister_service peer s ≡ record s {
        srv_registered = false;
        events = s.events ++ named peer "srv_unregister" [] ∷ [];
      }
  unfolding unregister_service on_unregister connected
  unregister_service_lem s up =
      ground (arith, success (s.events ++ named peer "srv_unregister" [] ∷ []))

  register_service_lem :
      (s : Facade)
      → s.ipc ≡ true
      → register_service peer s.href s.proxy_path s ≡ record s {
        srv_registered = true;
        events = s.events ++ srv_register peer s.href s.proxy_path ∷ [];
      }
  unfolding register_service on_register connected is_success
  register_service_lem s up =
      ground (arith, success (s.events ++ srv_register peer s.href s.proxy_path ∷ []))

  reregister_all-calls :
      (s : Facade)
      → s.ipc ≡ true
      → reregister_all peer s ≡ record s {
        srv_registered = true;
        reregister = false;
        events =
            ((s.events
                ++ named peer "srv_unregister" [] ∷ srv_register peer s.href s.proxy_path ∷ [])
              ++ resource_calls peer s.resources)
            ++ control_calls peer s.controls;
      }
  unfolding reregister_all
  reregister_all-calls s up =
      let s₁ = record s {
        srv_registered = false;
        events = s.events ++ named peer "srv_unregister" [] ∷ [];
      } in
      rw
        (
          unregister_service_lem s up,
          register_service_lem s₁ up,
          register_all_lem (record s₁ {
            srv_registered = true;
            events = s₁.events ++ srv_register peer s.href s.proxy_path ∷ [];
          }),
        )
        (ground (
          arith,
          append_assoc s.events (named peer "srv_unregister" [] ∷ [])
              (srv_register peer s.href s.proxy_path ∷ []),
        ))

  -- With a proxy, and a facade that answers every call with success, `reregister_all` unregisters
  -- and registers the service, then registers the resource of every entry that is kept, under its
  -- type and key, and the control of every entry, under its device, in this order and each once; then
  -- the service counts as registered and the flag is taken back.
  pub reregister_all_lem :
      (s : Facade)
      → s.ipc ≡ true
      → reregister_all peer s ≡ record s {
        srv_registered = true;
        reregister = false;
        events =
            ((s.events
                ++ named peer "srv_unregister" [] ∷ srv_register peer s.href s.proxy_path ∷ [])
              ++ map (resource_call peer) (entries s.resources))
            ++ map (control_call peer) (entries s.controls);
      }
  reregister_all_lem s up =
      reregister_all-calls s up
      ∙ rw (resource_calls-map peer s.resources, control_calls-map peer s.controls) refl
