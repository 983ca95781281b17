-- ===== src/Tests/Facades.antt =====
-- The facade's proxy at concrete inputs (nmoscommon/facade.py).
use nmos_common.Common.{
  ◌≡◌, refl, true, false, some, none, [], ◌∷◌, ◌++◌, ◌&&◌, ◌==◌, if◌then◌else◌, eqb, length, map,
}
use nmos_common.Common.Json.{int}
use nmos_common.Facade.{
  Peer, Facade, answered, raised, new, named, text, object, reregister_all, resource_calls,
  resource_calls_of, srv_register, register_service, unregister_service, connected, on_register,
  on_unregister, register_all, say_all, is_success,
}
use nmos_common.Facade.Operations.{add_resource}
use nmos_common.Facade.Reports.{add_resource_lem, IsReported, kept}
use nmos_common.Facade.Again.{entries, resource_call, control_call, reregister_all_lem}

abbrev willing : Peer
willing = record { answer = λ _. answered (int 0); srv_type = "pipel"; pid = 7 }

abbrev running : Facade
running = record new {
  ipc = true;
  srv_registered = true;
  reregister = true;
  resources = ("flow", ("f1", []) ∷ ("f2", []) ∷ []) ∷ ("sender", ("s1", []) ∷ []) ∷ [];
}

add_resource_lem_example :
    (kept "flow" "f3" (add_resource willing "flow" "f3" [] running)
      ≡ (if "flow" == "flow" && "f3" == "f3" then some [] else kept "flow" "f3" running))
    × IsReported willing
        (named willing "res_register" (text "flow" ∷ text "f3" ∷ object [] ∷ []))
        (add_resource willing "flow" "f3" [] running)
add_resource_lem_example = add_resource_lem willing "flow" "f3" [] running "flow" "f3"

reregister_all_lem_example : reregister_all willing running ≡ record running {
  srv_registered = true;
  reregister = false;
  events =
      (([] ++ named willing "srv_unregister" [] ∷ srv_register willing none none ∷ [])
        ++ map (resource_call willing) (entries running.resources))
      ++ map (control_call willing) (entries []);
}
reregister_all_lem_example = reregister_all_lem willing (λ _. refl) running refl

-- the call that registers the resource raises
abbrev failing : Peer
failing = record willing { answer = λ es. if eqb (length es) 3 then raised else answered (int 0) }

keeps_asking : (reregister_all failing running).reregister ≡ true
unfolding reregister_all unregister_service register_service connected on_unregister on_register
    register_all say_all resource_calls resource_calls_of is_success
keeps_asking = refl
