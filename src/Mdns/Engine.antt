-- ===== src/Mdns/Engine.antt =====
-- The engine's operations on registrations, and the messages to a client's callback
-- (nmoscommon/mdns/mdnsEngine.py, mdnsCallbackHandler.py, mdnsInterfaceController.py).
use nmos_common.Common.{
  ℕ, String, Bool, true, false, Option, none, some, List, [], ◌∷◌, ◌++◌, elem, ◌<>◌, if◌then◌else◌,
}
use nmos_common.Common.Dict.{Dict, get}
use nmos_common.Common.Exec.{Result, ok, err}
use nmos_common.Common.Json.{Json}
use nmos_common.Dns.Controller as Dns
use nmos_common.Mdns.{
  World, Controller, Registration, Live, MdnsExn, already_exists, not_found, non_unique,
  interface_not_found, no_interfaces, lookup_error, new_registration, conform_txt_record,
  add_registration, remove_registration, register, unregister, keep, close,
}

pub data Action : Type 0 where
  collision established failed : Action

-- `_buildMessage`
pub record Message : Type 0 where
  pub action : Action
  pub name : String
  pub regtype : String
  pub port : ℕ
  pub txt_record : Dict Json

-- what `callback_on_services` starts: a subscription to multicast DNS has a timer
pub record Subscription : Type 0 where
  pub regtype : String
  pub register_only : Bool
  pub timer : Bool

-- `interfaces` are the open ones; `heard` is what the callbacks of registrations were called with
pub record Engine : Type 0 where
  pub controller : Controller
  pub subscriptions : List Subscription
  pub dns_controllers : List (Dns.Config × Dns.Controller)
  pub interfaces : List String
  pub default_interfaces : List String
  pub running : Bool
  pub heard : List Message

pub record Request : Type 0 where
  pub name : String
  pub regtype : String
  pub port : ℕ
  pub txt_record : Dict Json
  pub has_callback : Bool
  pub interface_ips : List String

-- the three methods of the callback handler
unfoldable pub notify : Request → Action → Engine → Engine
notify q action e =
    let message : Message = record {
      action = action;
      name = q.name;
      regtype = q.regtype;
      port = q.port;
      txt_record = q.txt_record;
    } in
    if q.has_callback then record e { heard = e.heard ++ message ∷ [] } else e

-- `addInterface`: an interface is opened once
unfoldable pub add_interface : World → String → List String → Result MdnsExn (List String)
add_interface w ip interfaces =
    if elem ip interfaces
    then ok interfaces
    else if w.opens ip
    then ok (interfaces ++ ip ∷ [])
    else err interface_not_found

-- the loop of `getInterfaces`: those opened before one that cannot be stay open
unfoldable pub add_interfaces :
    World → List String → List String → Result MdnsExn (Unit {0}) × List String
add_interfaces w [] interfaces = (ok tt, interfaces)
add_interfaces w (ip ∷ ips) interfaces = elim (add_interface w ip interfaces) [
  | err e ↦ (err e, interfaces)
  | ok more ↦ add_interfaces w ips more
]

abbrev pub got_interfaces :
    List String
    → Result MdnsExn (Unit {0}) × List String
    → Engine
    → Result MdnsExn (List String) × Engine
got_interfaces ips (err x, interfaces) e = (err x, record e { interfaces = interfaces })
got_interfaces ips (ok _, interfaces) e = (ok ips, record e { interfaces = interfaces })

unfoldable pub get_interfaces : World → List String → Engine → Result MdnsExn (List String) × Engine
get_interfaces w [] e = (ok e.default_interfaces, e)
get_interfaces w (ip ∷ ips) e =
    got_interfaces (ip ∷ ips) (add_interfaces w (ip ∷ ips) e.interfaces) e

-- `_set_default_interfaces`, and the end of `start`; a controller that could not be made is not kept
abbrev pub with_interfaces :
    Option (List String)
    → Result MdnsExn (Unit {0}) × List String
    → Engine
    → Result MdnsExn (Unit {0}) × Engine
with_interfaces none opened e = (err lookup_error, e)
with_interfaces (some []) opened e = (err no_interfaces, e)
with_interfaces (some ips) (err x, _) e = (err x, e)
with_interfaces (some ips) (ok _, interfaces) e =
    (ok tt, record e { interfaces = interfaces; default_interfaces = ips; running = true })

abbrev or_none : Option (List String) → List String
or_none none = []
or_none (some ips) = ips

-- `start`, which makes the controllers one after the other; those of unicast DNS stay in the list
unfoldable pub start : World → Engine → Result MdnsExn (Unit {0}) × Engine
start w e =
    with_interfaces w.default_ips (add_interfaces w (or_none w.default_ips) [])
      (record e { subscriptions = []; controller = record e.controller { registrations = [] } })

-- `_autostart_if_required`
unfoldable pub autostart : World → Engine → Result MdnsExn (Unit {0}) × Engine
autostart w e = let started = start w e in if e.running then (ok tt, e) else started

abbrev pub when_started :
    Result MdnsExn (Unit {0}) × Engine
    → (Engine → Result MdnsExn (Unit {0}) × Engine)
    → Result MdnsExn (Unit {0}) × Engine
when_started (err x, e) f = (err x, e)
when_started (ok _, e) f = f e

-- the message that an outcome is told by; a `key_error` cannot come out of a registration
abbrev pub action_of : Result MdnsExn (Unit {0}) → Action
action_of (ok _) = established
action_of (err already_exists) = collision
action_of (err non_unique) = collision
action_of (err _) = failed

-- `_add_registration_handle_errors`
unfoldable pub add_handling_errors : World → Request → Registration → Engine → Engine
add_handling_errors w q reg e =
    let (r, c) = add_registration w reg e.controller in
    notify q (action_of r) (record e { controller = c })

abbrev pub registered_on : World → Request → Result MdnsExn (List String) × Engine → Engine
registered_on w q (err _, e) = notify q failed e
registered_on w q (ok interfaces, e) =
    add_handling_errors w q (new_registration w interfaces q.name q.regtype q.port q.txt_record) e

-- `register`, which raises only where the engine cannot be started
unfoldable pub register_with : World → Request → Engine → Result MdnsExn (Unit {0}) × Engine
register_with w q e =
    when_started (autostart w e)
      (λ e'. (ok tt, registered_on w q (get_interfaces w q.interface_ips e')))

-- `MDNSRegistration.update`, called with the name and type that it was found under
unfoldable pub update_registration :
    World → String → String → Option (Dict Json) → Live → Result MdnsExn (Unit {0}) × Live
update_registration w name regtype txt s =
    let txt' : Dict String = elim txt [
      | none ↦ s.reg.txt_record
      | some d ↦ conform_txt_record w d
    ] in
    let (r, s') =
      unregister
        (record s { reg = record s.reg { name = name; regtype = regtype; txt_record = txt' } }) in
    elim r [ err e ↦ (err e, s') | ok _ ↦ register w s' ]

unfoldable pub found_registration : String → String → Engine → Option Registration
found_registration name regtype e = elim (get regtype e.controller.registrations) [
  | none ↦ none
  | some d ↦ get name d
]

abbrev pub updated :
    World
    → String
    → String
    → Option (Dict Json)
    → Option Registration
    → Engine
    → Result MdnsExn (Unit {0}) × Engine
updated w name regtype txt none e = (err not_found, e)
updated w name regtype txt (some reg) e =
    let (r, s) =
      update_registration w name regtype txt (record { reg = reg; calls = e.controller.calls }) in
    (
      r,
      record e {
        controller = record {
          registrations = keep s.reg e.controller.registrations;
          calls = s.calls;
        };
      },
    )

unfoldable pub update :
    World → String → String → Option (Dict Json) → Engine → Result MdnsExn (Unit {0}) × Engine
update w name regtype txt e =
    when_started (autostart w e)
      (λ e'. updated w name regtype txt (found_registration name regtype e') e')

unfoldable pub unregister_from :
    World → String → String → Engine → Result MdnsExn (Unit {0}) × Engine
unregister_from w name regtype e = when_started (autostart w e) (λ e'.
    let (r, c) = remove_registration name regtype e'.controller in
    (r, record e' { controller = c }))

abbrev pub subscribed : Bool → String → Bool → Engine → Engine
subscribed false regtype register_only e = e
subscribed true regtype register_only e =
    let subscription : Subscription = record {
      regtype = regtype <> ".local.";
      register_only = register_only;
      timer = true;
    } in
    record e { subscriptions = e.subscriptions ++ subscription ∷ [] }

abbrev pub discovering : Bool → String → Bool → Option String → Engine → Engine
discovering false regtype register_only domain e = e
discovering true regtype register_only domain e =
    let cfg : Dns.Config = record {
      type = regtype;
      register_only = register_only;
      domain = domain;
    } in
    record e { dns_controllers = e.dns_controllers ++ (cfg, Dns.start Dns.init) ∷ [] }

-- `callback_on_services`, with the two settings of the configuration
unfoldable pub callback_on_services :
    World
    → Bool
    → Bool
    → String
    → Bool
    → Option String
    → Engine
    → Result MdnsExn (Unit {0}) × Engine
callback_on_services w mdns_discover dns_discover regtype register_only domain e =
    when_started (autostart w e) (λ e'. (
      ok tt,
      discovering dns_discover regtype register_only domain
          (subscribed mdns_discover regtype register_only e'),
    ))

unfoldable pub close_controllers :
    List (Dns.Config × Dns.Controller) → List (Dns.Config × Dns.Controller)
close_controllers [] = []
close_controllers ((cfg, c) ∷ controllers) = (cfg, Dns.close cfg c) ∷ close_controllers controllers

-- `close`, which a KeyError of the registrations ends
unfoldable pub close_engine : Engine → Result MdnsExn (Unit {0}) × Engine
close_engine e =
    let (r, c) = close e.controller in
    elim r [
      | err x ↦ (err x, record e { subscriptions = []; controller = c })
      | ok _ ↦ (
        ok tt,
        record e {
          subscriptions = [];
          controller = c;
          dns_controllers = close_controllers e.dns_controllers;
          running = false;
        },
      )
    ]
