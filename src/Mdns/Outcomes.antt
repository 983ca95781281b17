-- ===== src/Mdns/Outcomes.antt =====
-- What a client of the engine is told about its registration, and what the controller holds then
-- (nmoscommon/mdns/mdnsEngine.py).
use nmos_common.Common.{
  Option, none, some, if◌then◌else◌, ap, ◌∙◌, ◌==◌, ◌&&◌, arith, String, ◌≡◌, ◌≢◌, refl, Bool, true,
  false, List, [], ◌∷◌, ◌++◌, inl, inr, Bool-cases,
}
use nmos_common.Common.Dict.{get_in, get_in-put, get-put, put}
use nmos_common.Common.Exec.{Result, ok, err}
use nmos_common.Mdns.{
  Live, register_service, announce, info_for, register, keep, World, MdnsExn, already_exists,
  not_found, non_unique, zeroconf_error, interface_not_found, key_error, no_interfaces,
  lookup_error, Registration, Controller, undotted, is_registered, new_registration,
  add_registration,
}
use nmos_common.Mdns.Announced.{add_registration_lem, found_dict, found_reg}
use nmos_common.Mdns.Engine.{
  add_interfaces, Action, established, Message, Engine, Request, notify, add_handling_errors,
  registered_on, register_with, got_interfaces, get_interfaces, with_interfaces, start, autostart,
  when_started, action_of,
}

abbrev pub message_of : Request → Action → Message
message_of q a = record {
  action = a;
  name = q.name;
  regtype = q.regtype;
  port = q.port;
  txt_record = q.txt_record;
}

distinct : (r : Result MdnsExn (Unit {0})) → r ≡ ok tt → r ≢ err already_exists
distinct r h k = cc

module _ (w : World) (reg : Registration) (c : Controller) where
  already :
      is_registered reg.name reg.regtype c.registrations ≡ true
      → (add_registration w reg c).0 ≡ err already_exists
  unfolding add_registration
  already h = rw h refl

  was_new :
      (add_registration w reg c).0 ≡ ok tt
      → is_registered reg.name reg.regtype c.registrations ≡ false
  was_new h = elim (Bool-cases (is_registered reg.name reg.regtype c.registrations)) [
    | inr new ↦ new
    | inl old ↦ absurd (distinct _ h (already old))
  ]

  is_listed :
      (add_registration w reg c).0 ≡ ok tt
      → is_registered reg.name reg.regtype (add_registration w reg c).1.registrations ≡ true
  is_listed h =
      rw (add_registration_lem w reg c (was_new h) h, found_dict w reg c, found_reg w reg c) refl

-- the loop of a registration changes neither its name nor its type
announce_kept :
    (w : World) (ips : List String) (s : Live)
    → ((announce w ips s).1.reg.name ≡ s.reg.name)
      × ((announce w ips s).1.reg.regtype ≡ s.reg.regtype)
unfolding announce info_for
announce_kept w [] s = (refl, refl)
announce_kept w (ip ∷ ips) s =
    let i = info_for s.reg ip in
    let s' : Live = record {
      reg = record s.reg { info = put ip i s.reg.info };
      calls = s.calls ++ register_service i ∷ [];
    } in
    ground (arith, announce_kept w ips s')

-- every other registration is as it was
add_frame :
    (w : World) (reg : Registration) (c : Controller) (t n : String)
    → (reg.regtype == t && reg.name == n) ≡ false
    → get_in t n (add_registration w reg c).1.registrations ≡ get_in t n c.registrations
unfolding add_registration keep register
add_frame w reg c t n other =
    elim (Bool-cases (is_registered reg.name reg.regtype c.registrations)) [
      | inl old ↦ rw old refl
      | inr new ↦
          let end : Live = (announce w reg.interfaces (record { reg = reg; calls = c.calls })).1 in
          let kept = announce_kept w reg.interfaces (record { reg = reg; calls = c.calls }) in
          let same : (end.reg.regtype == t && end.reg.name == n) ≡ false =
            rw (kept.0, kept.1) other in
          rw new (
            get_in-put end.reg.regtype end.reg.name (some end.reg) _ c.registrations
              (λ b. get-put end.reg.name b end.reg _) t n
            ∙ ap (λ b. if b then some end.reg else get_in t n c.registrations) same)
    ]

framed : {A : Type 0} (b : Bool) (x y : A) → (b ≡ false → x ≡ y) → x ≡ (if b then x else y)
framed true x y h = refl
framed false x y h = h refl

abbrev name_taken : Request → Engine → Bool
name_taken q e = is_registered (undotted q.name) q.regtype e.controller.registrations

module _ (w : World) (q : Request) where
  -- an established registration is new, and is there
  abbrev pub Stands : Engine → Engine → Action → Type 0
  Stands e e' established = (name_taken q e ≡ false) × (name_taken q e' ≡ true)
  Stands e e' _ = Unit

  -- what was told, where the registration then stands, and that all others are as they were
  abbrev pub Told : Engine → Engine → Type 0
  Told e e' =
      (a : Action) × (e'.heard ≡ e.heard ++ message_of q a ∷ [])
      × Stands e e' a
      × ((t n : String)
          → get_in t n e'.controller.registrations ≡ (
              if q.regtype == t && undotted q.name == n
              then get_in t n e'.controller.registrations
              else get_in t n e.controller.registrations))

  standing :
      (e e' : Engine) (r : Result MdnsExn (Unit {0}))
      → (r ≡ ok tt → (name_taken q e ≡ false) × (name_taken q e' ≡ true))
      → Stands e e' (action_of r)
  standing e e' (ok _) h = h refl
  standing e e' (err already_exists) h = tt
  standing e e' (err not_found) h = tt
  standing e e' (err non_unique) h = tt
  standing e e' (err zeroconf_error) h = tt
  standing e e' (err interface_not_found) h = tt
  standing e e' (err key_error) h = tt
  standing e e' (err no_interfaces) h = tt
  standing e e' (err lookup_error) h = tt

  add-Told :
      (interfaces : List String) (e : Engine)
      → q.has_callback ≡ true
      → Told e (
          add_handling_errors w q
            (new_registration w interfaces q.name q.regtype q.port q.txt_record)
            e)
  unfolding add_handling_errors notify new_registration
  add-Told interfaces e h =
      let reg = new_registration w interfaces q.name q.regtype q.port q.txt_record in
      let r = (add_registration w reg e.controller).0 in
      rw h (
        action_of r,
        refl,
        standing e (record e { controller = (add_registration w reg e.controller).1 }) r
            (λ done. (was_new w reg e.controller done, is_listed w reg e.controller done)),
        λ t n. framed _ _ _ (add_frame w reg e.controller t n),
      )

  registered_on-Told :
      (r : Result MdnsExn (List String)) (e : Engine)
      → q.has_callback ≡ true
      → Told e (registered_on w q (r, e))
  unfolding notify
  registered_on-Told (ok interfaces) e h = add-Told interfaces e h
  registered_on-Told (err x) e h = rw h (Action.failed, refl, tt, λ t n. framed _ _ _ (λ _. refl))

  -- looking for interfaces changes nothing that a client is told of
  got_interfaces-Told :
      (ips : List String) (r : Result MdnsExn (Unit {0}) × List String) (e : Engine)
      → q.has_callback ≡ true
      → Told e (registered_on w q (got_interfaces ips r e))
  got_interfaces-Told ips (ok _, interfaces) e h =
      registered_on-Told (ok ips) (record e { interfaces = interfaces }) h
  got_interfaces-Told ips (err x, interfaces) e h =
      registered_on-Told (err x) (record e { interfaces = interfaces }) h

  get_interfaces-Told :
      (ips : List String) (e : Engine)
      → q.has_callback ≡ true
      → Told e (registered_on w q (get_interfaces w ips e))
  unfolding get_interfaces
  get_interfaces-Told [] e h = registered_on-Told (ok e.default_interfaces) e h
  get_interfaces-Told (ip ∷ ips) e h =
      got_interfaces-Told (ip ∷ ips) (add_interfaces w (ip ∷ ips) e.interfaces) e h

  -- starting the engine tells no client anything
  with_interfaces-heard :
      (ips : Option (List String)) (opened : Result MdnsExn (Unit {0}) × List String) (e : Engine)
      → (with_interfaces ips opened e).1.heard ≡ e.heard
  with_interfaces-heard none opened e = refl
  with_interfaces-heard (some []) opened e = refl
  with_interfaces-heard (some (ip ∷ ips)) (err x, _) e = refl
  with_interfaces-heard (some (ip ∷ ips)) (ok _, _) e = refl

  if_running-heard :
      (b : Bool) (started : Result MdnsExn (Unit {0}) × Engine) (e : Engine)
      → started.1.heard ≡ e.heard
      → (if b then (ok tt, e) else started).1.heard ≡ e.heard
  if_running-heard true started e h = refl
  if_running-heard false started e h = h

  autostart-heard : (e : Engine) → (autostart w e).1.heard ≡ e.heard
  unfolding autostart start
  autostart-heard e = if_running-heard e.running (start w e) e (
      with_interfaces-heard w.default_ips _
        (record e { subscriptions = []; controller = record e.controller { registrations = [] } }))

  -- what a call of `register` comes to, by what starting the engine comes to
  abbrev pub Reports :
      Result MdnsExn (Unit {0}) × Engine → Result MdnsExn (Unit {0}) × Engine → Type 0
  Reports (err x, e) (r, e') = (r ≡ err x) × (e' ≡ e)
  Reports (ok _, e) (r, e') = (r ≡ ok tt) × Told e e'

  when_started-Reports :
      (started : Result MdnsExn (Unit {0}) × Engine)
      → q.has_callback ≡ true
      → Reports started (
          when_started started
            (λ e'. (ok tt, registered_on w q (get_interfaces w q.interface_ips e'))))
  when_started-Reports (err x, e) h = (refl, refl)
  when_started-Reports (ok _, e) h = (refl, get_interfaces-Told q.interface_ips e h)

  -- Where the engine runs or can be started, a client with a callback is called with exactly one
  -- message, which repeats its request, whatever becomes of the interfaces it asks for and the calls
  -- of zeroconf; it is told `established` only where no registration of that type and (undotted) name
  -- was there, and one is there then. Every other registration is as it was. Where starting the
  -- engine raises, `register` raises the same and does nothing more. Starting itself tells nobody
  -- anything.
  pub register_with-Told :
      (e : Engine)
      → q.has_callback ≡ true
      → Reports (autostart w e) (register_with w q e) × ((autostart w e).1.heard ≡ e.heard)
  unfolding register_with
  register_with-Told e h = (when_started-Reports (autostart w e) h, autostart-heard e)
