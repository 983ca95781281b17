-- ===== src/Tests/Listeners.antt =====
-- A listener of multicast DNS at concrete events (nmoscommon/mdns/mdnsListener.py).
use nmos_common.Common.{◌+◌, ◌≤◌, ◌≡◌, refl, false, none, some, [], ◌∷◌}
use nmos_common.Common.Dict.{get, put, remove}
use nmos_common.Mdns.Listener.{
  Found, Notice, appears, vanishes, Listener, new_listener, add_service, call_remove_service,
  advance, put_back, waiting, looking, storing, creating, removing, telling, Reach, new, next, adds,
  removes, runs,
}
use nmos_common.Mdns.Counted.{told_or_due, there}
use nmos_common.Mdns.Listened.{Reach-told_or_due}

abbrev found : Found
found = record {
  type = "_nmos-node._tcp.local.";
  name = "node._nmos-node._tcp.local.";
  port = 80;
  server = "host.local";
  address = "10.0.0.1";
  properties = [];
}

abbrev appeared : Notice
appeared = record { change = appears; found = found }

abbrev vanished : Notice
vanished = record { change = vanishes; found = found }

-- a service is looked up, and its record is written; the client is not told yet
abbrev s₁ : Listener
s₁ = add_service found.type found.name new_listener

abbrev s₂ : Listener
s₂ = put_back [] [] (advance false waiting none s₁)

abbrev s₃ : Listener
s₃ = put_back [] [] (advance false (looking found.type found.name) (some found) s₂)

abbrev s₄ : Listener
s₄ = put_back [] [] (advance false (storing found.type found.name found) none s₃)

abbrev s₅ : Listener
s₅ = put_back [] [] (advance false (creating found.type found.name found) none s₄)

abbrev s₆ : Listener
s₆ = put_back [] [] (advance false (storing found.type found.name found) none s₅)

-- zeroconf removes it, and its thread is the first to call the client
abbrev s₇ : Listener
s₇ = call_remove_service found.type found.name s₆

abbrev s₈ : Listener
s₈ = put_back [] (telling appeared ∷ []) (advance false (removing found.type found.name) none s₇)

abbrev s₉ : Listener
s₉ = put_back [] (telling appeared ∷ []) (advance false (telling vanished) none s₈)

abbrev s₁₀ : Listener
s₁₀ = put_back [] [] (advance false (telling appeared) none s₉)

-- the client is told of the removal before the addition
in_wrong_order : s₁₀.heard ≡ vanished ∷ appeared ∷ []
unfolding new_listener add_service call_remove_service advance get put remove
in_wrong_order = refl

all_reached : Reach false s₁₀
unfolding new_listener add_service call_remove_service advance get put remove
all_reached =
    let r₁ : Reach false s₁ = next new (adds found.type found.name) in
    let r₂ : Reach false s₂ = next r₁ (runs [] waiting [] none refl tt) in
    let r₃ : Reach false s₃ =
      next r₂ (runs [] (looking found.type found.name) [] (some found) refl (refl, refl)) in
    let r₄ : Reach false s₄ =
      next r₃ (runs [] (storing found.type found.name found) [] none refl tt) in
    let r₅ : Reach false s₅ =
      next r₄ (runs [] (creating found.type found.name found) [] none refl tt) in
    let r₆ : Reach false s₆ =
      next r₅ (runs [] (storing found.type found.name found) [] none refl tt) in
    let r₇ : Reach false s₇ = next r₆ (removes found.type found.name) in
    let r₈ : Reach false s₈ =
      next r₇ (runs [] (removing found.type found.name) (telling appeared ∷ []) none refl tt) in
    let r₉ : Reach false s₉ =
      next r₈ (runs [] (telling vanished) (telling appeared ∷ []) none refl tt) in
    next r₉ (runs [] (telling appeared) [] none refl tt)

Reach-told_or_due_example :
    told_or_due found.type found.name vanishes s₁₀ + there found.type found.name s₁₀.records
    ≤ told_or_due found.type found.name appears s₁₀
Reach-told_or_due_example = Reach-told_or_due false s₁₀ found.type found.name all_reached
