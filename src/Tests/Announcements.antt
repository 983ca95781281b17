-- ===== src/Tests/Announcements.antt =====
-- Registrations at concrete interfaces (nmoscommon/mdns/).
use nmos_common.Common.{◌≡◌, ◌≢◌, refl, true, false, some, [], ◌∷◌, ◌++◌}
use nmos_common.Common.Dict.{get, put}
use nmos_common.Common.Exec.{ok, err}
use nmos_common.Mdns.{
  World, no_interfaces, conform_txt_record, new_registration, is_registered, accepted, Registration,
  Controller, announce, info_for, register, undotted, unique_name, add_registration,
  remove_registration,
}
use nmos_common.Mdns.Announced.{infos, registering, unregistering, remove-add_registration}
use nmos_common.Mdns.Engine.{
  Action, Engine, Request, start, autostart, register_with, add_interfaces, add_interface,
  get_interfaces, add_handling_errors, notify,
}
use nmos_common.Mdns.Outcomes.{Reports, message_of, register_with-Told}

abbrev open_world : World
open_world = record {
  zeroconf = λ calls. accepted;
  opens = λ ip. true;
  default_ips = some ("10.0.0.1" ∷ []);
  as_text = λ v. "10";
}

-- on two interfaces
abbrev reg : Registration
reg = record {
  name = "node";
  regtype = "_nmos-node._tcp";
  port = 80;
  txt_record = [];
  interfaces = "10.0.0.1" ∷ "10.0.0.2" ∷ [];
  info = [];
}

abbrev empty : Controller
empty = record { registrations = []; calls = [] }

accepted_twice : (add_registration open_world reg empty).0 ≡ ok tt
unfolding get put add_registration register announce info_for unique_name undotted
accepted_twice = refl

none_kept : get reg.regtype empty.registrations ≢ some []
unfolding get
none_kept h = cc

not_there : is_registered reg.name reg.regtype empty.registrations ≡ false
unfolding get
not_there = refl

remove-add_registration_example :
    remove_registration reg.name reg.regtype (add_registration open_world reg empty).1 ≡ (
      ok tt,
      record {
        registrations = empty.registrations;
        calls =
            (empty.calls ++ registering (infos reg reg.interfaces))
            ++ unregistering (infos reg reg.interfaces);
      },
    )
remove-add_registration_example =
    remove-add_registration open_world reg empty not_there none_kept accepted_twice

abbrev idle : Engine
idle = record {
  controller = empty;
  subscriptions = [];
  dns_controllers = [];
  interfaces = [];
  default_interfaces = [];
  running = false;
  heard = [];
}

abbrev request : Request
request = record {
  name = "node.1";
  regtype = "_nmos-node._tcp";
  port = 80;
  txt_record = [];
  has_callback = true;
  interface_ips = [];
}

register_with-Told_example :
    Reports open_world request (autostart open_world idle) (register_with open_world request idle)
    × ((autostart open_world idle).1.heard ≡ idle.heard)
register_with-Told_example = register_with-Told open_world request idle refl

told_once :
    (register_with open_world request idle).1.heard ≡ message_of request Action.established ∷ []
unfolding get put register_with autostart start add_interfaces add_interface get_interfaces
    add_handling_errors notify add_registration register announce info_for unique_name undotted
    new_registration conform_txt_record
told_once = refl

-- on a machine without interfaces nothing is told
no_network :
    register_with (record open_world { default_ips = some [] }) request idle
    ≡ (err no_interfaces, idle)
unfolding register_with autostart start
no_network = refl
