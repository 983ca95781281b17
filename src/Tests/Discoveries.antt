-- ===== src/Tests/Discoveries.antt =====
-- Discovery over DNS at concrete answers (nmoscommon/mdns/).
use nmos_common.Common.{◌≡◌, refl, true, false, some, [], String}
use nmos_common.Dns.{
  check_dns_sd_active, ptr_request, domain_of, answers, discover_service, get_srv_record,
  get_txt_record, append_domain, default_domain, Resolver, Lookup, TxtRecord, found, nxdomain,
}
use nmos_common.Common.Dict.{get, put}
use nmos_common.Common.Exec.{◌>>=◌}
use nmos_common.Dns.Record
use nmos_common.Dns.Record.{
  new_service, initialise_from_dns, make_txt_dict, txt_dict, split, add_listener, lift,
  parse_srv_record, put_text, remove_trailing_dot, tell, to_number, txt_entry,
}
use nmos_common.Dns.Controller.{
  refresh_interval, get_dns_services, populate_services, add_service, schedule_callback, Config,
  Controller, init, start, check_for_updates, new, next, starts, checks,
}
use nmos_common.Dns.Schedule.{next_timer, IsLeast, check_for_updates_timer}
use nmos_common.Dns.Tracks.{knows, runs, Reach-knows}

abbrev cfg : Config
cfg = record { type = "_nmos-register._tcp"; register_only = false; domain = some "example.org" }

-- one service
abbrev resolver : Resolver
resolver = record {
  ptr = λ name. found "reg._nmos-register._tcp.example.org." [];
  srv = λ name. found "0 0 8080 host.example.org." [];
  txt = λ name. found (record { ttl = 60; text = "\"pri=10\"" }) [];
  search = [];
  gethostbyname = λ host. some "10.0.0.9";
}

abbrev checked : Controller
checked = (check_for_updates cfg resolver (start init)).1

abbrev service_name : String
service_name = "reg._nmos-register._tcp.example.org."

first_check : (start init).timer ≡ some 2
unfolding start init schedule_callback
first_check = refl

Reach-knows_example : knows checked.heard service_name ≡ runs service_name checked.services
Reach-knows_example =
    Reach-knows cfg checked service_name refl
      (next (next new starts) (checks resolver 2 first_check))

service_runs : runs service_name checked.services ≡ true
unfolding get put check_for_updates get_dns_services populate_services add_service schedule_callback
    start init check_dns_sd_active ptr_request domain_of answers discover_service get_srv_record
    get_txt_record append_domain default_domain new_service initialise_from_dns make_txt_dict
    txt_dict split add_listener lift parse_srv_record put_text remove_trailing_dot
    nmos_common.Dns.Record.start tell to_number txt_entry ◌>>=◌
service_runs = refl

-- the pointer record leads nowhere
abbrev dangling : Resolver
dangling = record resolver { srv = λ name. nxdomain }

check_for_updates_timer_example :
    let end = check_for_updates cfg dangling (start init) in
    (end.1.timer ≡ next_timer end.0 end.1)
    × IsLeast 7200 (refresh_interval end.1.services) end.1.services
check_for_updates_timer_example = check_for_updates_timer cfg dangling (start init)
