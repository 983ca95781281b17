-- ===== src/Dns/Controller.antt =====
-- The services of one type and the callbacks that keep them up to date
-- (nmoscommon/mdns/dnsServiceController.py, and the timer callback of dnsService.py). `timer` is
-- the interval in half seconds after which a check is scheduled, `heard` is what the client was told
-- so far.
use nmos_common.Common.{
  ℕ, String, Bool, true, false, Option, none, some, List, [], ◌∷◌, ◌++◌, ltb, ◌≡◌, if◌then◌else◌,
}
use nmos_common.Common.Dict.{Dict, get, put, remove, has}
use nmos_common.Common.Exec.{Result, ok, err, Exec, ◌>>◌, pure, modify}
use nmos_common.Dns.{
  Resolver, DnsExn, record_not_found, no_default_domain, other, check_dns_sd_active,
  discover_service,
}
use nmos_common.Dns.Record
use nmos_common.Dns.Record.{Service, Heard, new_service, initialise_from_dns, update_service}

pub record Config : Type 0 where
  pub type : String
  pub register_only : Bool
  pub domain : Option String

pub record Controller : Type 0 where
  pub services : Dict Service
  pub running : Bool
  pub timer : Option ℕ
  pub heard : List Heard

unfoldable pub init : Controller
init = record { services = []; running = false; timer = none; heard = [] }

-- the loop of `_findServiceRefreshInterval`, in half seconds: half of the shortest time to live
unfoldable pub shortest : ℕ → Dict Service → ℕ
shortest accumulator [] = accumulator
shortest accumulator ((_, s) ∷ services) =
    shortest (if ltb s.ttl accumulator then s.ttl else accumulator) services

unfoldable pub refresh_interval : Dict Service → ℕ
refresh_interval services = shortest 7200 services

unfoldable pub schedule_callback : Controller → Controller
schedule_callback c = record c {
  timer = some (if c.running then refresh_interval c.services else 2);
}

-- `start`; the first check comes after a second
unfoldable pub start : Controller → Controller
start c = record (schedule_callback c) { running = true }

-- the records of a search; none for two of the exceptions
abbrev pub or_none : Result DnsExn (String × List String) → Result DnsExn (List String)
or_none (ok (name, names)) = ok (name ∷ names)
or_none (err record_not_found) = ok []
or_none (err e) = err e

module _ (cfg : Config) where
  -- a service of a new name is kept and started
  unfoldable pub add_service : Service → Controller → Controller
  add_service s c =
      let (s', told) = Record.start cfg.type cfg.register_only s in
      if has s.name c.services
      then c
      else record c { services = put s.name s' c.services; heard = c.heard ++ told }

  -- `_removeServiceCallback`
  unfoldable pub remove_service : Service → Controller → Controller
  remove_service s c =
      let (_, told) = Record.close cfg.type cfg.register_only s in
      record c { services = remove s.name c.services; heard = c.heard ++ told }

  unfoldable pub close_services : Dict Service → Dict Service × List Heard
  close_services [] = ([], [])
  close_services ((name, s) ∷ services) =
      let (s', told) = Record.close cfg.type cfg.register_only s in
      let (services', more) = close_services services in ((name, s') ∷ services', told ++ more)

  unfoldable pub close : Controller → Controller
  close c =
      let (services', told) = close_services c.services in
      record c { services = services'; timer = none; heard = c.heard ++ told }

  abbrev pub populated : Result DnsExn (Unit {0}) × Service → Exec Controller DnsExn (Unit {0})
  populated (ok _, s) c = (ok tt, add_service s c)
  populated (err e, s) c = (err e, c)

  abbrev pub refreshed : Result DnsExn (Unit {0}) × Service → Controller → Controller
  refreshed (ok _, s) c = record c {
    services = put s.name (record s { timer = true }) c.services;
    heard = c.heard ++ update_service cfg.type cfg.register_only s;
  }
  refreshed (err record_not_found, s) c = remove_service s c
  refreshed (err _, s) c = record c { services = put s.name s c.services }

module _ (cfg : Config) (r : Resolver) where
  -- `_getDNSServices`
  unfoldable pub get_dns_services : Result DnsExn (List String)
  get_dns_services = elim (check_dns_sd_active r cfg.domain) [
    | ok true ↦ or_none (discover_service r cfg.type cfg.domain)
    | ok false ↦ ok []
    | err no_default_domain ↦ ok []
    | err record_not_found ↦ err record_not_found
    | err other ↦ err other
  ]

  -- `_populateServices`; the constructor of a service may raise
  unfoldable pub populate_services : List String → Exec Controller DnsExn (Unit {0})
  populate_services [] = pure tt
  populate_services (name ∷ names) = do populated cfg (new_service r name); populate_services names

  abbrev pub after_search : Result DnsExn (List String) → Exec Controller DnsExn (Unit {0})
  after_search (err e) c = (err e, c)
  after_search (ok names) c = (do populate_services names; modify schedule_callback) c

  -- `_checkForServiceUpdatesCallback`, which a timer calls that has run out
  unfoldable pub check_for_updates : Exec Controller DnsExn (Unit {0})
  check_for_updates c = after_search get_dns_services (record c { timer = none })

  -- `_ttlTimerCallback` of a service that is kept
  unfoldable pub ttl_callback : Service → Controller → Controller
  ttl_callback s c = refreshed cfg (initialise_from_dns r (record s { timer = false })) c

-- what may happen to a controller; a timer runs out only while it is set
pub data Step (cfg : Config) (c : Controller) : Controller → Type 0 where
  starts : Step cfg c (start c)
  checks :
      (r : Resolver) (interval : ℕ)
      → c.timer ≡ some interval
      → Step cfg c (check_for_updates cfg r c).1
  expires :
      (r : Resolver) (name : String) (s : Service)
      → get name c.services ≡ some s
      → s.running ≡ true
      → s.timer ≡ true
      → Step cfg c (ttl_callback cfg r s c)
  closes : Step cfg c (close cfg c)

pub data Reach (cfg : Config) : Controller → Type 0 where
  new : Reach cfg init
  next : {c d : Controller} → Reach cfg c → Step cfg c d → Reach cfg d
