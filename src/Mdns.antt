-- ===== src/Mdns.antt =====
-- Announcing services over multicast DNS (nmoscommon/mdns/mdnsRegistration.py and
-- mdnsRegistrationController.py). `calls` is every call made of zeroconf so far, the last one at the
-- end, and `World.zeroconf` what comes of it.
pub mod Engine
pub mod Announced
pub mod Outcomes
pub mod Listener
pub mod Counted
pub mod Listened
use Prim.Native.Char.{Char, code}
use Prim.Native.String
use nmos_common.Common.{
  ℕ, String, Bool, true, false, Option, none, some, List, [], ◌∷◌, ◌++◌, ◌<>◌, ◌==◌, eqb, length,
  if◌then◌else◌,
}
use nmos_common.Common.Dict.{Dict, get, put, remove, has, or_empty}
use nmos_common.Common.Exec.{Result, ok, err, Exec}
use nmos_common.Common.Json.{Json}

-- `zeroconf.ServiceInfo` for one interface
pub record Info : Type 0 where
  pub ip : String
  pub regtype : String
  pub name : String
  pub port : ℕ
  pub properties : Dict String

pub data Call : Type 0 where
  register_service unregister_service : Info → Call

-- `register_service` returns, or raises a NonUniqueNameException or another zeroconf.Error
pub data Answer : Type 0 where
  accepted not_unique failed : Answer

pub data MdnsExn : Type 0 where
  already_exists not_found non_unique zeroconf_error interface_not_found key_error no_interfaces
        lookup_error :
      MdnsExn

-- `opens` tells whether an interface can be opened, `default_ips` is what the InterfaceController finds
-- unless it raises,
-- and `as_text` is `str`
pub record World : Type 0 where
  pub zeroconf : List Call → Answer
  pub opens : String → Bool
  pub default_ips : Option (List String)
  pub as_text : Json → String

pub record Registration : Type 0 where
  pub name : String
  pub regtype : String
  pub port : ℕ
  pub txt_record : Dict String
  pub interfaces : List String
  pub info : Dict Info

abbrev pub Registrations : Type 0
Registrations = Dict (Dict Registration)

-- `s.replace(".", "-")`
unfoldable pub undotted : String → String
undotted String.[] = String.[]
undotted (String.◌∷◌ c s) = String.◌∷◌ (if eqb (code c) b'.' then "-" else c) (undotted s)

-- `_conformTxtRecord`
unfoldable pub conform_txt_record : World → Dict Json → Dict String
conform_txt_record w [] = []
conform_txt_record w ((key, value) ∷ d) = (key, w.as_text value) ∷ conform_txt_record w d

-- `MDNSRegistration.__init__`
unfoldable pub new_registration :
    World → List String → String → String → ℕ → Dict Json → Registration
new_registration w interfaces name regtype port txt_record = record {
  name = undotted name;
  regtype = regtype;
  port = port;
  txt_record = conform_txt_record w txt_record;
  interfaces = interfaces;
  info = [];
}

-- `_makeNamesUnique`
unfoldable pub unique_name : Registration → String → String
unique_name reg ip =
    if eqb (length reg.interfaces) 1 then reg.name else reg.name <> "_" <> undotted ip

unfoldable pub info_for : Registration → String → Info
info_for reg ip = record {
  ip = ip;
  regtype = reg.regtype <> ".local.";
  name = unique_name reg ip <> "." <> reg.regtype <> ".local.";
  port = reg.port;
  properties = reg.txt_record;
}

-- what a registration and the calls have come to
pub record Live : Type 0 where
  pub reg : Registration
  pub calls : List Call

abbrev pub M : Type 0
M = Live → Result MdnsExn (Unit {0}) × Live

module _ (w : World) where
  -- the loop of `register` over the interfaces
  unfoldable pub announce : List String → M
  announce [] s = (ok tt, s)
  announce (ip ∷ ips) s =
      let i = info_for s.reg ip in
      let s' : Live = record {
        reg = record s.reg { info = put ip i s.reg.info };
        calls = s.calls ++ register_service i ∷ [];
      } in
      let later = announce ips s' in
      elim (w.zeroconf s'.calls) [
        | accepted ↦ later
        | not_unique ↦ (err non_unique, s')
        | failed ↦ (err zeroconf_error, s')
      ]

  unfoldable pub register : M
  register s = announce s.reg.interfaces s

-- the loop of `unRegister`; an interface without an info is a KeyError
unfoldable pub withdraw : List String → M
withdraw [] s = (ok tt, s)
withdraw (ip ∷ ips) s = elim (get ip s.reg.info) [
  | none ↦ (err key_error, s)
  | some i ↦ withdraw ips (record s { calls = s.calls ++ unregister_service i ∷ [] })
]

unfoldable pub unregister : M
unregister s = withdraw s.reg.interfaces s

-- the controller's dict of dicts, and the calls
pub record Controller : Type 0 where
  pub registrations : Registrations
  pub calls : List Call

abbrev pub is_registered : String → String → Registrations → Bool
is_registered name regtype rs = has name (or_empty (get regtype rs))

-- the registration under its type and name
unfoldable pub keep : Registration → Registrations → Registrations
keep reg rs = put reg.regtype (put reg.name reg (or_empty (get reg.regtype rs))) rs

-- `addRegistration`: a registration that raises is kept all the same
unfoldable pub add_registration :
    World → Registration → Controller → Result MdnsExn (Unit {0}) × Controller
add_registration w reg c =
    let (r, s) = register w (record { reg = reg; calls = c.calls }) in
    if is_registered reg.name reg.regtype c.registrations
    then (err already_exists, c)
    else (r, record { registrations = keep s.reg c.registrations; calls = s.calls })

-- a type without registrations is dropped
abbrev pub tidy : String → Dict Registration → Registrations → Registrations
tidy regtype [] rs = remove regtype rs
tidy regtype (e ∷ d) rs = put regtype (e ∷ d) rs

abbrev pub removed :
    String
    → Dict Registration
    → Registrations
    → Result MdnsExn (Unit {0}) × Live
    → Result MdnsExn (Unit {0}) × Controller
removed regtype d rs (ok _, s) =
    (ok tt, record { registrations = tidy regtype d rs; calls = s.calls })
removed regtype d rs (err _, s) =
    (err not_found, record { registrations = put regtype d rs; calls = s.calls })

-- `self.registrations[regtype].pop(name)`, then what is done with it
abbrev pub removed_in :
    String
    → String
    → Dict Registration
    → Option Registration
    → Controller
    → Result MdnsExn (Unit {0}) × Controller
removed_in name regtype d none c = (err not_found, c)
removed_in name regtype d (some reg) c =
    removed regtype (remove name d) c.registrations
      (unregister (record { reg = reg; calls = c.calls }))

abbrev pub removed_from :
    String
    → String
    → Option (Dict Registration)
    → Controller
    → Result MdnsExn (Unit {0}) × Controller
removed_from name regtype none c = (err not_found, c)
removed_from name regtype (some d) c = removed_in name regtype d (get name d) c

-- `removeRegistration`
unfoldable pub remove_registration :
    String → String → Controller → Result MdnsExn (Unit {0}) × Controller
remove_registration name regtype c = removed_from name regtype (get regtype c.registrations) c

-- the loops of `close`, which a KeyError ends
unfoldable pub close_all : Dict Registration → List Call → Result MdnsExn (Unit {0}) × List Call
close_all [] calls = (ok tt, calls)
close_all ((_, reg) ∷ d) calls =
    let (r, s) = unregister (record { reg = reg; calls = calls }) in
    elim r [ err e ↦ (err e, s.calls) | ok _ ↦ close_all d s.calls ]

unfoldable pub close_types : Registrations → List Call → Result MdnsExn (Unit {0}) × List Call
close_types [] calls = (ok tt, calls)
close_types ((_, d) ∷ rs) calls =
    let (r, calls') = close_all d calls in
    elim r [ err e ↦ (err e, calls') | ok _ ↦ close_types rs calls' ]

unfoldable pub close : Controller → Result MdnsExn (Unit {0}) × Controller
close c =
    let (r, calls') = close_types c.registrations c.calls in
    elim r [
      | err e ↦ (err e, record c { calls = calls' })
      | ok _ ↦ (ok tt, record { registrations = []; calls = calls' })
    ]
