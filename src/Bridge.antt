-- ===== src/Bridge.antt =====
-- nmoscommon/mdnsbridge.py, class IppmDNSBridge: the client of the mDNS bridge service. One call of
-- `getHref` makes at most one browse request, one request to a local query service and one random
-- choice; `Env` holds what these would answer.
pub mod Select
pub mod Href
pub mod Mode
use Prim.Native.Char.{code}
use nmos_common.Common.{
  ℕ, String, Bool, true, false, not, ◌&&◌, ◌||◌, Option, none, some, List, [], ◌∷◌, ◌++◌, ◌<>◌, ltb,
  leb, eqb, ◌==◌, elem, any, keep_if, get_elem?, length, if◌then◌else◌,
}
use nmos_common.Common.Dict.{Dict, get, put}

-- an entry of the bridge's "representation"; `port` is as `format` prints it
pub record Service : Type 0 where
  pub versions : List String
  pub protocol : String
  pub priority : ℕ
  pub hostname : Option String
  pub address : String
  pub port : String

-- the entries of the configuration that the class reads
pub record Config : Type 0 where
  pub priority : ℕ
  pub https_mode : String
  pub prefer_hostnames : Bool

pub record Bridge : Type 0 where
  pub services : Dict (List Service)
  pub config : Config

-- The bridge's answer to a browse request: no usable answer (an exception, or a status other than
-- 200), or its list. A reply that breaks off at a malformed entry acts as the list before it, since
-- the exception is caught after those entries were stored.
pub data Answer : Type 0 where
  unreachable : Answer
  listed : List Service → Answer

pub record Env : Type 0 where
  pub answer : Answer
  pub local_query : Bool
  -- `random.randint(0, n - 1)`, for n candidates
  pub pick : ℕ → ℕ

-- the two `continue` tests of both loops of `getHref`; `none` is an argument that was not given
unfoldable pub is_match : Option String → Option String → Service → Bool
is_match api_ver api_proto service =
    elim api_ver [ none ↦ true | some ver ↦ elem ver service.versions ]
    && elim api_proto [ none ↦ true | some proto ↦ proto == service.protocol ]

-- a service that makes a new request unnecessary
unfoldable pub is_usable : ℕ → Service → Bool
is_usable priority service =
    if leb 100 priority then eqb service.priority priority else ltb service.priority 100

-- entries whose protocol is that of the configured mode
unfoldable pub in_mode : Config → Service → Bool
in_mode config service =
    if config.https_mode == "enabled"
    then service.protocol == "https"
    else service.protocol == "http"

unfoldable pub update_services : String → Answer → Bridge → Bridge
update_services srv_type unreachable bridge = bridge
update_services srv_type (listed entries) bridge = record bridge {
  services = put srv_type (keep_if (in_mode bridge.config) entries) bridge.services;
}

unfoldable pub has_colon : String → Bool
has_colon String.[] = false
has_colon (String.◌∷◌ c s) = eqb (code c) b':' || has_colon s

unfoldable pub address_of : Config → Service → String
unfolding has_colon
address_of config service =
    let plain =
      if has_colon service.address then "[" <> service.address <> "]" else service.address in
    elim service.hostname [
      | none ↦ plain
      | some hostname ↦ if config.prefer_hostnames then hostname else plain
    ]

unfoldable pub create_href : Config → Service → String
create_href config service =
    service.protocol <> "://" <> address_of config service <> ":" <> service.port

-- The second loop: at 100 and above the first match is returned at once, below that the matches of
-- the lowest priority met so far are collected.
pub data Choice : Type 0 where
  direct : Service → Choice
  candidates : List Service → Choice

module _ (api_ver api_proto : Option String) where
  unfoldable pub no_results : ℕ → List Service → Bool
  unfolding is_match is_usable
  no_results priority services =
      not (any (λ s. is_match api_ver api_proto s && is_usable priority s) services)

  unfoldable pub first_direct : ℕ → List Service → Choice
  unfolding is_match
  first_direct priority [] = candidates []
  first_direct priority (s ∷ services) =
      let rest = first_direct priority services in
      if is_match api_ver api_proto s && eqb s.priority priority then direct s else rest

  unfoldable pub lowest : ℕ → List Service → List Service → List Service
  unfolding is_match
  lowest current valid [] = valid
  lowest current valid (s ∷ services) =
      let current' = if ltb s.priority current then s.priority else current in
      let valid' = if ltb s.priority current then [] else valid in
      let valid'' = if eqb s.priority current' then valid' ++ s ∷ [] else valid' in
      let matched = lowest current' valid'' services in
      let skipped = lowest current valid services in
      elim (is_match api_ver api_proto s) [ true ↦ matched | false ↦ skipped ]

  unfoldable pub choose : ℕ → List Service → Choice
  unfolding first_direct lowest
  choose priority services =
      if leb 100 priority
      then first_direct priority services
      else candidates (lowest 99 [] services)

texts_eq : List String → List String → Bool
texts_eq [] [] = true
texts_eq (a ∷ as') (b ∷ bs) = a == b && texts_eq as' bs
texts_eq _ _ = false

option_eq : Option String → Option String → Bool
option_eq none none = true
option_eq (some a) (some b) = a == b
option_eq _ _ = false

-- `==` on two entries
unfoldable pub service_eq : Service → Service → Bool
unfolding texts_eq option_eq
service_eq s t =
    texts_eq s.versions t.versions
    && s.protocol == t.protocol
    && eqb s.priority t.priority
    && option_eq s.hostname t.hostname
    && s.address == t.address
    && s.port == t.port

-- `services.remove(service)`: the first equal entry goes
unfoldable pub remove_first : Service → List Service → List Service
unfolding service_eq
remove_first s [] = []
remove_first s (t ∷ services) = if service_eq t s then services else t ∷ remove_first s services

abbrev pub listed_as : String → Bridge → List Service
listed_as srv_type bridge = elim (get srv_type bridge.services) [ none ↦ [] | some l ↦ l ]

-- `if srv_type not in self.services: self.services[srv_type] = []`
unfoldable pub ensure : String → Bridge → Bridge
ensure srv_type bridge = elim (get srv_type bridge.services) [
  | none ↦ record bridge { services = put srv_type [] bridge.services }
  | some _ ↦ bridge
]

abbrev pub local_query_url : String
local_query_url = "http://127.0.0.1/x-nmos/query/v1.0/"

-- what the end of `getHref` returns for a choice; `none` is an IndexError of `valid_services[index]`
unfoldable pub take_choice : String → Env → Choice → Bridge → Option String × Bridge
unfolding create_href remove_first
take_choice srv_type env (direct s) bridge = (some (create_href bridge.config s), bridge)
take_choice srv_type env (candidates []) bridge =
    (some (if srv_type == "nmos-query" && env.local_query then local_query_url else ""), bridge)
take_choice srv_type env (candidates (c ∷ cs)) bridge =
    elim (get_elem? (c ∷ cs) (env.pick (length (c ∷ cs)))) [
      | none ↦ (none, bridge)
      | some s ↦ (
        some (create_href bridge.config s),
        record bridge {
          services = put srv_type (remove_first s (listed_as srv_type bridge)) bridge.services;
        },
      )
    ]

-- The services that `getHref` chooses from: those at hand, or after a new request if none will do.
unfoldable pub refresh : String → ℕ → Option String → Option String → Env → Bridge → Bridge
unfolding no_results update_services ensure
refresh srv_type priority api_ver api_proto env bridge =
    let known = ensure srv_type bridge in
    if no_results api_ver api_proto priority (listed_as srv_type known)
    then update_services srv_type env.answer known
    else known

-- `if priority is None: priority = self.config["priority"]`
abbrev pub effective : Option ℕ → Bridge → ℕ
effective none bridge = bridge.config.priority
effective (some p) bridge = p

unfoldable pub get_href :
    String → Option ℕ → Option String → Option String → Env → Bridge → Option String × Bridge
unfolding choose take_choice refresh
get_href srv_type given api_ver api_proto env bridge =
    let priority = effective given bridge in
    let bridge' = refresh srv_type priority api_ver api_proto env bridge in
    take_choice srv_type env (choose api_ver api_proto priority (listed_as srv_type bridge'))
      bridge'
