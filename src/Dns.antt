-- ===== src/Dns.antt =====
-- Unicast DNS service discovery (nmoscommon/mdns/dnsUtils.py). `Resolver` is what the resolver and
-- the host lookup answer at the time of a call.
pub mod Record
pub mod Controller
pub mod Replay
pub mod Tracks
pub mod Schedule
use nmos_common.Common.{
  String, Bool, true, false, Option, none, some, List, [], ◌∷◌, ◌<>◌, ◌==◌, ℕ, if◌then◌else◌,
}
use nmos_common.Common.Exec.{Result, ok, err}

-- the two exceptions of the package, and any other one
pub data DnsExn : Type 0 where
  record_not_found no_default_domain other : DnsExn

-- an answer has at least one record; NXDOMAIN; another exception of the resolver
pub data Lookup (A : Type 0) : Type 0 where
  found : A → List A → Lookup A
  nxdomain trouble : Lookup A

-- a TXT record with the time to live of its set
pub record TxtRecord : Type 0 where
  pub ttl : ℕ
  pub text : String

-- `search` is the resolver's list of search domains
pub record Resolver : Type 0 where
  pub ptr : String → Lookup String
  pub srv : String → Lookup String
  pub txt : String → Lookup TxtRecord
  pub search : List String
  pub gethostbyname : List ℕ → Option String

-- `_defaultDomain`
unfoldable pub default_domain : Resolver → Result DnsExn String
default_domain r = elim r.search [ [] ↦ err no_default_domain | domain ∷ _ ↦ ok domain ]

unfoldable pub append_domain : String → String → String
append_domain record_name domain = record_name <> "." <> domain

-- the answers of a query, all of them
unfoldable pub answers : {A : Type 0} → Lookup A → Result DnsExn (A × List A)
answers (found a l) = ok (a, l)
answers nxdomain = err record_not_found
answers trouble = err other

-- the domain that a request is made in; an empty one counts as none
unfoldable pub domain_of : Resolver → Option String → Result DnsExn String
domain_of r none = default_domain r
domain_of r (some domain) = if domain == "" then default_domain r else ok domain

-- `_dnsRequest` for a PTR record in a domain
unfoldable pub ptr_request :
    Resolver → String → Option String → Result DnsExn (String × List String)
ptr_request r name domain = elim (domain_of r domain) [
  | err e ↦ err e
  | ok d ↦ answers (r.ptr (append_domain name d))
]

unfoldable pub check_dns_sd_active : Resolver → Option String → Result DnsExn Bool
check_dns_sd_active r domain = elim (ptr_request r "lb._dns-sd._udp" domain) [
  | ok _ ↦ ok true
  | err record_not_found ↦ ok false
  | err no_default_domain ↦ err no_default_domain
  | err other ↦ err other
]

unfoldable pub get_service_types : Resolver → Option String → Result DnsExn (String × List String)
get_service_types r domain = ptr_request r "_services._dns-sd._udp" domain

unfoldable pub discover_service :
    Resolver → String → Option String → Result DnsExn (String × List String)
discover_service r reg_type domain = ptr_request r reg_type domain

unfoldable pub get_txt_record : Resolver → String → Result DnsExn (TxtRecord × List TxtRecord)
get_txt_record r service = answers (r.txt service)

unfoldable pub get_srv_record : Resolver → String → Result DnsExn (String × List String)
get_srv_record r service = answers (r.srv service)
