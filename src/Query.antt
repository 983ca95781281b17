-- ===== src/Query.antt =====
-- nmoscommon/query.py, class QueryService: the client of a query service. The bridge's `getHref` for
-- the service type and priority, and the network, are parameters; `sent` is every GET made so far.
pub mod Fetches
pub mod Services
pub mod Subscribe
pub mod Events
use nmos_common.Common.{
  ℕ, zero, suc, String, Bool, true, false, Option, none, some, List, [], ◌∷◌, ◌++◌, ◌<>◌, ◌==◌,
  ◌&&◌, codes, leb, eqb, keep_if, if◌then◌else◌,
}
use nmos_common.Common.Dict.{Dict}
use nmos_common.Common.Json.{Json}
use nmos_common.Auth.Claims.{is_inside}

pub record Service : Type 0 where
  pub type : Option String
  pub attrs : Dict Json

pub record Node : Type 0 where
  pub id : String
  pub services : Option (List Service)

-- an exception, or a response with the nodes of its body
pub data Reply : Type 0 where
  failed : Reply
  reply : (status : ℕ) → List Node → Reply

pub record World (H : Type 0) : Type 0 where
  pub net : List String → Reply
  pub get_href : H → String × H
  pub apiversion : String

pub record QueryService (H : Type 0) : Type 0 where
  pub query_url : String
  pub host : H
  pub sent : List String

pub data Fetched : Type 0 where
  response : ℕ → List Node → Fetched
  not_found : Fetched

-- `"fe80:" in url`
unfoldable pub is_link_local : String → Bool
is_link_local url = is_inside (codes "fe80:") (codes url)

-- a response that `raise_for_status` lets pass
unfoldable pub is_fine : ℕ → Bool
is_fine status = if leb 400 status then leb 600 status else true

unfoldable pub accept : Reply → Fetched
accept failed = not_found
accept (reply status nodes) = if is_fine status then response status nodes else not_found

module _ {H : Type 0} (w : World H) where
  -- the loop of `__init__`, which ends after 21 more addresses
  unfoldable pub find_url : ℕ → String × H → String × H
  find_url zero found = found
  find_url (suc n) (url, host) =
      let again = find_url n (w.get_href host) in if is_link_local url then again else (url, host)

  unfoldable pub init : H → QueryService H
  init host =
      let (url, host') = find_url 21 (w.get_href host) in
      record { query_url = url; host = host'; sent = [] }

  abbrev pub full_url : String → String → String
  full_url query_url url = query_url <> "/x-nmos/query/" <> w.apiversion <> url

  unfoldable pub sending : String → QueryService H → QueryService H
  sending url s = record s { sent = s.sent ++ full_url s.query_url url ∷ [] }

  unfoldable pub find_next : QueryService H → QueryService H
  find_next s = let (url, host) = w.get_href s.host in record s { query_url = url; host = host }

  -- the rounds of `_get_query` that are left, after the present one
  unfoldable pub try_query : ℕ → String → QueryService H → Fetched × QueryService H
  try_query zero url s = let s' = sending url s in (accept (w.net s'.sent), s')
  try_query (suc n) url s =
      let s' = sending url s in
      let later = try_query n url (find_next s') in
      elim (accept (w.net s'.sent)) [
        | response status nodes ↦ (response status nodes, s')
        | not_found ↦ later
      ]

  unfoldable pub get_query : String → QueryService H → Fetched × QueryService H
  get_query = try_query 2

abbrev pub services_of : Option (List Service) → List Service
services_of none = []
services_of (some l) = l

abbrev pub is_node : Option String → Node → Bool
is_node none node = true
is_node (some id) node = node.id == id

unfoldable pub all_services : Option String → List Node → List Service
all_services node_id [] = []
all_services node_id (node ∷ nodes) =
    (if is_node node_id node then services_of node.services else []) ++ all_services node_id nodes

-- `s.get('type', 'unknown') == service_urn`
unfoldable pub has_type : String → Service → Bool
has_type urn s = elim s.type [ none ↦ "unknown" == urn | some t ↦ t == urn ]

-- `none` is a QueryNotFoundError
unfoldable pub found_services : String → Option String → Fetched → Option (List Service)
found_services urn node_id not_found = none
found_services urn node_id (response status nodes) =
    if eqb status 200 then some (keep_if (has_type urn) (all_services node_id nodes)) else some []

unfoldable pub get_services :
    {H : Type 0}
    → World H
    → String
    → Option String
    → QueryService H
    → Option (List Service) × QueryService H
get_services w urn node_id s =
    let (fetched, s') = get_query w "/nodes/" s in (found_services urn node_id fetched, s')
