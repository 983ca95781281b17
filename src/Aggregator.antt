-- ===== src/Aggregator.antt =====
-- nmoscommon/aggregator.py, class Aggregator: the proxy of a Registration API. `World` holds what
-- the network, the mDNS bridge and the interpreter would do; `sent` is every request made so far,
-- the last one at the end.
pub mod Mirror
pub mod Changes
pub mod Threads
pub mod Queue
pub mod Send
pub mod Refusal
pub mod Requeue
pub mod Order
pub mod Total
pub mod Accepted
pub mod Reach
use nmos_common.Common.{
  ℕ, String, Bool, true, false, Option, none, some, List, [], ◌∷◌, ◌++◌, ◌<>◌, ◌==◌, eqb, ◌/◌, ◌||◌,
  zero, suc, if◌then◌else◌,
}
use nmos_common.Common.Dict.{Dict, get, put}
use nmos_common.Common.Exec.{Exec, Result, ok, err, ◌>>=◌, ◌>>◌, pure, raise, modify, gets, try}
use nmos_common.Common.Json.{Json, str}
use nmos_common.Updater.{Updater, inc_p2p_enable_count, disable_p2p}

pub record Resource : Type 0 where
  pub type : String
  pub attrs : Dict Json

-- an entry of the request queue
pub record Item : Type 0 where
  pub method : String
  pub namespace : String
  pub res_type : String
  pub key : String

-- `requests.request(method, urljoin(base, path), data=json.dumps(body))`
pub record Request : Type 0 where
  pub method : String
  pub base : String
  pub path : String
  pub body : Option Resource

-- a RequestException, a `None`, or a status with the content and whether its type is JSON
pub data Reply : Type 0 where
  failed no_reply : Reply
  reply : (status : ℕ) (is_json : Bool) (content : String) → Reply

pub data Body : Type 0 where
  json content : String → Body
  nothing : Body

pub data Exn : Type 0 where
  no_aggregator too_many_retries key_error type_error : Exn
  invalid_request : ℕ → Exn

-- `net` answers the last of the requests; `discover` is `mdnsbridge.getHref` for the API's version
-- and protocol, on a bridge in a state of type `H`; `python3` says which `/` the code runs with.
pub record World (H : Type 0) : Type 0 where
  pub net : List Request → Reply
  pub discover : String → H → String × H
  pub api_version : String
  pub python3 : Bool

abbrev pub Entities : Type 0
Entities = Dict (Dict (Dict Resource))

pub record Aggregator (H : Type 0) : Type 0 where
  pub aggregator : String
  pub host : H
  pub sent : List Request
  pub updater : Option Updater
  pub node : Option Resource
  pub registered : Bool
  pub entities : Entities
  pub running : Bool
  pub queue : List Item

-- `R.status_code / 100 == 4`: true division on Python 3
unfoldable pub is_client_error : Bool → ℕ → Bool
is_client_error true status = eqb status 400
is_client_error false status = eqb (status / 100) 4

-- what the branches on a reply come to
pub data Verdict : Type 0 where
  returned : Body → Verdict
  refused : ℕ → Verdict
  unusable : Verdict

unfoldable pub judge : Bool → Reply → Verdict
unfolding is_client_error
judge python3 failed = unusable
judge python3 no_reply = unusable
judge python3 (reply status is_json text) =
    if eqb status 200 || eqb status 201
    then returned (if is_json then json text else content text)
    else if eqb status 204
    then returned nothing
    else if is_client_error python3 status
    then refused status
    else unusable

abbrev pub M : Type 0 → Type 0 → Type 0
M H A = Exec (Aggregator H) Exn A

-- `if self._mdns_updater is not None: …`
unfoldable pub updating : {H : Type 0} → (Updater → Updater) → Aggregator H → Aggregator H
updating f s = record s { updater = elim s.updater [ none ↦ none | some u ↦ some (f u) ] }

unfoldable pub set_registered : {H : Type 0} → Bool → Aggregator H → Aggregator H
set_registered b s = record s { registered = b }

-- the constructors of the three exceptions count towards peer-to-peer mode
unfoldable pub raise_counted : {H A : Type 0} → Exn → M H A
unfolding updating
raise_counted e s = (err e, updating inc_p2p_enable_count s)

module _ {H : Type 0} (w : World H) where
  unfoldable pub get_api_href : H → String × H
  get_api_href host =
      let (href, host') = w.discover "nmos-register" host in
      if href == "" then w.discover "nmos-registration" host' else (href, host')

  unfoldable pub find_aggregator : Aggregator H → Aggregator H
  unfolding get_api_href
  find_aggregator s =
      let (href, host) = get_api_href s.host in record s { aggregator = href; host = host }

  -- the loop of `_SEND`, with the tries that are left
  unfoldable pub try_send : ℕ → String → String → Option Resource → M H Body
  unfolding judge raise_counted find_aggregator
  try_send zero method path body s = raise_counted too_many_retries s
  try_send (suc n) method path body s =
      let sending = record s {
        sent =
            s.sent
            ++ record { method = method; base = s.aggregator; path = path; body = body } ∷ [];
      } in
      let outcome : Result Exn Body × Aggregator H = elim (judge w.python3 (w.net sending.sent)) [
        | returned b ↦ (ok b, sending)
        | refused status ↦ raise_counted (invalid_request status) sending
        | unusable ↦ try_send n method path body (find_aggregator sending)
      ] in
      if s.aggregator == "" then raise_counted no_aggregator s else outcome

  abbrev pub api_path : String → String
  api_path url = "x-nmos/registration/" <> w.api_version <> url

  unfoldable pub send : String → String → Option Resource → M H Body
  send method url body s =
      try_send 3 method (api_path url) body (if s.aggregator == "" then find_aggregator s else s)

-- `self._registered["node"]["data"]["id"]`, put behind a text
abbrev pub as_text : Json → Result Exn String
as_text (str s) = ok s
as_text _ = err type_error

unfoldable pub node_id : {H : Type 0} → M H String
node_id s = elim s.node [
  | none ↦ (err type_error, s)
  | some node ↦ elim (get "id" node.attrs) [ none ↦ (err key_error, s) | some j ↦ (as_text j, s) ]
]
