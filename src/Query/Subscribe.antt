-- ===== src/Query/Subscribe.antt =====
-- nmoscommon/query.py, subscribe_topic: a subscription is made with the query service, and the events
-- of the messages of its websocket are passed on. The POST, `json.loads` and the websocket package
-- are parameters.
use Prim.Native.Char.{code}
use Prim.Native.String.{String}
use nmos_common.Common.{
  is_some, ℕ, Bool, true, false, Option, none, some, List, [], ◌∷◌, ◌<>◌, ◌==◌, ◌||◌, ◌&&◌, codes,
  eqb, if◌then◌else◌,
}
use nmos_common.Common.Exec.{Result, ok, err}
use nmos_common.Common.Json.{null, Json, str, list, dict, Items, nil, item}
use nmos_common.Auth.Claims.{is_inside}
use nmos_common.Web.Resource.{get_field}
use nmos_common.Web.Routes.{rstrip_slash}

pub data SubscribeExn : Type 0 where
  bad_subscription request_error value_error type_error attribute_error assertion_error :
      SubscribeExn

-- what the POST comes to: a RequestException, or a status and the decoded body, if it decodes
pub data Posted : Type 0 where
  failed : Posted
  posted : (status : ℕ) → Option Json → Posted

pub record Subscription : Type 0 where
  pub href : String
  pub apiversion : String
  pub topic : String
  -- the URL, and the path in its body
  pub post : String → String → Posted

abbrev lstrip_slash : String → String
lstrip_slash String.[] = ""
lstrip_slash (String.◌∷◌ c s) =
    let rest = lstrip_slash s in if eqb (code c) b'/' then rest else String.◌∷◌ c s

-- `"/" + topic.strip("/")`
unfoldable pub resource_path : String → String
resource_path topic = "/" <> lstrip_slash (rstrip_slash topic)

unfoldable pub query_url : Subscription → String
query_url q = q.href <> "/x-nmos/query/" <> q.apiversion

abbrev holds : String → Items → Bool
holds x nil = false
holds x (item (str s) l) = s == x || holds x l
holds x (item _ l) = holds x l

abbrev pub required : Bool → Result SubscribeExn (Unit {0})
required true = ok tt
required false = err bad_subscription

-- `"ws_href" not in r_json`
unfoldable pub present : Json → Result SubscribeExn (Unit {0})
present (dict d) = required (is_some (get_field "ws_href" d))
present (list l) = required (holds "ws_href" l)
present (str s) = required (is_inside (codes "ws_href") (codes s))
present _ = err type_error

-- `r_json.get("ws_href")`
abbrev pub entry : Option Json → Json
entry none = null
entry (some v) = v

unfoldable pub ws_href : Json → Result SubscribeExn Json
ws_href (dict d) = ok (entry (get_field "ws_href" d))
ws_href _ = err attribute_error

abbrev pub starts_with : String → String → Bool
starts_with String.[] s = true
starts_with (String.◌∷◌ p ps) String.[] = false
starts_with (String.◌∷◌ p ps) (String.◌∷◌ c s) = eqb (code p) (code c) && starts_with ps s

-- `assert(query_url.startswith("http://"))`, between the two looks at the body
abbrev pub asserted : String → Json → Result SubscribeExn (Unit {0}) → Result SubscribeExn Json
asserted url body (err e) = err e
asserted url body (ok _) = if starts_with "http://" url then ws_href body else err assertion_error

abbrev pub answered : String → Posted → Result SubscribeExn Json
answered url failed = err request_error
answered url (posted status body) =
    if eqb status 200 || eqb status 201
    then elim body [ none ↦ err value_error | some v ↦ asserted url v (present v) ]
    else err bad_subscription

-- `subscribe_topic` up to the websocket: the address that is opened
unfoldable pub connect : Subscription → Result SubscribeExn Json
connect q =
    if q.href == ""
    then err bad_subscription
    else answered (query_url q) (q.post (query_url q <> "/subscriptions") (resource_path q.topic))

abbrev pub events_in : Items → List Json
events_in nil = []
events_in (item v l) = v ∷ events_in l

abbrev pub characters : String → List Json
characters String.[] = []
characters (String.◌∷◌ c s) = str (String.◌∷◌ c String.[]) ∷ characters s

-- what the loop of `_on_message` goes over: a dict is one event; none is a raise
unfoldable pub events_of : Json → Option (List Json)
events_of (dict d) = some (dict d ∷ [])
events_of (list l) = some (events_in l)
events_of (str s) = some (characters s)
events_of _ = none

abbrev pub inside : String → Option Json → Option Json
inside name (some (dict d)) = get_field name d
inside name _ = none

abbrev pub then_events : Option Json → Option (List Json)
then_events none = none
then_events (some v) = events_of v

-- the events of a message: `data["grain"]["data"]`
unfoldable pub message_events : Option Json → Option (List Json)
message_events message = then_events (inside "data" (inside "grain" message))

-- `on_event` acts on a state and tells whether it returns; what raises in a message is left to the
-- websocket package, which goes on with the next message
module _ {S : Type 0} (loads : String → Option Json) (on_event : Json → S → Bool × S) where
  unfoldable pub dispatch : List Json → S → S
  dispatch [] s = s
  dispatch (e ∷ events) s =
      let (returns, s') = on_event e s in
      let later = dispatch events s' in if returns then later else s'

  abbrev pub handle : Option (List Json) → S → S
  handle none s = s
  handle (some events) s = dispatch events s

  -- `_on_message`
  unfoldable pub on_message : String → S → S
  on_message message s = handle (message_events (loads message)) s

  unfoldable pub receive_all : List String → S → S
  receive_all [] s = s
  receive_all (m ∷ messages) s = receive_all messages (on_message m s)
