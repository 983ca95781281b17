-- ===== src/Tests/Subscribed.antt =====
-- A subscription at concrete messages (nmoscommon/query.py, subscribe_topic).
use Prim.Native.String.{String}
use nmos_common.Common.{
  ℕ, ◌+◌, ◌≡◌, refl, Bool, true, Option, none, some, List, [], ◌∷◌, ◌==◌, if◌then◌else◌,
}
use nmos_common.Common.Exec.{ok, err}
use nmos_common.Common.Json.{Json, str, int, dict, list, nil, item, end, field}
use nmos_common.Web.Resource.{get_field}
use nmos_common.Web.Routes.{rstrip_slash}
use nmos_common.Query.Subscribe.{
  Subscription, posted, assertion_error, connect, query_url, resource_path, present, ws_href,
  receive_all, on_message, dispatch, message_events, events_of,
}
use nmos_common.Query.Events.{
  tell, texts, all_events, items_of, no_json, one, several, receive_all-tell,
}

abbrev offered : Json
offered = dict (field "ws_href" (str "ws://10.0.0.4/ws") end)

abbrev subscription : Subscription
subscription = record {
  href = "http://10.0.0.4";
  apiversion = "v1.2";
  topic = "/flows/";
  post = λ url path. if path == "/flows" then posted 201 (some offered) else posted 400 none;
}

connected : connect subscription ≡ ok (str "ws://10.0.0.4/ws")
unfolding connect query_url resource_path present ws_href rstrip_slash get_field
connected = refl

-- the scheme is looked at only after the subscription was made
not_http : connect (record subscription { href = "https://10.0.0.4" }) ≡ err assertion_error
unfolding connect query_url resource_path present ws_href rstrip_slash get_field
not_http = refl

abbrev pair : Json
pair = list (item (int 1) (item (int 2) nil))

abbrev grain : Json → Json
grain events = dict (field "grain" (dict (field "data" events end)) end)

abbrev loads : String → Option Json
loads text =
    if text == "two"
    then some (grain (list (item (int 1) (item (int 2) nil))))
    else if text == "one"
    then some (grain offered)
    else none

-- counts the events
abbrev on_event : Json → ℕ → Bool × ℕ
on_event e n = (true, n + 1)

counted : receive_all loads on_event ("two" ∷ "none" ∷ "one" ∷ []) 0 ≡ 3
unfolding receive_all on_message dispatch message_events events_of get_field
counted = refl

abbrev messages : List (String × List Json)
messages = ("two", int 1 ∷ int 2 ∷ []) ∷ ("none", []) ∷ ("one", offered ∷ []) ∷ []

receive_all-tell_example :
    receive_all loads on_event (texts messages) 0 ≡ tell on_event (all_events messages) 0
unfolding get_field items_of
receive_all-tell_example =
    receive_all-tell loads on_event (λ e s. refl) messages 0
      (
        several (field "grain" (dict (field "data" pair end)) end) (field "data" pair end)
            (int 1 ∷ int 2 ∷ []) refl refl,
        (
          no_json,
          (
            one (field "grain" (dict (field "data" offered end)) end) (field "data" offered end)
                (field "ws_href" (str "ws://10.0.0.4/ws") end) refl refl,
            tt,
          ),
        ),
      )
