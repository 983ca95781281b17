-- ===== src/Query/Events.antt =====
-- The events that a subscriber is told (nmoscommon/query.py, `_on_message`).
use Prim.Native.String.{String}
use nmos_common.Common.{
  ◌≡◌, refl, sym, ap, ◌∙◌, Bool, true, Option, none, some, List, [], ◌∷◌, ◌++◌, All, map,
}
use nmos_common.Common.Json.{Json, list, dict, Items, nil, item, Fields}
use nmos_common.Web.Resource.{get_field}
use nmos_common.Query.Subscribe.{
  dispatch, handle, on_message, receive_all, message_events, events_of, events_in,
}

-- a list as the decoder gives it
unfoldable pub items_of : List Json → Items
items_of [] = nil
items_of (v ∷ vs) = item v (items_of vs)

-- What a message holds, once it is decoded: the list under `data` of the object under `grain`, or
-- the one object that stands there. Where the text is no JSON or a key is missing there is no event.
pub data Carries : Option Json → List Json → Type 0 where
  no_json : Carries none []
  no_grain : (d : Fields) → get_field "grain" d ≡ none → Carries (some (dict d)) []
  no_data :
      (d g : Fields)
      → get_field "grain" d ≡ some (dict g)
      → get_field "data" g ≡ none
      → Carries (some (dict d)) []
  one :
      (d g event : Fields)
      → get_field "grain" d ≡ some (dict g)
      → get_field "data" g ≡ some (dict event)
      → Carries (some (dict d)) (dict event ∷ [])
  several :
      (d g : Fields) (events : List Json)
      → get_field "grain" d ≡ some (dict g)
      → get_field "data" g ≡ some (list (items_of events))
      → Carries (some (dict d)) events

abbrev pub or_nothing : Option (List Json) → List Json
or_nothing none = []
or_nothing (some events) = events

events_in-items_of : (vs : List Json) → events_in (items_of vs) ≡ vs
unfolding items_of
events_in-items_of [] = refl
events_in-items_of (v ∷ vs) = ap (◌∷◌ v) (events_in-items_of vs)

message_events-Carries :
    (o : Option Json) (events : List Json)
    → Carries o events
    → or_nothing (message_events o) ≡ events
unfolding message_events events_of
message_events-Carries none _ no_json = refl
message_events-Carries (some _) _ (no_grain d h) = rw h refl
message_events-Carries (some _) _ (no_data d g h k) = rw (h, k) refl
message_events-Carries (some _) _ (one d g event h k) = rw (h, k) refl
message_events-Carries (some _) _ (several d g events h k) = rw (h, k) (events_in-items_of events)

-- messages, each with its events
abbrev pub texts : List (String × List Json) → List String
texts messages = map (λ m. m.0) messages

abbrev pub all_events : List (String × List Json) → List Json
all_events [] = []
all_events ((_, events) ∷ messages) = events ++ all_events messages

-- a subscriber that returns from each of the events, one after the other
abbrev pub tell : {S : Type 0} → (Json → S → Bool × S) → List Json → S → S
tell on_event [] s = s
tell on_event (e ∷ events) s = tell on_event events (on_event e s).1

module _ {S : Type 0} (loads : String → Option Json) (on_event : Json → S → Bool × S)
    (returns : (e : Json) (s : S) → (on_event e s).0 ≡ true) where
  dispatch-tell :
      (events : List Json) (s : S) → dispatch loads on_event events s ≡ tell on_event events s
  unfolding dispatch
  dispatch-tell [] s = refl
  dispatch-tell (e ∷ events) s = rw (returns e s) (dispatch-tell events (on_event e s).1)

  handle-tell :
      (o : Option (List Json)) (s : S) → handle loads on_event o s ≡ tell on_event (or_nothing o) s
  handle-tell none s = refl
  handle-tell (some events) s = dispatch-tell events s

  tell-append :
      (xs ys : List Json) (s : S)
      → tell on_event (xs ++ ys) s ≡ tell on_event ys (tell on_event xs s)
  tell-append [] ys s = refl
  tell-append (x ∷ xs) ys s = tell-append xs ys (on_event x s).1

  -- A subscriber whose callback never raises is told exactly the events of its messages, in order and
  -- once each: all of the list under `data` of `grain`, or the one object there. A message that does
  -- not decode or lacks one of the two keys is passed over.
  pub receive_all-tell :
      (messages : List (String × List Json)) (s : S)
      → All (λ m. Carries (loads m.0) m.1) messages
      → receive_all loads on_event (texts messages) s ≡ tell on_event (all_events messages) s
  unfolding receive_all on_message
  receive_all-tell [] s h = refl
  receive_all-tell ((m, events) ∷ messages) s (carries, more) =
      receive_all-tell messages (on_message loads on_event m s) more
      ∙ ap (tell on_event (all_events messages)) (
          handle-tell (message_events (loads m)) s
          ∙ ap (λ l. tell on_event l s) (message_events-Carries (loads m) events carries))
      ∙ sym (tell-append events (all_events messages) s)
