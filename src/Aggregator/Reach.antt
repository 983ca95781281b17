-- ===== src/Aggregator/Reach.antt =====
-- Any interleaving of the threads' rounds and the callers' requests (nmoscommon/aggregator.py).
use nmos_common.Common.{String, ◌≡◌, refl, true, false, Option, none, some, [], ◌∷◌, arith}
use nmos_common.Common.Dict.{Dict}
use nmos_common.Common.Json.{Json}
use nmos_common.Updater.{Updater}
use nmos_common.Aggregator.{Aggregator, World}
use nmos_common.Aggregator.Mirror.{register_into, unregister_from, queue_request}
use nmos_common.Aggregator.Mirror
use nmos_common.Aggregator.Threads.{heartbeat}
use nmos_common.Aggregator.Queue.{process_queue}
use nmos_common.Aggregator.Accepted.{Accepted, IsSafe, off-IsSafe}
use nmos_common.Aggregator.Accepted.Rounds.{heartbeat-IsSafe, process_queue-IsSafe, same-IsSafe}

module _ {H : Type 0} where
  -- `__init__`
  unfoldable pub init : H → Option Updater → Aggregator H
  init host updater = record {
    aggregator = "";
    host = host;
    sent = [];
    updater = updater;
    node = none;
    registered = false;
    entities = ("resource", []) ∷ [];
    running = true;
    queue = [];
  }

  -- A round of a thread, a call of a client, or `stop`.
  pub data Step (w : World H) (s : Aggregator H) : Aggregator H → Type 0 where
    beat : Step w s (heartbeat w s).1
    serve : Step w s (process_queue w s).1
    register : (ns t k : String) (attrs : Dict Json) → Step w s (register_into ns t k attrs s)
    unregister :
        {s' : Aggregator H} (ns t k : String) → unregister_from ns t k s ≡ some s' → Step w s s'
    stop : Step w s (nmos_common.Aggregator.Mirror.stop s)

  pub data Reach (w : World H) (s : Aggregator H) : Aggregator H → Type 0 where
    here : Reach w s s
    next : {t u : Aggregator H} → Reach w s t → Step w t u → Reach w s u

  Step-IsSafe : (w : World H) (s s' : Aggregator H) → Step w s s' → IsSafe w s → IsSafe w s'
  Step-IsSafe w s _ beat h = (heartbeat-IsSafe w).at s h
  Step-IsSafe w s _ serve h = (process_queue-IsSafe w).at s h
  Step-IsSafe w s _ (register ns t k attrs) h =
      unfold register_into queue_request in same-IsSafe w s _ (ground arith) (ground arith) h
  Step-IsSafe w s s' (unregister ns t k e) h =
      unfold unregister_from queue_request in same-IsSafe w s s' (ground arith) (ground arith) h
  Step-IsSafe w s _ stop h =
      unfold nmos_common.Aggregator.Mirror.stop in same-IsSafe w s _ refl refl h

  Reach-IsSafe : (w : World H) (s s' : Aggregator H) → IsSafe w s → Reach w s s' → IsSafe w s'
  Reach-IsSafe w s _ h here = h
  Reach-IsSafe w s _ h (next {t} {u} r st) = Step-IsSafe w t u st (Reach-IsSafe w s t h r)

  -- Whatever the threads and the callers do, in any order of rounds and calls, and whatever the
  -- network answers: the flag 'registered' is set only if, among the requests made, there is a POST
  -- of a Node's heartbeat that the API accepted.
  pub registered-Accepted :
      (w : World H) (host : H) (updater : Option Updater) (s : Aggregator H)
      → Reach w (init host updater) s
      → s.registered ≡ true
      → Accepted w s.sent
  unfolding init
  registered-Accepted w host updater s r on =
      (Reach-IsSafe w (init host updater) s (off-IsSafe w _ refl) r).holds on
