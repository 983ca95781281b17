-- ===== src/Aggregator/Threads.antt =====
-- Re-registration and the heartbeat thread (nmoscommon/aggregator.py, `_process_reregister`,
-- `_heartbeat`). The thread is one round of its loop; what it waits is left out.
use nmos_common.Common.{
  String, Bool, true, false, not, none, some, List, [], ◌∷◌, ◌++◌, ◌<>◌, eqb, elem, is_some,
  if◌then◌else◌,
}
use nmos_common.Common.Dict.{Dict, get, keys}
use nmos_common.Common.Exec.{ok, ◌>>=◌, ◌>>◌, pure, modify, gets, try}
use nmos_common.Updater.{inc_p2p_enable_count, disable_p2p}
use nmos_common.Aggregator.{
  Aggregator, World, Resource, Item, Entities, Exn, invalid_request, M, updating, set_registered,
  send, node_id,
}

abbrev pub Done : Type 0
Done = Unit {0}

-- `self.registration_order`
abbrev pub registration_order : List String
registration_order = "device" ∷ "source" ∷ "flow" ∷ "sender" ∷ "receiver" ∷ []

abbrev pub post : String → String → String → Item
post namespace res_type key = record {
  method = "POST";
  namespace = namespace;
  res_type = res_type;
  key = key;
}

-- a POST for each key of `entities[res_type]`
unfoldable pub posts : String → String → List String → List Item
posts namespace res_type [] = []
posts namespace res_type (key ∷ rest) = post namespace res_type key ∷ posts namespace res_type rest

abbrev pub keys_of : String → Dict (Dict Resource) → List String
keys_of res_type types = elim (get res_type types) [ none ↦ [] | some d ↦ keys d ]

-- the inner loop of the ordered pass: one type, every namespace
unfoldable pub posts_of_type : String → Entities → List Item
unfolding posts
posts_of_type res_type [] = []
posts_of_type res_type ((namespace, types) ∷ entities) =
    posts namespace res_type (keys_of res_type types) ++ posts_of_type res_type entities

unfoldable pub ordered_posts : List String → Entities → List Item
unfolding posts_of_type
ordered_posts [] entities = []
ordered_posts (res_type ∷ order) entities =
    posts_of_type res_type entities ++ ordered_posts order entities

-- the types that the ordered pass leaves, in one namespace
unfoldable pub other_posts_in : String → Dict (Dict Resource) → List Item
unfolding posts
other_posts_in namespace [] = []
other_posts_in namespace ((res_type, d) ∷ types) =
    (if elem res_type registration_order then [] else posts namespace res_type (keys d))
    ++ other_posts_in namespace types

unfoldable pub other_posts : Entities → List Item
unfolding other_posts_in
other_posts [] = []
other_posts ((namespace, types) ∷ entities) = other_posts_in namespace types ++ other_posts entities

-- all that a re-registration queues
unfoldable pub requeue : Entities → List Item
unfolding ordered_posts other_posts
requeue entities = ordered_posts registration_order entities ++ other_posts entities

module _ {H : Type 0} (w : World H) where
  -- POST the Node and a first heartbeat, then count as registered
  unfoldable pub post_node : String → M H Done
  post_node url = do
    node_id
    node ← gets (λ s. s.node)
    send w "POST" url node
    id ← node_id
    send w "POST" ("/health/nodes/" <> id) none
    modify (set_registered true)
    modify (updating disable_p2p)

  -- a refusal, such as 404, is fine; on anything else there is no point in going on
  unfoldable pub cleared : Exn → M H Bool
  cleared (invalid_request _) = pure true
  cleared _ = pure false

  -- the deletion of the old Node: whether to go on
  unfoldable pub clear_node : M H Bool
  clear_node =
      try (do id ← node_id; send w "DELETE" ("/resource/nodes/" <> id) none; pure true) cleared

  abbrev pub drain : Aggregator H → Aggregator H
  drain s = updating inc_p2p_enable_count (record s { registered = false; queue = [] })

  unfoldable pub start_again : M H Done
  start_again = modify drain

  -- the fallback when registration fails
  unfoldable pub forget_aggregator : M H Bool
  forget_aggregator s = (ok false, record s { aggregator = "" })

  unfoldable pub queue_again : M H Done
  queue_again = modify (λ s. record s { queue = s.queue ++ requeue s.entities })

  unfoldable pub register_again : M H Done
  register_again = do
    start_again
    done ← try (do post_node "/resource"; pure true) (λ _. forget_aggregator)
    if done then queue_again else pure tt

  unfoldable pub clear_and_register : M H Done
  clear_and_register = do go_on ← clear_node; if go_on then register_again else pure tt

  unfoldable pub process_reregister : M H Done
  process_reregister s = if is_some s.node then clear_and_register s else (ok tt, s)

  -- what `_heartbeat` does when a heartbeat raises: on a 404 it marks the Node for registration and
  -- counts towards peer-to-peer mode, on another refusal it stops the threads
  unfoldable pub heartbeat_missed : M H Done
  heartbeat_missed = modify (λ s. updating inc_p2p_enable_count (set_registered false s))

  unfoldable pub stop_running : M H Done
  stop_running = modify (λ s. record s { running = false })

  unfoldable pub heartbeat_failed : Exn → M H Done
  heartbeat_failed (invalid_request status) =
      if eqb status 404 then heartbeat_missed else stop_running
  heartbeat_failed _ = modify (set_registered false)

  unfoldable pub send_heartbeat : M H Done
  send_heartbeat =
      try (do id ← node_id; send w "POST" ("/health/nodes/" <> id) none; pure tt) heartbeat_failed

  -- one round of `_heartbeat`
  unfoldable pub heartbeat : M H Done
  heartbeat s =
      if not s.registered
      then process_reregister s
      else if is_some s.node
      then send_heartbeat s
      else heartbeat_missed s
