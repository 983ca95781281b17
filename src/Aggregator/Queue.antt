-- ===== src/Aggregator/Queue.antt =====
-- The queue thread (nmoscommon/aggregator.py, `_process_queue`): one round of its loop.
use nmos_common.Common.{
  String, Bool, false, not, Option, none, some, List, [], ◌∷◌, ◌<>◌, ◌==◌, ◌||◌, if◌then◌else◌,
}
use nmos_common.Common.Dict.{Dict, get, remove}
use nmos_common.Common.Exec.{Result, ok, err, ◌>>◌, pure, raise, modify, try}
use nmos_common.Updater.{disable_p2p}
use nmos_common.Aggregator.{
  Aggregator, World, Resource, Item, Entities, Exn, key_error, invalid_request, M, updating, send,
}
use nmos_common.Aggregator.Mirror.{store}
use nmos_common.Aggregator.Threads.{Done, post_node}

-- `entities[namespace][res_type]`, or a KeyError
unfoldable pub lookup_type : String → String → Entities → Result Exn (Dict Resource)
lookup_type namespace res_type entities = elim (get namespace entities) [
  | none ↦ err key_error
  | some types ↦ elim (get res_type types) [ none ↦ err key_error | some d ↦ ok d ]
]

module _ {H : Type 0} where
  -- `del entities[namespace][res_type][key]`
  unfoldable pub forget : Item → Dict Resource → Aggregator H → Aggregator H
  forget item d s = record s {
    entities = store item.namespace item.res_type (remove item.key d) s.entities;
  }

  -- an InvalidRequest is handled, anything else is raised again
  unfoldable pub on_refusal : (Aggregator H → Aggregator H) → Exn → M H Done
  on_refusal f (invalid_request _) = modify f
  on_refusal f e = raise e

  -- the outermost handler
  unfoldable pub queue_failed : M H Done
  queue_failed s = (ok tt, updating disable_p2p (record s { registered = false }))

module _ {H : Type 0} (w : World H) where
  unfoldable pub post_entity : Item → Dict Resource → Resource → M H Done
  post_entity item d obj =
      try (do send w "POST" ("/" <> item.namespace) (some obj); pure tt)
        (on_refusal (forget item d))

  -- a Node whose registration fails is only logged
  unfoldable pub post_queued_node : Item → M H Done
  post_queued_node item = try (post_node w ("/" <> item.namespace)) (λ _. pure tt)

  -- `if res_key in entities[namespace][res_type]`
  unfoldable pub post_found : Item → Dict Resource → Option Resource → M H Done
  post_found item d none = pure tt
  post_found item d (some obj) = post_entity item d obj

  unfoldable pub post_if_known : Item → Result Exn (Dict Resource) → M H Done
  post_if_known item (err e) = raise e
  post_if_known item (ok d) = post_found item d (get item.key d)

  unfoldable pub post_item : Item → M H Done
  post_item item s =
      if item.res_type == "node"
      then post_queued_node item s
      else post_if_known item (lookup_type item.namespace item.res_type s.entities) s

  unfoldable pub delete_item : Item → M H Done
  delete_item item =
      try
        (do
          send w "DELETE" ("/" <> item.namespace <> "/" <> item.res_type <> "s" <> "/" <> item.key)
              none
          pure tt)
        (on_refusal (λ s. s))

  -- the `try` around one request
  unfoldable pub process_item : Item → M H Done
  process_item item =
      try
        (if item.method == "POST"
          then post_item item
          else if item.method == "DELETE"
          then delete_item item
          else pure tt)
        (λ _. queue_failed)

  -- the loop's condition
  unfoldable pub queue_goes_on : Aggregator H → Bool
  queue_goes_on s = s.running || elim s.queue [ [] ↦ false | _ ∷ _ ↦ s.registered ]

  unfoldable pub pick : List Item → M H Done
  pick [] s = (ok tt, s)
  pick (item ∷ rest) s = process_item item (record s { queue = rest })

  -- one round; without registration or requests it only waits
  unfoldable pub process_queue : M H Done
  process_queue s = if not s.registered then (ok tt, s) else pick s.queue s
