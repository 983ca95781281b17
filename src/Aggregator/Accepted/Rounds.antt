-- ===== src/Aggregator/Accepted/Rounds.antt =====
-- Every round of the threads keeps the flag 'registered' true to what was accepted
-- (nmoscommon/aggregator.py).
use nmos_common.Common.{
  not, is_some, ◌≡◌, refl, sym, ◌∙◌, Bool, true, false, Option, none, some, List, [], ◌∷◌,
  append-nil, ◌==◌, if_both, if◌then◌else◌,
}
use nmos_common.Common.Dict.{Dict, get}
use nmos_common.Common.Exec.{Result, Exec, ok, err}
use nmos_common.Common.Exec.Preserves.{Preserves, modify-Preserves, try-Preserves, preserving}
use nmos_common.Aggregator.{
  Aggregator, World, Resource, Item, Exn, invalid_request, no_aggregator, updating, set_registered,
}
use nmos_common.Aggregator.Threads.{
  register_again, drain, start_again, forget_aggregator, queue_again, clear_and_register,
  process_reregister, heartbeat_missed, stop_running, heartbeat_failed, send_heartbeat, heartbeat,
}
use nmos_common.Aggregator.Queue.{
  forget, on_refusal, queue_failed, post_entity, post_item, post_queued_node, post_found,
  post_if_known, lookup_type, delete_item, process_item, pick, process_queue,
}
use nmos_common.Aggregator.Accepted.{
  IsSafe, more_sent, off-IsSafe, send-IsSafe, node_id-IsSafe, clear_node-IsSafe, post_node-IsSafe,
}

module _ {H : Type 0} (w : World H) where
  drain-IsSafe : (s : Aggregator H) → IsSafe w s → IsSafe w (drain w s)
  unfolding updating
  drain-IsSafe s h = off-IsSafe w _ refl

  -- writes that leave the flag and the requests
  pub same-IsSafe :
      (s s' : Aggregator H)
      → s'.sent ≡ s.sent
      → s'.registered ≡ s.registered
      → IsSafe w s
      → IsSafe w s'
  same-IsSafe s s' e same h = more_sent w s s' [] (e ∙ sym (append-nil s.sent)) same h

  forget_aggregator-IsSafe : Preserves (IsSafe w) (forget_aggregator w)
  unfolding forget_aggregator
  forget_aggregator-IsSafe = record { at = λ s h. same-IsSafe s _ refl refl h }

  queue_again-IsSafe : Preserves (IsSafe w) (queue_again w)
  unfolding queue_again
  queue_again-IsSafe = modify-Preserves _ (λ s h. same-IsSafe s _ refl refl h)

  start_again-IsSafe : Preserves (IsSafe w) (start_again w)
  unfolding start_again
  start_again-IsSafe = modify-Preserves _ drain-IsSafe

  ruleset safe_rules = (
    preserving, node_id-IsSafe, send-IsSafe, post_node-IsSafe, clear_node-IsSafe,
    forget_aggregator-IsSafe, queue_again-IsSafe, start_again-IsSafe,
  )

  register_again-IsSafe : Preserves (IsSafe w) (register_again w)
  unfolding register_again
  register_again-IsSafe = search safe_rules

  clear_and_register-IsSafe : Preserves (IsSafe w) (clear_and_register w)
  unfolding clear_and_register
  clear_and_register-IsSafe = search (safe_rules, register_again-IsSafe)

  -- a test on the state
  test-IsSafe :
      (b : Bool) (m n : Exec (Aggregator H) Exn (Unit {0})) (s : Aggregator H)
      → Preserves (IsSafe w) m
      → Preserves (IsSafe w) n
      → IsSafe w s
      → IsSafe w (if b then m s else n s).1
  test-IsSafe true m n s km kn h = km.at s h
  test-IsSafe false m n s km kn h = kn.at s h

  nothing : Exec (Aggregator H) Exn (Unit {0})
  nothing s = (ok tt, s)

  nothing-IsSafe : Preserves (IsSafe w) nothing
  unfolding nothing
  nothing-IsSafe = record { at = λ s h. h }

  process_reregister-IsSafe : Preserves (IsSafe w) (process_reregister w)
  unfolding process_reregister nothing
  process_reregister-IsSafe = record {
    at = λ s h.
        test-IsSafe (is_some s.node) (clear_and_register w) nothing s clear_and_register-IsSafe
          nothing-IsSafe h;
  }

  missed-IsSafe : Preserves (IsSafe w) (heartbeat_missed w)
  unfolding heartbeat_missed set_registered updating
  missed-IsSafe = modify-Preserves _ (λ s h. off-IsSafe w _ refl)

  stop_running-IsSafe : Preserves (IsSafe w) (stop_running w)
  unfolding stop_running
  stop_running-IsSafe = modify-Preserves _ (λ s h. same-IsSafe s _ refl refl h)

  heartbeat_failed-IsSafe : (e : Exn) → Preserves (IsSafe w) (heartbeat_failed w e)
  unfolding heartbeat_failed set_registered
  heartbeat_failed-IsSafe (invalid_request c) =
      search (preserving, missed-IsSafe, stop_running-IsSafe)
  heartbeat_failed-IsSafe _ = modify-Preserves _ (λ s h. off-IsSafe w _ refl)

  send_heartbeat-IsSafe : Preserves (IsSafe w) (send_heartbeat w)
  unfolding send_heartbeat
  send_heartbeat-IsSafe = search (safe_rules, heartbeat_failed-IsSafe)

  checked-IsSafe :
      (s : Aggregator H)
      → IsSafe w s
      → IsSafe w (if is_some s.node then send_heartbeat w s else heartbeat_missed w s).1
  checked-IsSafe s h = test-IsSafe (is_some s.node) _ _ s send_heartbeat-IsSafe missed-IsSafe h

  pub heartbeat-IsSafe : Preserves (IsSafe w) (heartbeat w)
  unfolding heartbeat
  heartbeat-IsSafe = record {
    at = λ s h.
        if_both (λ (out : Result Exn (Unit {0}) × Aggregator H). IsSafe w out.1) (not s.registered)
          _ _ (process_reregister-IsSafe.at s h) (checked-IsSafe s h);
  }

  on_refusal-IsSafe :
      (f : Aggregator H → Aggregator H) (e : Exn)
      → ((s : Aggregator H) → IsSafe w s → IsSafe w (f s))
      → Preserves (IsSafe w) (on_refusal f e)
  unfolding on_refusal
  on_refusal-IsSafe f (invalid_request c) kf = modify-Preserves _ kf
  on_refusal-IsSafe f no_aggregator kf = search preserving
  on_refusal-IsSafe f _ kf = search preserving

  post_entity-IsSafe :
      (item : Item) (d : Dict Resource) (obj : Resource)
      → Preserves (IsSafe w) (post_entity w item d obj)
  unfolding post_entity forget
  post_entity-IsSafe item d obj =
      try-Preserves _ _ (search (preserving, send-IsSafe))
        (λ e. on_refusal-IsSafe _ e (λ s h. same-IsSafe s _ refl refl h))

  delete_item-IsSafe : (item : Item) → Preserves (IsSafe w) (delete_item w item)
  unfolding delete_item
  delete_item-IsSafe item =
      try-Preserves _ _ (search (preserving, send-IsSafe)) (λ e. on_refusal-IsSafe _ e (λ s h. h))

  post_queued_node-IsSafe : (item : Item) → Preserves (IsSafe w) (post_queued_node w item)
  unfolding post_queued_node
  post_queued_node-IsSafe item = search safe_rules

  found-IsSafe :
      (item : Item) (d : Dict Resource) (o : Option Resource)
      → Preserves (IsSafe w) (post_found w item d o)
  unfolding post_found
  found-IsSafe item d none = search preserving
  found-IsSafe item d (some obj) = post_entity-IsSafe item d obj

  post_if_known-IsSafe :
      (item : Item) (r : Result Exn (Dict Resource)) → Preserves (IsSafe w) (post_if_known w item r)
  unfolding post_if_known
  post_if_known-IsSafe item (err e) = search preserving
  post_if_known-IsSafe item (ok d) = found-IsSafe item d (get item.key d)

  post_item-IsSafe : (item : Item) → Preserves (IsSafe w) (post_item w item)
  unfolding post_item
  post_item-IsSafe item = record {
    at = λ s h.
        test-IsSafe (item.res_type == "node") (post_queued_node w item)
          (post_if_known w item (lookup_type item.namespace item.res_type s.entities)) s
          (post_queued_node-IsSafe item) (post_if_known-IsSafe item _) h;
  }

  queue_failed-IsSafe : Preserves (IsSafe w) (queue_failed {H = H})
  unfolding queue_failed updating
  queue_failed-IsSafe = record { at = λ s h. off-IsSafe w _ refl }

  process_item-IsSafe : (item : Item) → Preserves (IsSafe w) (process_item w item)
  unfolding process_item
  process_item-IsSafe item =
      search (preserving, post_item-IsSafe, delete_item-IsSafe, queue_failed-IsSafe)

  pick-IsSafe : (l : List Item) → Preserves (IsSafe w) (pick w l)
  unfolding pick
  pick-IsSafe [] = record { at = λ s h. h }
  pick-IsSafe (item ∷ rest) = record {
    at = λ s h.
        (process_item-IsSafe item).at (record s { queue = rest }) (same-IsSafe s _ refl refl h);
  }

  pub process_queue-IsSafe : Preserves (IsSafe w) (process_queue w)
  unfolding process_queue nothing
  process_queue-IsSafe = record {
    at = λ s h.
        test-IsSafe (not s.registered) nothing (pick w s.queue) s nothing-IsSafe
          (pick-IsSafe s.queue) h;
  }
