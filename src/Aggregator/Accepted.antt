-- ===== src/Aggregator/Accepted.antt =====
-- The flag 'registered' and what the Registration API has accepted (nmoscommon/aggregator.py).
pub mod Rounds
use nmos_common.Common.{
  ℕ, zero, suc, ◌<◌, String, not, is_some, ◌≡◌, refl, sym, ap, subst, ◌∙◌, Bool, true, false,
  Option, none, some, List, [], ◌∷◌, ◌++◌, append_assoc, append-nil, last_of, arith, length, All,
  ◌<>◌, ◌==◌, if_both, if◌then◌else◌, inl, inr, Bool-cases, Option-cases,
}
use nmos_common.Common.Json.{Json}
use nmos_common.Common.Dict.{Dict}
use nmos_common.Common.Exec.{
  Result, Exec, ok, err, pure, raise, gets, modify, try, continue, ◌>>=◌, ◌>>◌,
}
use nmos_common.Common.Exec.Preserves.{Preserves, modify-Preserves, try-Preserves, preserving}
use nmos_common.Updater.{Updater, inc_p2p_enable_count, disable_p2p}
use nmos_common.Aggregator.{
  Aggregator, World, Resource, Item, Request, Exn, Body, returned, judge, invalid_request,
  no_aggregator, too_many_retries, key_error, type_error, updating, set_registered, send, node_id,
  api_path,
}
use nmos_common.Aggregator.Send.{IsAttempt, Sends, Explains, send-Sends}
use nmos_common.Aggregator.Mirror.{register_into, unregister_from, queue_request}
use nmos_common.Aggregator.Threads.{
  post_node, cleared, clear_node, register_again, drain, start_again, forget_aggregator,
  queue_again, clear_and_register, process_reregister, heartbeat_missed, stop_running,
  heartbeat_failed, send_heartbeat, heartbeat,
}
use nmos_common.Aggregator.Queue.{
  forget, on_refusal, queue_failed, post_entity, post_item, delete_item, process_item, pick,
  process_queue,
}

module _ {H : Type 0} (w : World H) where
  -- Among the requests `sent` there is a first heartbeat of a Node that the API accepted.
  abbrev pub Accepted : List Request → Type 0
  Accepted sent =
      (before : List Request) × (r : Request) × (after : List Request) × (id : String) × (b : Body)
      × (sent ≡ (before ++ r ∷ []) ++ after)
      × IsAttempt "POST" (api_path w ("/health/nodes/" <> id)) none r
      × (judge w.python3 (w.net (before ++ r ∷ [])) ≡ returned b)

  -- The Node counts as registered only if the API accepted it.
  pub record IsSafe (s : Aggregator H) : Type 0 where
    pub holds : s.registered ≡ true → Accepted s.sent

  Accepted-append : (sent more : List Request) → Accepted sent → Accepted (sent ++ more)
  Accepted-append sent more (before, r, after, id, b, e, a, j) =
      (before, r, after ++ more, id, b, rw e (append_assoc (before ++ r ∷ []) after more), a, j)

  -- an action that sends more and leaves the flag
  pub more_sent :
      (s s' : Aggregator H) (rs : List Request)
      → s'.sent ≡ s.sent ++ rs
      → s'.registered ≡ s.registered
      → IsSafe s
      → IsSafe s'
  more_sent s s' rs made same h = record {
    holds = λ on. rw made (Accepted-append s.sent rs (h.holds (sym same ∙ on)));
  }

  pub send-IsSafe :
      (method url : String) (body : Option Resource) → Preserves IsSafe (send w method url body)
  send-IsSafe method url body = record {
    at = λ s h.
        let out : Sends w 3 method (api_path w url) body s (send w method url body s) =
          send-Sends w method url body s in
        more_sent s _ out.rs out.made out.registered h;
  }

  pub node_id-IsSafe : Preserves IsSafe (node_id {H = H})
  unfolding node_id
  node_id-IsSafe = record {
    at = λ s h. more_sent s _ [] (ground (arith, append-nil s.sent)) (ground arith) h;
  }

  pub off-IsSafe : (s : Aggregator H) → s.registered ≡ false → IsSafe s
  off-IsSafe s off = record { holds = λ on. absurd (ground arith) }

  updating-IsSafe : (f : Updater → Updater) (s : Aggregator H) → IsSafe s → IsSafe (updating f s)
  unfolding updating
  updating-IsSafe f s h = more_sent s _ [] (sym (append-nil s.sent)) refl h

  cleared-IsSafe : (e : Exn) → Preserves IsSafe (cleared w e)
  unfolding cleared
  cleared-IsSafe (invalid_request c) = search preserving
  cleared-IsSafe _ = search preserving

  pub clear_node-IsSafe : Preserves IsSafe (clear_node w)
  unfolding clear_node
  clear_node-IsSafe = search (preserving, node_id-IsSafe, send-IsSafe, cleared-IsSafe)

  -- an accepted heartbeat is on record
  heartbeat_accepted :
      (s s' : Aggregator H) (id : String) (b : Body)
      → Sends w 3 "POST" (api_path w ("/health/nodes/" <> id)) none s (ok b, s')
      → Accepted s'.sent
  heartbeat_accepted s s' id b out =
      let (ini, r, split, a) = last_of _ out.rs out.explained.0 out.attempts in
      let whole : s'.sent ≡ (s.sent ++ ini) ++ r ∷ [] =
        out.made
        ∙ ap (λ (l : List Request). s.sent ++ l) split
        ∙ sym (append_assoc s.sent ini (r ∷ [])) in
      (s.sent ++ ini, r, [], id, b, whole ∙ sym (append-nil _), a, rw whole at out.explained.1)

  heard :
      (s s' : Aggregator H) (id : String) (r : Result Exn Body)
      → Sends w 3 "POST" (api_path w ("/health/nodes/" <> id)) none s (r, s')
      → IsSafe s
      → IsSafe
          (continue r (λ _. do modify (set_registered true); modify (updating disable_p2p)) s').1
  unfolding ◌>>=◌ set_registered updating
  heard s s' id (ok b) out h = record { holds = λ _. heartbeat_accepted s s' id b out }
  heard s s' id (err e) out h = more_sent s s' out.rs out.made out.registered h

  -- the end of `post_node`
  hear-IsSafe :
      (id : String)
      → Preserves IsSafe (do
        send w "POST" ("/health/nodes/" <> id) none
        modify (set_registered true)
        modify (updating disable_p2p))
  hear-IsSafe id = record {
    at = λ s h.
        unfold ◌>>=◌ in
        let out : Result Exn Body × Aggregator H = send w "POST" ("/health/nodes/" <> id) none s in
        heard s out.1 id out.0 (send-Sends w "POST" ("/health/nodes/" <> id) none s) h;
  }

  pub post_node-IsSafe : (url : String) → Preserves IsSafe (post_node w url)
  unfolding post_node
  post_node-IsSafe url = search (preserving, node_id-IsSafe, send-IsSafe, hear-IsSafe) depth 9
