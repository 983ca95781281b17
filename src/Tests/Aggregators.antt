-- ===== src/Tests/Aggregators.antt =====
-- The registration proxy at concrete inputs (nmoscommon/aggregator.py).
use nmos_common.Common.{
  ℕ, ◌≡◌, refl, true, false, some, none, [], ◌∷◌, ◌++◌, String, length, In, if◌then◌else◌,
}
use nmos_common.Common.Dict.{Dict, get, put}
use nmos_common.Common.Exec.{err, ◌>>=◌}
use nmos_common.Aggregator.{
  Aggregator, World, Reply, Resource, Entities, invalid_request, send, try_send, api_path,
  set_registered, node_id,
}
use nmos_common.Aggregator.Mirror.{
  register_into, unregister_from, send_obj, queue_request, store, add_mirror_keys,
}
use nmos_common.Aggregator.Changes.{register_into_lem, unregister_from_lem, mirrored, is_at}
use nmos_common.Aggregator.Threads.{
  heartbeat, post, requeue, process_reregister, clear_and_register, clear_node, register_again,
  post_node, start_again, queue_again,
}
use nmos_common.Aggregator.Send.{Sends, send-Sends}
use nmos_common.Aggregator.Refusal.{send-invalid_python3}
use nmos_common.Aggregator.Requeue.{In-requeue}
use nmos_common.Aggregator.Order.{IsRanked, requeue-IsRanked}
use nmos_common.Aggregator.Total.{length-requeue, count_resources}
use nmos_common.Aggregator.Accepted.{Accepted}
use nmos_common.Aggregator.Reach.{init, Reach, Step, registered-Accepted}

-- one Registration API, which gives every request the same answer
abbrev answering : Reply → World Unit
answering r = record {
  net = λ _. r;
  discover = λ t host. ("http://10.0.0.9/", host);
  api_version = "v1.2";
  python3 = true;
}

abbrev accepting : World Unit
accepting = answering (Reply.reply 201 true "{}")

abbrev refusing : World Unit
refusing = answering (Reply.reply 400 false "")

abbrev fresh : Aggregator Unit
fresh = init tt none

abbrev with_node : Aggregator Unit
with_node = register_into "resource" "node" "n1" [] fresh

abbrev alive : Aggregator Unit
alive = (heartbeat accepting with_node).1

alive_registered : alive.registered ≡ true
unfolding heartbeat init register_into send queue_request process_reregister clear_and_register
    ◌>>=◌ clear_node node_id get send_obj put try_send register_again start_again post_node
    queue_again set_registered
alive_registered = refl

registered-Accepted_example : Accepted accepting alive.sent
registered-Accepted_example =
    registered-Accepted accepting tt none alive
      (Reach.next (Reach.next Reach.here (Step.register "resource" "node" "n1" [])) Step.beat)
      alive_registered

send-Sends_example :
    Sends refusing 3 "POST"
      (api_path refusing "/resource")
      none
      fresh
      (send refusing "POST" "/resource" none fresh)
send-Sends_example = send-Sends refusing "POST" "/resource" none fresh

refused_400 : (send refusing "POST" "/resource" none fresh).0 ≡ err (invalid_request 400)
unfolding send init try_send
refused_400 = refl

send-invalid_python3_example : ◌≡◌ {A = ℕ} 400 400
send-invalid_python3_example =
    send-invalid_python3 refusing "POST" "/resource" none fresh 400 refl refused_400

register_into_lem_example :
    (mirrored "resource" "flow" "f1" (register_into "resource" "flow" "f1" [] with_node) ≡ (
      if is_at "resource" "flow" "f1" "resource" "flow" "f1"
      then some (send_obj "flow" "f1" [])
      else mirrored "resource" "flow" "f1" with_node))
    × ((register_into "resource" "flow" "f1" [] with_node).queue
        ≡ with_node.queue
          ++ record { method = "POST"; namespace = "resource"; res_type = "flow"; key = "f1" } ∷ [])
    × ((register_into "resource" "flow" "f1" [] with_node).node ≡ with_node.node)
register_into_lem_example =
    register_into_lem "resource" "flow" "f1" [] with_node "resource" "flow" "f1" refl

abbrev with_flow : Aggregator Unit
with_flow = register_into "resource" "flow" "f1" [] fresh

unregister_from_lem_example :
    (s' : Aggregator Unit) × (unregister_from "resource" "flow" "f1" with_flow ≡ some s')
    × ((ns' t' k' : String)
        → mirrored ns' t' k' s'
          ≡ (if is_at "resource" "flow" "f1" ns' t' k' then none else mirrored ns' t' k' with_flow))
    × (s'.queue
        ≡ with_flow.queue
          ++ record { method = "DELETE"; namespace = "resource"; res_type = "flow"; key = "f1" }
            ∷ [])
    × (s'.node ≡ with_flow.node)
unfolding init register_into get queue_request store put add_mirror_keys
unregister_from_lem_example = unregister_from_lem "resource" "flow" "f1" with_flow refl refl

abbrev thing : Resource
thing = record { type = "flow"; attrs = [] }

abbrev some_types : Dict (Dict Resource)
some_types =
    ("flow", ("f1", thing) ∷ ("f2", thing) ∷ [])
    ∷ ("other", ("o1", thing) ∷ [])
    ∷ ("device", ("d1", thing) ∷ [])
    ∷ []

abbrev some_entities : Entities
some_entities = ("resource", some_types) ∷ []

In-requeue_example : In (post "resource" "flow" "f2") (requeue some_entities)
unfolding get
In-requeue_example =
    In-requeue "resource" "flow" "f2" some_types (("f1", thing) ∷ ("f2", thing) ∷ []) refl (1, refl)
      some_entities (0, refl)

requeue-IsRanked_example : IsRanked 0 (requeue some_entities)
requeue-IsRanked_example = requeue-IsRanked some_entities

length-requeue_example : length (requeue some_entities) ≡ count_resources some_entities
unfolding get
length-requeue_example = length-requeue some_entities ((refl, (refl, (refl, tt))), tt)

requeued :
    requeue some_entities
    ≡ post "resource" "device" "d1"
      ∷ post "resource" "flow" "f1"
      ∷ post "resource" "flow" "f2"
      ∷ post "resource" "other" "o1"
      ∷ []
unfolding requeue get
requeued = refl
