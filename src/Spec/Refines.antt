-- ===== src/Spec/Refines.antt =====
-- The public functions refine the specification: single calls, and sequences of calls.
use rticonnextdds_ros2_adapt.Common.{none, some, List, [], ◌∷◌, ◌≡◌, refl, ap, ◌∙◌, subst}
use rticonnextdds_ros2_adapt.Types.{Ptr, Graph, Duration, Dds}
use rticonnextdds_ros2_adapt.InlineList.{find_key}
use rticonnextdds_ros2_adapt.Invariant.{GraphOk}
use rticonnextdds_ros2_adapt.Api.{
  register_local_subscription, register_local_publisher, register_local_client,
  register_local_service, unregister_local_subscription, unregister_local_publisher,
  unregister_local_client, unregister_local_service, unregister_by_handle, register_local_node,
  inspect_local_node, unregister_local_node,
}
use rticonnextdds_ros2_adapt.Api.Session.{
  Call, step, run, initial, c_answer, c_answers, step-GraphOk, initial-GraphOk,
}
use rticonnextdds_ros2_adapt.Api.Settings.{step-settings}
use rticonnextdds_ros2_adapt.Spec.{
  abs, Request, request_of, Answer, Allowed, refused_add, refused_remove, Trace, done, next,
}
use rticonnextdds_ros2_adapt.Spec.Endpoints.{announce-Allowed}
use rticonnextdds_ros2_adapt.Spec.Removal.{
  unregister_by_entities-Allowed, unregister_by_handle-Allowed,
}
use rticonnextdds_ros2_adapt.Spec.Inspection.{inspect_local_node-Allowed}
use rticonnextdds_ros2_adapt.Spec.Nodes.{register_local_node-Allowed, unregister_local_node-Allowed}

-- A call answers something, and what it does to the graph is allowed with that answer.
CallAllowed : Dds → Graph → Call → Type 0
CallAllowed d g c =
    (x : Answer) × (c_answer d g c ≡ some x)
    × Allowed d g.graph_participant (abs g) (request_of c) x (abs (step d g c))

-- One call on a well-formed graph.
step-Allowed : (d : Dds) (g : Graph) (c : Call) → GraphOk g → CallAllowed d g c
unfolding CallAllowed step c_answer register_local_subscription register_local_publisher
    register_local_client register_local_service unregister_local_subscription
    unregister_local_publisher unregister_local_client unregister_local_service unregister_by_handle
    register_local_node inspect_local_node unregister_local_node
step-Allowed d g (Call.register_node name ns p) v =
    (_, refl, register_local_node-Allowed d g name ns p v)
step-Allowed d g (Call.inspect_node h) v = (_, refl, inspect_local_node-Allowed d g h v)
step-Allowed d g (Call.unregister_node h) v = (_, refl, unregister_local_node-Allowed d g h v)
step-Allowed d g (Call.register_subscription h none) v = (_, refl, refused_add)
step-Allowed d g (Call.register_subscription h (some r)) v =
    (_, refl, announce-Allowed d g h _ _ _ v)
step-Allowed d g (Call.register_publisher h none) v = (_, refl, refused_add)
step-Allowed d g (Call.register_publisher h (some w)) v = (_, refl, announce-Allowed d g h _ _ _ v)
step-Allowed d g (Call.register_client h none w) v = (_, refl, refused_add)
step-Allowed d g (Call.register_client h (some r) none) v = (_, refl, refused_add)
step-Allowed d g (Call.register_client h (some r) (some w)) v =
    (_, refl, announce-Allowed d g h _ _ _ v)
step-Allowed d g (Call.register_service h none w) v = (_, refl, refused_add)
step-Allowed d g (Call.register_service h (some r) none) v = (_, refl, refused_add)
step-Allowed d g (Call.register_service h (some r) (some w)) v =
    (_, refl, announce-Allowed d g h _ _ _ v)
step-Allowed d g (Call.unregister_subscription h none) v = (_, refl, refused_remove)
step-Allowed d g (Call.unregister_subscription h (some r)) v =
    (_, refl, unregister_by_entities-Allowed d g h _ _ v)
step-Allowed d g (Call.unregister_publisher h none) v = (_, refl, refused_remove)
step-Allowed d g (Call.unregister_publisher h (some w)) v =
    (_, refl, unregister_by_entities-Allowed d g h _ _ v)
step-Allowed d g (Call.unregister_client h none w) v = (_, refl, refused_remove)
step-Allowed d g (Call.unregister_client h (some r) none) v = (_, refl, refused_remove)
step-Allowed d g (Call.unregister_client h (some r) (some w)) v =
    (_, refl, unregister_by_entities-Allowed d g h _ _ v)
step-Allowed d g (Call.unregister_service h none w) v = (_, refl, refused_remove)
step-Allowed d g (Call.unregister_service h (some r) none) v = (_, refl, refused_remove)
step-Allowed d g (Call.unregister_service h (some r) (some w)) v =
    (_, refl, unregister_by_entities-Allowed d g h _ _ v)
step-Allowed d g (Call.unregister_handle h k) v = (_, refl, unregister_by_handle-Allowed d g h k v)

abbrev pub requests_of : List (Dds × Call) → List (Dds × Request)
requests_of [] = []
requests_of ((d, c) ∷ cs) = (d, request_of c) ∷ requests_of cs

pub run-Trace_from :
    (g : Graph) (p : Ptr) (cs : List (Dds × Call))
    → GraphOk g
    → g.graph_participant ≡ p
    → (xs : List Answer) × (c_answers g cs ≡ some xs)
      × Trace p (abs g) (requests_of cs) xs (abs (run g cs))
unfolding c_answers run CallAllowed
run-Trace_from g p [] v own = ([], refl, done)
run-Trace_from g p ((d, c) ∷ cs) v own =
    let (x, e, allowed) = step-Allowed d g c v in
    let allowed' =
      subst (λ o. Allowed d o (abs g) (request_of c) x (abs (step d g c))) own allowed in
    let (xs, f, rest) =
      run-Trace_from (step d g c) p cs (step-GraphOk d g c v)
        (ap (λ q. q.0) (step-settings d g c) ∙ own) in
    (x ∷ xs, rw (e, f), next allowed' rest)

-- Any sequence of calls on a new graph, in any DDS environments, is answered, and answers and acts as
-- the specification allows, on a map that is empty at first: a registration may be refused, which
-- changes nothing; else the handle that it answers was free, and a node is added only where no node
-- has its names, an endpoint only where its topic names conform and no endpoint of its node matches;
-- an inspection loses nothing of a node; an endpoint or a node is unregistered exactly if it is there;
-- and nothing else changes.
pub run-Trace :
    (participant : Ptr) (period : Duration) (cs : List (Dds × Call))
    → (xs : List Answer) × (c_answers (initial participant period) cs ≡ some xs)
      × Trace participant
          (λ _. none)
          (requests_of cs)
          xs
          (abs (run (initial participant period) cs))
unfolding find_key
run-Trace participant period cs =
    run-Trace_from (initial participant period) participant cs (initial-GraphOk participant period)
      refl
