-- ===== src/Api/Session.antt =====
-- Sequences of calls of the public functions on one graph. Each call holds the mutex of the graph, so
-- calls from several threads are some sequence of calls. Each call has its own DDS environment.
use rticonnextdds_ros2_adapt.Common.{
  ℤ, pos, CString, ◌⊎◌, inl, inr, ◌>>=◌, Option, none, some, List, [], ◌∷◌, refl, arith, ReturnCode,
}
use rticonnextdds_ros2_adapt.Types.{Ptr, Endpoint, Graph, Duration, Dds}
use rticonnextdds_ros2_adapt.Invariant.{GraphOk}
use rticonnextdds_ros2_adapt.Invariant.OfEndpoints.{
  register_local_endpoint-GraphOk, unregister_local_endpoint-GraphOk,
  unregister_local_endpoint_by_handle-GraphOk, queue_update-GraphOk,
}
use rticonnextdds_ros2_adapt.Invariant.OfNodes.{
  register_local_node-GraphOk, inspect_local_node-GraphOk, unregister_local_node-GraphOk,
}
use rticonnextdds_ros2_adapt.Api.{
  Self, announce, register_local_subscription, register_local_publisher, register_local_client,
  register_local_service, unregister_local_subscription, unregister_local_publisher,
  unregister_local_client, unregister_local_service, unregister_by_handle, register_local_node,
  inspect_local_node, unregister_local_node,
}

pub data Call : Type 0 where
  register_node : Option CString → Option CString → Ptr → Call
  inspect_node unregister_node : ℤ → Call
  register_subscription register_publisher : ℤ → Ptr → Call
  register_client register_service : ℤ → Ptr → Ptr → Call
  unregister_subscription unregister_publisher : ℤ → Ptr → Call
  unregister_client unregister_service : ℤ → Ptr → Ptr → Call
  unregister_handle : ℤ → ℤ → Call

-- The graph behind a result.
abbrev pub graph_of : Graph → Self → Graph
graph_of g none = g
graph_of g (some g') = g'

abbrev pub graph_of_result : Graph → Option (Self × ReturnCode) → Graph
graph_of_result g none = g
graph_of_result g (some (self, rc)) = graph_of g self

unfoldable pub step : Dds → Graph → Call → Graph
step d g (register_node name ns p) = graph_of g (register_local_node d (some g) name ns p).0
step d g (inspect_node h) = graph_of_result g (inspect_local_node d (some g) h)
step d g (unregister_node h) = graph_of_result g (unregister_local_node (some g) h)
step d g (register_subscription h r) = graph_of g (register_local_subscription d (some g) h r).0
step d g (register_publisher h w) = graph_of g (register_local_publisher d (some g) h w).0
step d g (register_client h r w) = graph_of g (register_local_client d (some g) h r w).0
step d g (register_service h r w) = graph_of g (register_local_service d (some g) h r w).0
step d g (unregister_subscription h r) = graph_of g (unregister_local_subscription (some g) h r).0
step d g (unregister_publisher h w) = graph_of g (unregister_local_publisher (some g) h w).0
step d g (unregister_client h r w) = graph_of g (unregister_local_client (some g) h r w).0
step d g (unregister_service h r w) = graph_of g (unregister_local_service (some g) h r w).0
step d g (unregister_handle h k) = graph_of g (unregister_by_handle (some g) h k).0

unfoldable pub run : Graph → List (Dds × Call) → Graph
run g [] = g
run g ((d, c) ∷ cs) = run (step d g c) cs

-- What the C function answers: a handle or a return code, where it answers at all.
abbrev code_of : Option (Self × ReturnCode) → Option (ℤ ⊎ ReturnCode)
code_of none = none
code_of (some (self, rc)) = some (inr rc)

unfoldable pub c_answer : Dds → Graph → Call → Option (ℤ ⊎ ReturnCode)
c_answer d g (register_node name ns p) = some (inl (register_local_node d (some g) name ns p).1)
c_answer d g (inspect_node h) = code_of (inspect_local_node d (some g) h)
c_answer d g (unregister_node h) = code_of (unregister_local_node (some g) h)
c_answer d g (register_subscription h r) = some (inl (register_local_subscription d (some g) h r).1)
c_answer d g (register_publisher h w) = some (inl (register_local_publisher d (some g) h w).1)
c_answer d g (register_client h r w) = some (inl (register_local_client d (some g) h r w).1)
c_answer d g (register_service h r w) = some (inl (register_local_service d (some g) h r w).1)
c_answer d g (unregister_subscription h r) =
    some (inr (unregister_local_subscription (some g) h r).1)
c_answer d g (unregister_publisher h w) = some (inr (unregister_local_publisher (some g) h w).1)
c_answer d g (unregister_client h r w) = some (inr (unregister_local_client (some g) h r w).1)
c_answer d g (unregister_service h r w) = some (inr (unregister_local_service (some g) h r w).1)
c_answer d g (unregister_handle h k) = some (inr (unregister_by_handle (some g) h k).1)

-- What the calls of a sequence answer.
unfoldable pub c_answers : Graph → List (Dds × Call) → Option (List (ℤ ⊎ ReturnCode))
c_answers g [] = some []
c_answers g ((d, c) ∷ cs) =
    c_answer d g c >>= λ a. c_answers (step d g c) cs >>= λ rest. some (a ∷ rest)

-- RTIROS2_Graph_INITIALIZER, with the participant and the poll period of RTIROS2_Graph_initialize.
abbrev pub initial : Ptr → Duration → Graph
initial participant period = record {
  nodes = [];
  nodes_len = 0;
  node_handle_next = pos 0;
  graph_participant = participant;
  sem_pinfo = 0;
  poll_period = period;
  participants = [];
}

announce-GraphOk :
    (g : Graph) (q : Graph × Option Endpoint) → GraphOk q.0 → GraphOk (graph_of g (announce q).0)
unfolding announce
announce-GraphOk g (g', none) v = v
announce-GraphOk g (g', some e) v = queue_update-GraphOk g' v

-- Every call keeps the graph well-formed.
pub step-GraphOk : (d : Dds) (g : Graph) (c : Call) → GraphOk g → GraphOk (step d g c)
unfolding step register_local_subscription register_local_publisher register_local_client
    register_local_service unregister_local_subscription unregister_local_publisher
    unregister_local_client unregister_local_service unregister_by_handle register_local_node
    inspect_local_node unregister_local_node
step-GraphOk d g (register_node name ns p) v = register_local_node-GraphOk d g name ns p v
step-GraphOk d g (inspect_node h) v = inspect_local_node-GraphOk d g h v
step-GraphOk d g (unregister_node h) v = unregister_local_node-GraphOk g h v
step-GraphOk d g (register_subscription h none) v = v
step-GraphOk d g (register_subscription h (some r)) v =
    announce-GraphOk g _ (register_local_endpoint-GraphOk d g h _ _ _ v)
step-GraphOk d g (register_publisher h none) v = v
step-GraphOk d g (register_publisher h (some w)) v =
    announce-GraphOk g _ (register_local_endpoint-GraphOk d g h _ _ _ v)
step-GraphOk d g (register_client h none w) v = v
step-GraphOk d g (register_client h (some r) none) v = v
step-GraphOk d g (register_client h (some r) (some w)) v =
    announce-GraphOk g _ (register_local_endpoint-GraphOk d g h _ _ _ v)
step-GraphOk d g (register_service h none w) v = v
step-GraphOk d g (register_service h (some r) none) v = v
step-GraphOk d g (register_service h (some r) (some w)) v =
    announce-GraphOk g _ (register_local_endpoint-GraphOk d g h _ _ _ v)
step-GraphOk d g (unregister_subscription h none) v = v
step-GraphOk d g (unregister_subscription h (some r)) v =
    unregister_local_endpoint-GraphOk g h _ _ v
step-GraphOk d g (unregister_publisher h none) v = v
step-GraphOk d g (unregister_publisher h (some w)) v = unregister_local_endpoint-GraphOk g h _ _ v
step-GraphOk d g (unregister_client h none w) v = v
step-GraphOk d g (unregister_client h (some r) none) v = v
step-GraphOk d g (unregister_client h (some r) (some w)) v =
    unregister_local_endpoint-GraphOk g h _ _ v
step-GraphOk d g (unregister_service h none w) v = v
step-GraphOk d g (unregister_service h (some r) none) v = v
step-GraphOk d g (unregister_service h (some r) (some w)) v =
    unregister_local_endpoint-GraphOk g h _ _ v
step-GraphOk d g (unregister_handle h k) v = unregister_local_endpoint_by_handle-GraphOk g h k v

run-GraphOk : (g : Graph) (cs : List (Dds × Call)) → GraphOk g → GraphOk (run g cs)
unfolding run
run-GraphOk g [] v = v
run-GraphOk g ((d, c) ∷ cs) v = run-GraphOk (step d g c) cs (step-GraphOk d g c v)

pub initial-GraphOk : (participant : Ptr) (period : Duration) → GraphOk (initial participant period)
initial-GraphOk participant period = record {
  unique = tt;
  valid = tt;
  counted = refl;
  counter = omega arith;
  each = tt;
}

-- After any sequence of calls on a new graph, in any DDS environments, the handles of the nodes and
-- those of each node's endpoints are distinct and valid, and the lists have the lengths counted.
pub run-initial-GraphOk :
    (participant : Ptr) (period : Duration) (cs : List (Dds × Call))
    → GraphOk (run (initial participant period) cs)
run-initial-GraphOk participant period cs = run-GraphOk _ cs (initial-GraphOk participant period)
