-- ===== src/Invariant/Attached.antt =====
-- The counters of a node whose endpoint is given a DDS entity by an inspection
-- (RTIROS2_Graph_inspect_local_nodeEA of src/adapter_c/graph_impl.c).
use rticonnextdds_ros2_adapt.Common.{
  ℕ, ◌+◌, ◌⊎◌, ◌≡◌, ap, ℤ, eq_ℤ, Bool, Bool-cases, true, false, none, some, List, [], ◌∷◌, inl, inr,
  arith,
}
use rticonnextdds_ros2_adapt.Types.{
  EndpointType, client, service, invalid_handle, Endpoint, Node, Graph, Dds,
}
use rticonnextdds_ros2_adapt.InlineList.{find_key, replace, find-Unique}
use rticonnextdds_ros2_adapt.Lookup.{endp_key, topic_matches, lookup_local_endpoint_by_topic_name}
use rticonnextdds_ros2_adapt.Endpoints.{set_node, set_endpoint}
use rticonnextdds_ros2_adapt.Inspect.{side, with_side, attach, inspect_typed}
use rticonnextdds_ros2_adapt.Invariant.{NodeOk}
use rticonnextdds_ros2_adapt.Invariant.Counts.{one, count, CountsOk}

count-replace :
    (b : Bool) (es : List Endpoint) (e y : Endpoint)
    → find_key endp_key y.handle es ≡ some e
    → count b (replace endp_key y es) + one (side b e) ≡ count b es + one (side b y)
unfolding count find_key replace
count-replace b [] e y h = cc
count-replace b (x ∷ es) e y h = elim (Bool-cases (eq_ℤ x.handle y.handle)) [
  | inl t ↦ let same : x ≡ e = ground arith in rw (t, same) (omega arith)
  | inr t ↦ rw t (omega (arith, count-replace b es e y (ground arith)))
]

-- The assignment of a writer to an endpoint that had none.
with_writer-not-CountsOk :
    (n : Node) (p : ℕ) (e : Endpoint)
    → find_key endp_key e.handle n.endpoints ≡ some e
    → e.dds_writer ≡ none
    → CountsOk n
    → ¬ CountsOk (set_endpoint n (with_side true p e))
unfolding set_endpoint
with_writer-not-CountsOk n p e found free v w = omega (
  arith,
  v true,
  w true,
  count-replace true n.endpoints e (with_side true p e) found,
  ap one free,
)

-- Where the counters of a well-formed node are right and the inspection of a writer of a client or a
-- service finds by topic name an endpoint without a writer, it assigns the writer to that endpoint,
-- which leaves a node with a counter that is wrong, and keeps the handle that it had: it fails behind
-- the assignment exactly if that handle is invalid.
pub attach-not-CountsOk :
    (d : Dds) (t : EndpointType) (g : Graph) (n : Node) (k : ℤ) (p : ℕ) {e : Endpoint}
    → (t ≡ client) ⊎ (t ≡ service)
    → NodeOk n
    → CountsOk n
    → lookup_local_endpoint_by_topic_name d n (d.writer_topic p) false ≡ some e
    → e.dds_writer ≡ none
    → (m : Node) × (inspect_typed d true g n k p t ≡ (set_node g m, k, eq_ℤ k invalid_handle))
      × ¬ CountsOk m
unfolding attach lookup_local_endpoint_by_topic_name inspect_typed
attach-not-CountsOk d t g n k p {e} kind v c found free =
    let there =
      find-Unique endp_key (topic_matches d (d.writer_topic p) false) n.endpoints v.unique found in
    let m = set_endpoint n (with_side true p e) in
    let wrong = with_writer-not-CountsOk n p e there free c in
    elim kind [
      | inl of ↦ (m, rw (of, attach, found, free), wrong)
      | inr of ↦ (m, rw (of, attach, found, free), wrong)
    ]
