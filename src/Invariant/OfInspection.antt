-- ===== src/Invariant/OfInspection.antt =====
-- Inspecting a node keeps the graph well-formed.
use rticonnextdds_ros2_adapt.Common.{ℕ, ℤ, CString, Bool, true, false, none, some, ◌≡◌}
use rticonnextdds_ros2_adapt.Types.{Endpoint, Node, Graph, Dds}
use rticonnextdds_ros2_adapt.InlineList.{Unique-replace, length-replace, All-replace, All-found}
use rticonnextdds_ros2_adapt.Handles.Fresh.{IsHandle}
use rticonnextdds_ros2_adapt.Lookup.{
  endp_key, topic_matches, lookup_local_node_by_handle, lookup_local_endpoint_by_topic_name,
}
use rticonnextdds_ros2_adapt.Endpoints.{set_node, set_endpoint}
use rticonnextdds_ros2_adapt.Inspect.{side, with_side, inspect_local_node_ea}
use rticonnextdds_ros2_adapt.Inspect.Rule.{inspect-keeps}
use rticonnextdds_ros2_adapt.Invariant.{NodeOk, GraphOk}
use rticonnextdds_ros2_adapt.Invariant.OfEndpoints.{
  set_node-GraphOk, found-NodeOk, register_local_endpoint-GraphOk,
}

set_endpoint-NodeOk :
    (n : Node) (e : Endpoint) → IsHandle e.handle → NodeOk n → NodeOk (set_endpoint n e)
unfolding set_endpoint
set_endpoint-NodeOk n e h v = record {
  unique = Unique-replace endp_key e n.endpoints v.unique;
  valid = All-replace endp_key (λ x. IsHandle x.handle) e n.endpoints h v.valid;
  counted = rw (length-replace endp_key e n.endpoints) v.counted;
  counter = v.counter;
}

with_side-IsHandle :
    (writer : Bool) (p : ℕ) (e : Endpoint)
    → IsHandle e.handle
    → IsHandle (with_side writer p e).handle
with_side-IsHandle true p e h = h
with_side-IsHandle false p e h = h

pub attach-GraphOk :
    (d : Dds) (g : Graph) (h : ℤ) (n : Node) (topic : CString) (writer : Bool) (p : ℕ)
    (e : Endpoint)
    → lookup_local_node_by_handle g h ≡ some n
    → lookup_local_endpoint_by_topic_name d n topic false ≡ some e
    → side writer e ≡ none
    → GraphOk g
    → GraphOk (set_node g (set_endpoint n (with_side writer p e)))
unfolding lookup_local_endpoint_by_topic_name set_endpoint
attach-GraphOk d g h n topic writer p e found old free v =
    let (ok', valid, _) = found-NodeOk g h v found in
    let handle =
      All-found (λ x. IsHandle x.handle) (topic_matches d topic false) n.endpoints ok'.valid old in
    set_node-GraphOk g (set_endpoint n (with_side writer p e))
      (set_endpoint-NodeOk n (with_side writer p e) (with_side-IsHandle writer p e handle) ok')
      valid v

-- Inspecting a node keeps a well-formed graph well-formed, whatever the DDS library tells and also where the
-- inspection fails halfway.
pub inspect_local_node_ea-GraphOk :
    (d : Dds) (g : Graph) (n : Node) → GraphOk g → GraphOk (inspect_local_node_ea d g n).0
inspect_local_node_ea-GraphOk d g n v =
    inspect-keeps GraphOk d n (λ g' t r w. register_local_endpoint-GraphOk d g' n.handle t r w)
      (λ g' m topic writer p e. attach-GraphOk d g' n.handle m topic writer p e) g v
