-- ===== src/Invariant/Listed.antt =====
-- A node stays in the graph until it is finalized.
use rticonnextdds_ros2_adapt.Common.{ℤ, none, ◌≢◌}
use rticonnextdds_ros2_adapt.Types.{Ptr, EndpointType, Node, Graph, Dds}
use rticonnextdds_ros2_adapt.InlineList.{replace-listed}
use rticonnextdds_ros2_adapt.Lookup.{node_key, lookup_local_node_by_handle}
use rticonnextdds_ros2_adapt.Endpoints.{
  set_node, set_endpoint, register_local_endpoint, queue_update,
}
use rticonnextdds_ros2_adapt.Endpoints.Cases.{insert_cases, register_cases}
use rticonnextdds_ros2_adapt.Inspect.{with_side, inspect_local_node_ea}
use rticonnextdds_ros2_adapt.Inspect.Rule.{inspect-keeps}

-- The graph has a node with the handle.
abbrev pub Has : ℤ → Graph → Type 0
Has k g = lookup_local_node_by_handle g k ≢ none

pub set_node-Has : (k : ℤ) (g : Graph) (n : Node) → Has k g → Has k (set_node g n)
unfolding set_node lookup_local_node_by_handle
set_node-Has k g n h = replace-listed node_key k n g.nodes h

pub queue_update-Has : (k : ℤ) (g : Graph) → Has k g → Has k (queue_update g)
unfolding queue_update lookup_local_node_by_handle
queue_update-Has k g h = h

register-Has :
    (k : ℤ) (d : Dds) (g : Graph) (h : ℤ) (t : EndpointType) (r w : Ptr)
    → Has k g
    → Has k (register_local_endpoint d g h t r w).0
register-Has k d g h t r w v =
    register_cases (λ q. Has k q.0) d g h t r w v
      λ n _ _ _ _.
        insert_cases (λ q. Has k q.0) d g n t r w (set_node-Has k g _ v)
          λ _. set_node-Has k _ _ (set_node-Has k g _ v)

-- Inspection removes no node.
pub inspect-Has :
    (k : ℤ) (d : Dds) (g : Graph) (n : Node) → Has k g → Has k (inspect_local_node_ea d g n).0
inspect-Has k d g n h =
    inspect-keeps (Has k) d n (λ g' t r w. register-Has k d g' n.handle t r w)
      (λ g n topic writer p e _ _ _ v. set_node-Has k g (set_endpoint n (with_side writer p e)) v) g
      h
