-- ===== src/Invariant.antt =====
-- The well-formedness of the graph object and of its nodes (struct RTIROS2_GraphI and
-- RTIROS2_GraphNodeI of src/adapter_c/graph_impl.h), which the operations keep.
pub mod Attached
pub mod Counts
pub mod EachNode
pub mod OfEndpoints
pub mod Listed
pub mod OfNodes
pub mod OfInspection
use rticonnextdds_ros2_adapt.Common.{
  ℕ, suc, ◌%◌, ◌≡◌, List, [], ◌∷◌, length, size_mod, All, IsInt32, Option, none, some,
}
use rticonnextdds_ros2_adapt.Types.{Ptr, Endpoint, Node, Graph}
use rticonnextdds_ros2_adapt.InlineList.{Unique}
use rticonnextdds_ros2_adapt.Handles.Fresh.{IsHandle}
use rticonnextdds_ros2_adapt.Lookup.{node_key, endp_key}

-- The handles of the endpoints are distinct and valid, their number is counted, and the counter for
-- handles is a 32-bit integer.
pub record NodeOk (n : Node) : Type 0 where
  pub unique : Unique endp_key n.endpoints
  pub valid : All (λ e. IsHandle e.handle) n.endpoints
  pub counted : n.endpoints_len ≡ length n.endpoints % size_mod
  pub counter : IsInt32 n.endp_handle_next

-- The same of the nodes, and of each node.
pub record GraphOk (g : Graph) : Type 0 where
  pub unique : Unique node_key g.nodes
  pub valid : All (λ n. IsHandle n.handle) g.nodes
  pub counted : g.nodes_len ≡ length g.nodes % size_mod
  pub counter : IsInt32 g.node_handle_next
  pub each : All NodeOk g.nodes
