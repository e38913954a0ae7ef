-- ===== src/Nodes/Accepts.antt =====
-- When RTIROS2_Graph_register_local_node registers a node.
use rticonnextdds_ros2_adapt.Common.{
  ◌≤◌, eq_ℤ, eq_ℤ_iff, CString, length, Bool-cases, true, false, not, ◌&&◌, ◌||◌, is_none, Option,
  Option-cases, some, inl, inr, ◌≡◌, arith,
}
use rticonnextdds_ros2_adapt.Types.{Ptr, invalid_handle, Node, def_node, Graph, Dds}
use rticonnextdds_ros2_adapt.Handles.Total.{next_handle_total}
use rticonnextdds_ros2_adapt.Lookup.{
  node_key, lookup_local_node_by_handle, lookup_local_node_by_name,
}
use rticonnextdds_ros2_adapt.Endpoints.{set_node, queue_update}
use rticonnextdds_ros2_adapt.Nodes.{
  next_node_handle, add_node, or_default, namespace_or_default, is_polling_enabled, poll_node,
  fill_node, register_checked, bad_name, bad_namespace, register_local_node,
}
use rticonnextdds_ros2_adapt.Invariant.{GraphOk}

-- Memory for a node and its strings, and no poll period.
pub record CanRegister (d : Dds) (g : Graph) : Type 0 where
  pub nodes : (g' : Graph) → d.node_buffer g' ≡ true
  pub strings : (g' : Graph) (s : CString) → d.string_dup g' s ≡ true
  pub still : d.duration_is_zero g.poll_period ≡ true

next_node_handle_total :
    (g : Graph)
    → GraphOk g
    → length g.nodes ≤ 1073741821
    → eq_ℤ (next_node_handle g).0 invalid_handle ≡ false
unfolding next_node_handle lookup_local_node_by_handle
next_node_handle_total g v room = elim (Bool-cases (eq_ℤ (next_node_handle g).0 invalid_handle)) [
  | inl e ↦ absurd (
      next_handle_total node_key g.nodes g.node_handle_next v.counter room
        (ground (arith, eq_ℤ_iff (next_node_handle g).0 invalid_handle)))
  | inr e ↦ e
]

fill_node-handle :
    (d : Dds) (g : Graph) (n : Node) (name : CString) (ns : Option CString)
    → CanRegister d g
    → (fill_node d g n name ns).1 ≡ n.handle
unfolding fill_node poll_node is_polling_enabled set_node queue_update
fill_node-handle d g n name ns can = rw (
  can.strings g name,
  can.strings (set_node g (record n { node_name = name })) (namespace_or_default ns),
  can.still,
)

-- In a well-formed graph of at most 2^30 - 3 nodes that never polls, and with memory for the node, a
-- registration answers a handle exactly where the name and the namespace are neither empty nor too
-- long and no node is found by them.
pub register_local_node_accepts :
    (d : Dds) (g : Graph) (name : CString) (ns : Option CString) (p : Ptr)
    → GraphOk g
    → length g.nodes ≤ 1073741821
    → CanRegister d g
    → not (eq_ℤ (register_local_node d g (some name) ns p).1 invalid_handle) ≡ (
        not (bad_name (some name) || bad_namespace ns)
        && is_none (lookup_local_node_by_name g name ns))
unfolding register_local_node register_checked next_node_handle add_node
register_local_node_accepts d g name ns p v room can =
    let (handle, g1) = next_node_handle g in
    let n : Node = record def_node {
      dds_participant = or_default p g.graph_participant;
      handle = handle;
    } in
    let valid = next_node_handle_total g v room in
    let filled =
      fill_node-handle d (add_node g1 n) n name ns
        (record { nodes = can.nodes; strings = can.strings; still = can.still }) in
    elim (Bool-cases (bad_name (some name) || bad_namespace ns)) [
      | inl bad ↦ rw bad
      | inr good ↦ elim (Option-cases (lookup_local_node_by_name g name ns)) [
        | inr (m, taken) ↦ rw (good, taken)
        | inl free ↦ rw (good, free, valid, can.nodes g1, filled, valid)
      ]
    ]
