-- ===== src/Nodes/Settings.antt =====
-- No operation changes the participant of the graph, or its poll period.
use rticonnextdds_ros2_adapt.Common.{
  ℤ, eq_ℤ, CString, Bool-cases, ◌||◌, is_some, Option, Option-cases, none, some, inl, inr, ◌≡◌,
  refl, ◌∙◌, is_ok,
}
use rticonnextdds_ros2_adapt.Types.{
  Duration, Ptr, EndpointType, invalid_handle, Endpoint, Node, def_node, Graph, Dds,
}
use rticonnextdds_ros2_adapt.Lookup.{lookup_local_node_by_handle, lookup_local_node_by_name}
use rticonnextdds_ros2_adapt.Endpoints.{
  set_node, queue_update, register_local_endpoint, unregister_found,
}
use rticonnextdds_ros2_adapt.Endpoints.Cases.{insert_cases, register_cases, unregister_cases}
use rticonnextdds_ros2_adapt.Inspect.{inspect_local_node_ea}
use rticonnextdds_ros2_adapt.Inspect.Rule.{inspect-keeps}
use rticonnextdds_ros2_adapt.Nodes.{
  next_node_handle, finalize_node, add_node, or_default, namespace_or_default, is_polling_enabled,
  poll_node, fill_node, register_checked, bad_name, bad_namespace, register_local_node,
  inspect_local_node, unregister_local_node,
}

abbrev pub settings : Graph → Ptr × Duration
settings g = (g.graph_participant, g.poll_period)

pub register_local_endpoint-settings :
    (d : Dds) (g : Graph) (h : ℤ) (t : EndpointType) (r w : Ptr)
    → settings (register_local_endpoint d g h t r w).0 ≡ settings g
unfolding set_node
register_local_endpoint-settings d g h t r w =
    register_cases (λ q. settings q.0 ≡ settings g) d g h t r w refl
      λ n _ _ _ _. insert_cases (λ q. settings q.0 ≡ settings g) d g n t r w refl λ _. refl

pub unregister_found-settings :
    (g : Graph) (h : ℤ) (lookup : Node → Option Endpoint)
    → settings (unregister_found g h lookup).0 ≡ settings g
unfolding set_node queue_update
unregister_found-settings g h lookup =
    unregister_cases (λ q. settings q.0 ≡ settings g) g h lookup (λ _. refl) λ _ _ _ _. refl

inspect-settings :
    (d : Dds) (g : Graph) (n : Node) → settings (inspect_local_node_ea d g n).0 ≡ settings g
unfolding set_node
inspect-settings d g n =
    inspect-keeps (λ g'. settings g' ≡ settings g) d n
      (λ g' t r w e. register_local_endpoint-settings d g' n.handle t r w ∙ e)
      (λ g' m topic writer q e _ _ _ same. same) g refl

pub inspect_local_node-settings :
    (d : Dds) (g : Graph) (h : ℤ) → settings (inspect_local_node d g h).0 ≡ settings g
unfolding inspect_local_node queue_update
inspect_local_node-settings d g h = elim (Option-cases (lookup_local_node_by_handle g h)) [
  | inl missing ↦ rw (missing, inspect_local_node)
  | inr (n, found) ↦ elim (Bool-cases (is_ok (inspect_local_node_ea d g n).1)) [
    | inl good ↦ rw (found, inspect_local_node, good) (inspect-settings d g n)
    | inr bad ↦ rw (found, inspect_local_node, bad) (inspect-settings d g n)
  ]
]

pub unregister_local_node-settings :
    (g : Graph) (h : ℤ) → settings (unregister_local_node g h).0 ≡ settings g
unfolding unregister_local_node finalize_node
unregister_local_node-settings g h = elim (Option-cases (lookup_local_node_by_handle g h)) [
  | inl missing ↦ rw (missing, unregister_local_node)
  | inr (n, found) ↦ rw (found, unregister_local_node)
]

poll_node-settings : (d : Dds) (g : Graph) (n : Node) → settings (poll_node d g n).0 ≡ settings g
unfolding poll_node finalize_node
poll_node-settings d g n = elim (Bool-cases (is_polling_enabled d g)) [
  | inr still ↦ rw still
  | inl polling ↦ elim (Bool-cases (is_ok (inspect_local_node_ea d g n).1)) [
    | inl good ↦ rw (polling, good) (inspect-settings d g n)
    | inr bad ↦ rw (polling, bad) (inspect-settings d g n)
  ]
]

fill_node-settings :
    (d : Dds) (g : Graph) (n : Node) (name : CString) (ns : Option CString)
    → settings (fill_node d g n name ns).0 ≡ settings g
unfolding fill_node finalize_node queue_update set_node
fill_node-settings d g n name ns =
    let n1 : Node = record n { node_name = name } in
    let n2 : Node = record n1 { node_namespace = namespace_or_default ns } in
    let g1 = set_node g n1 in
    elim (Bool-cases (d.string_dup g name)) [
      | inr no_name ↦ rw no_name
      | inl name_copied ↦ elim (Bool-cases (d.string_dup g1 (namespace_or_default ns))) [
        | inr no_namespace ↦ rw (name_copied, no_namespace)
        | inl copied ↦
            rw (name_copied, copied) (poll_node-settings d (queue_update (set_node g1 n2)) n2)
      ]
    ]

register_checked-settings :
    (d : Dds) (g : Graph) (name : CString) (ns : Option CString) (p : Ptr)
    → settings (register_checked d g name ns p).0 ≡ settings g
unfolding register_checked next_node_handle add_node
register_checked-settings d g name ns p =
    let (handle, g1) = next_node_handle g in
    let n : Node = record def_node {
      dds_participant = or_default p g.graph_participant;
      handle = handle;
    } in
    elim (Bool-cases (is_some (lookup_local_node_by_name g name ns))) [
      | inl taken ↦ rw taken
      | inr free ↦ elim (Bool-cases (eq_ℤ handle invalid_handle)) [
        | inl none_left ↦ rw (free, none_left)
        | inr found ↦ elim (Bool-cases (d.node_buffer g1)) [
          | inr no_buffer ↦ rw (free, found, no_buffer)
          | inl buffer ↦ rw (free, found, buffer) (fill_node-settings d (add_node g1 n) n name ns)
        ]
      ]
    ]

pub register_local_node-settings :
    (d : Dds) (g : Graph) (name ns : Option CString) (p : Ptr)
    → settings (register_local_node d g name ns p).0 ≡ settings g
unfolding register_local_node
register_local_node-settings d g none ns p = refl
register_local_node-settings d g (some name) ns p =
    elim (Bool-cases (bad_name (some name) || bad_namespace ns)) [
      | inl bad ↦ rw bad
      | inr good ↦ rw good (register_checked-settings d g name ns p)
    ]
