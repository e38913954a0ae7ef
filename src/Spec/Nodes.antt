-- ===== src/Spec/Nodes.antt =====
-- Registering and unregistering a node does what the specification allows.
use rticonnextdds_ros2_adapt.Common.{
  ℤ, eq_ℤ_iff, CString, str_eq, eq_of_str_eq, Bool, Bool-cases, true, ◌&&◌, Option, Option-cases,
  none, some, inl, inr, ◌≡◌, ◌≢◌, refl, sym, subst, ap, ◌∙◌, arith,
}
use rticonnextdds_ros2_adapt.Types.{Ptr, invalid_handle, Graph, Dds}
use rticonnextdds_ros2_adapt.InlineList.{find_key, find_of_Fresh, find_key-remove}
use rticonnextdds_ros2_adapt.Handles.Fresh.{IsHandle-ne-invalid}
use rticonnextdds_ros2_adapt.Lookup.{node_key, lookup_local_node_by_handle}
use rticonnextdds_ros2_adapt.Lookup.Listed.{by_handle-handle}
use rticonnextdds_ros2_adapt.Nodes.{
  namespace_or_default, or_default, register_local_node, unregister_local_node, finalize_node,
}
use rticonnextdds_ros2_adapt.Nodes.Own.{others}
use rticonnextdds_ros2_adapt.Nodes.Register.{Registered, register_local_node-AllOrNothing}
use rticonnextdds_ros2_adapt.Api.Nodes.{taken-refused, lookup-finalize}
use rticonnextdds_ros2_adapt.Invariant.{GraphOk}
use rticonnextdds_ros2_adapt.Invariant.OfNodes.{register_local_node-GraphOk}
use rticonnextdds_ros2_adapt.Spec.{
  AbsNode, view, abs_node, abs, NameFree, add_node, remove_node, Allowed, refused_node, added_node,
  no_node_to_remove, removed_node,
}
use rticonnextdds_ros2_adapt.Spec.Changes.{view-found, abs-lookup, abs-missing, abs-update}

abs-nodes : (g g' : Graph) → g'.nodes ≡ g.nodes → abs g' ≡ abs g
abs-nodes g g' same = ap (view node_key abs_node) same

-- A registration that answers a handle finds no node with the names.
NameFree-of_Registered :
    (d : Dds) (g : Graph) (name : CString) (ns : Option CString) (p : Ptr)
    → (register_local_node d g (some name) ns p).1 ≢ invalid_handle
    → NameFree (abs g) name (namespace_or_default ns)
unfolding lookup_local_node_by_handle
NameFree-of_Registered d g name ns p valid h m there =
    elim (Bool-cases (str_eq m.name name && str_eq m.namespace (namespace_or_default ns))) [
      | inr differ ↦ differ
      | inl same ↦
          let (n, listed, is) = view-found node_key abs_node g.nodes h there in
          let name_of : AbsNode → Bool =
            λ x. str_eq x.name name && str_eq x.namespace (namespace_or_default ns) in
          let both : name_of (abs_node n) ≡ true = subst (λ x. name_of x ≡ true) (sym is) same in
          let a : str_eq n.node_name name ≡ true = ground arith in
          let b : str_eq n.node_namespace (namespace_or_default ns) ≡ true = ground arith in
          let refused = taken-refused d g h name ns p n.dds_participant (
            n,
            listed,
            eq_of_str_eq n.node_name name a,
            eq_of_str_eq n.node_namespace (namespace_or_default ns) b,
            refl,
          ) in
          absurd (valid (ap (λ q. q.1) refused))
    ]

registered-Allowed :
    (d : Dds) (g g' : Graph) (h : ℤ) (name : CString) (ns : Option CString) (p : Ptr)
    → GraphOk g'
    → NameFree (abs g) name (namespace_or_default ns)
    → Registered g name (namespace_or_default ns) (or_default p g.graph_participant) (g', h)
    → Allowed d g.graph_participant (abs g) (add_node (some name) ns p) (inl h) (abs g')
unfolding lookup_local_node_by_handle
registered-Allowed d g g' h name ns p v' free r =
    let (n, found, a, b, c) = r.named in
    added_node (abs_node n) r.valid (rw (find_of_Fresh node_key h g.nodes r.fresh)) free a b c (
      abs-update g g' h (some n) found λ j other.
        let there : find_key node_key j (others h g') ≡ find_key node_key j g'.nodes =
          rw (find_key-remove node_key j h g'.nodes v'.unique, other) in
        sym there ∙ ap (find_key node_key j) r.rest)

pub register_local_node-Allowed :
    (d : Dds) (g : Graph) (name ns : Option CString) (p : Ptr)
    → GraphOk g
    → let q = register_local_node d g name ns p in
      Allowed d g.graph_participant (abs g) (add_node name ns p) (inl q.1) (abs q.0)
unfolding register_local_node
register_local_node-Allowed d g none ns p v = refused_node
register_local_node-Allowed d g (some name) ns p v =
    let q = register_local_node d g (some name) ns p in
    elim (register_local_node-AllOrNothing d g name ns p v) [
      | inl (failed, same) ↦ rw (failed, abs-nodes g q.0 same) refused_node
      | inr done ↦
          registered-Allowed d g q.0 q.1 name ns p
            (register_local_node-GraphOk d g (some name) ns p v)
            (NameFree-of_Registered d g name ns p (IsHandle-ne-invalid q.1 done.valid)) done
    ]

pub unregister_local_node-Allowed :
    (d : Dds) (g : Graph) (h : ℤ)
    → GraphOk g
    → let q = unregister_local_node g h in
      Allowed d g.graph_participant (abs g) (remove_node h) (inr q.1) (abs q.0)
unfolding unregister_local_node finalize_node
unregister_local_node-Allowed d g h v = elim (Option-cases (lookup_local_node_by_handle g h)) [
  | inl missing ↦ rw (missing, unregister_local_node) (no_node_to_remove (abs-missing g h missing))
  | inr (n, found) ↦
      let own = by_handle-handle g h found in
      let gone = lookup-finalize g n h h v own in
      rw (found, unregister_local_node)
        (removed_node (abs_node n) (abs-lookup g h found) (
          abs-update g (finalize_node g n).0 h none (gone ∙ rw ((eq_ℤ_iff h h).1 refl))
            (λ j other. lookup-finalize g n h j v own ∙ rw other)))
]
