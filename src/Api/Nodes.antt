-- ===== src/Api/Nodes.antt =====
-- What the functions on nodes return after a node is registered, and after it is unregistered.
use rticonnextdds_ros2_adapt.Common.{
  ℤ, eq_ℤ, CString, codes, str_eq_refl, Bool-cases, true, if◌then◌else◌, Option, Option-cases, none,
  some, ◌||◌, inl, inr, ◌⊎◌, ◌≡◌, ◌≢◌, refl, arith, ok, bad_parameter,
}
use rticonnextdds_ros2_adapt.Types.{Ptr, invalid_handle, Node, Graph, Dds}
use rticonnextdds_ros2_adapt.InlineList.{find_key-remove, find-passing}
use rticonnextdds_ros2_adapt.Lookup.{
  node_key, name_matches, lookup_local_node_by_handle, lookup_local_node_by_name,
}
use rticonnextdds_ros2_adapt.Lookup.Listed.{by_handle-handle}
use rticonnextdds_ros2_adapt.Nodes.{
  namespace_or_default, or_default, bad_name, bad_namespace, register_checked, finalize_node,
}
use rticonnextdds_ros2_adapt.Nodes as NodeRegistry
use rticonnextdds_ros2_adapt.Nodes.Own.{IsNamed}
use rticonnextdds_ros2_adapt.Nodes.Register.{Registered, register_local_node-AllOrNothing}
use rticonnextdds_ros2_adapt.Invariant.{GraphOk}
use rticonnextdds_ros2_adapt.Api.{
  register_local_node, unregister_local_node, get_node_name, get_node_participant,
}

-- A registration that answers a handle has registered the node.
registered :
    (d : Dds) (g : Graph) (name : CString) (ns : Option CString) (p : Ptr)
    → GraphOk g
    → (NodeRegistry.register_local_node d g (some name) ns p).1 ≢ invalid_handle
    → Registered g name
        (namespace_or_default ns)
        (or_default p g.graph_participant)
        (NodeRegistry.register_local_node d g (some name) ns p)
registered d g name ns p v valid = elim (register_local_node-AllOrNothing d g name ns p v) [
  | inl (failed, _) ↦ absurd (valid failed)
  | inr done ↦ done
]

-- After a registration in a well-formed graph that answers a handle, the functions that read a node return under that
-- handle the given name, the given namespace or "/", and the given participant or the graph's.
pub register_local_node-get :
    (d : Dds) (g : Graph) (name : CString) (ns : Option CString) (p : Ptr)
    → GraphOk g
    → (register_local_node d (some g) (some name) ns p).1 ≢ invalid_handle
    → let q = register_local_node d (some g) (some name) ns p in
      (get_node_name q.0 q.1 true true ≡ (ok, some name, some (namespace_or_default ns)))
      × (get_node_participant q.0 q.1 ≡ or_default p g.graph_participant)
unfolding register_local_node get_node_name get_node_participant
register_local_node-get d g name ns p v valid =
    let done = registered d g name ns p v valid in
    let (n, found, a, b, c) = done.named in
    (rw (found, get_node_name, a, b), rw (found, get_node_participant) c)

-- A node with the names is what the lookup of these names asks for.
name_matches-same :
    (name : CString) (ns : Option CString) (n : Node)
    → n.node_name ≡ name
    → n.node_namespace ≡ namespace_or_default ns
    → name_matches name ns n ≡ true
unfolding name_matches
name_matches-same name none n a b =
    rw (a, b) (ground (arith, str_eq_refl name, str_eq_refl (codes "/")))
name_matches-same name (some ns) n a b = rw (a, b, str_eq_refl name, str_eq_refl ns) (ground arith)

pub taken-refused :
    (d : Dds) (g : Graph) (k : ℤ) (name : CString) (ns : Option CString) (p q : Ptr)
    → IsNamed k name (namespace_or_default ns) q g
    → NodeRegistry.register_local_node d g (some name) ns p ≡ (g, invalid_handle)
unfolding NodeRegistry.register_local_node register_checked lookup_local_node_by_name
    lookup_local_node_by_handle
taken-refused d g k name ns p q (n, found, a, b, _) =
    let taken =
      find-passing node_key (name_matches name ns) k g.nodes found
        (name_matches-same name ns n a b) in
    elim (Bool-cases (bad_name (some name) || bad_namespace ns)) [
      | inl bad ↦ rw bad
      | inr good ↦ rw (good, taken)
    ]

-- A name is registered once: after a registration in a well-formed graph that answers a handle, a
-- second one of the same name and namespace, for any participant and in any DDS environment,
-- answers INVALID and leaves the graph as it is.
pub register_local_node_twice :
    (d d' : Dds) (g : Graph) (name : CString) (ns : Option CString) (p p' : Ptr)
    → GraphOk g
    → (register_local_node d (some g) (some name) ns p).1 ≢ invalid_handle
    → let self = (register_local_node d (some g) (some name) ns p).0 in
      register_local_node d' self (some name) ns p' ≡ (self, invalid_handle)
unfolding register_local_node
register_local_node_twice d d' g name ns p p' v valid =
    let q = NodeRegistry.register_local_node d g (some name) ns p in
    let e = taken-refused d' q.0 q.1 name ns p' _ (registered d g name ns p v valid).named in rw e

pub lookup-finalize :
    (g : Graph) (n : Node) (h k : ℤ)
    → GraphOk g
    → n.handle ≡ h
    → lookup_local_node_by_handle (finalize_node g n).0 k
      ≡ (if eq_ℤ h k then none else lookup_local_node_by_handle g k)
unfolding finalize_node lookup_local_node_by_handle
lookup-finalize g n h k v own = rw own (find_key-remove node_key k h g.nodes v.unique)

-- Unregistering a node of a well-formed graph answers OK exactly if a node has the handle. Then no node has it any more,
-- every other handle names the node that it named before, and no update is signalled; else the graph
-- is as before.
pub unregister_local_node_outcome :
    (g : Graph) (h : ℤ)
    → GraphOk g
    → ((lookup_local_node_by_handle g h ≡ none)
        × (unregister_local_node (some g) h ≡ some (some g, bad_parameter)))
      ⊎ ((g' : Graph) × (unregister_local_node (some g) h ≡ some (some g', ok))
          × (lookup_local_node_by_handle g h ≢ none)
          × ((k : ℤ)
              → lookup_local_node_by_handle g' k
                ≡ (if eq_ℤ h k then none else lookup_local_node_by_handle g k))
          × (g'.sem_pinfo ≡ g.sem_pinfo))
unfolding unregister_local_node NodeRegistry.unregister_local_node finalize_node
unregister_local_node_outcome g h v = elim (Option-cases (lookup_local_node_by_handle g h)) [
  | inl missing ↦ inl (missing, rw (missing, NodeRegistry.unregister_local_node))
  | inr (n, found) ↦
      let own = by_handle-handle g h found in
      inr (
        (finalize_node g n).0,
        rw (found, NodeRegistry.unregister_local_node),
        (λ e. cc),
        (λ k. lookup-finalize g n h k v own),
        refl,
      )
]
