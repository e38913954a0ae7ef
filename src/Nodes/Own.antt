-- ===== src/Nodes/Own.antt =====
-- What an operation on one node leaves alone: every other node, and the names of the node itself.
use rticonnextdds_ros2_adapt.Common.{ℕ, ℤ, CString, eq_ℤ_iff, some, List, ◌≡◌, refl, ◌∙◌, arith}
use rticonnextdds_ros2_adapt.Types.{Ptr, EndpointType, Endpoint, Node, Graph, Dds}
use rticonnextdds_ros2_adapt.InlineList.{remove, find_key, remove-replace, find_key-replace}
use rticonnextdds_ros2_adapt.Lookup.{node_key, lookup_local_node_by_handle}
use rticonnextdds_ros2_adapt.Lookup.Listed.{by_handle-handle}
use rticonnextdds_ros2_adapt.Endpoints.{
  set_node, set_endpoint, next_endpoint_handle, add_endpoint, register_local_endpoint,
}
use rticonnextdds_ros2_adapt.Endpoints.Cases.{insert_cases, register_cases}
use rticonnextdds_ros2_adapt.Inspect.{with_side, inspect_local_node_ea}
use rticonnextdds_ros2_adapt.Inspect.Rule.{inspect-keeps}

-- The nodes but the one with a handle.
abbrev pub others : ℤ → Graph → List Node
others k g = remove node_key k g.nodes

pub others-set_node :
    (k : ℤ) (g : Graph) (n : Node) → n.handle ≡ k → others k (set_node g n) ≡ others k g
unfolding set_node
others-set_node k g n h = remove-replace node_key k n g.nodes h

-- The graph has a node with these names and this participant under the handle.
abbrev pub IsNamed : ℤ → CString → CString → Ptr → Graph → Type 0
IsNamed k name ns p g =
    (n : Node) × (lookup_local_node_by_handle g k ≡ some n)
    × (n.node_name ≡ name)
    × (n.node_namespace ≡ ns)
    × (n.dds_participant ≡ p)

-- A write through a pointer to a node is read back.
pub lookup-set_node :
    (k : ℤ) (g : Graph) (n m : Node)
    → lookup_local_node_by_handle g k ≡ some n
    → m.handle ≡ n.handle
    → lookup_local_node_by_handle (set_node g m) k ≡ some m
unfolding set_node lookup_local_node_by_handle
lookup-set_node k g n m found same =
    let own : m.handle ≡ k = same ∙ by_handle-handle g k found in
    let there : find_key node_key m.handle g.nodes ≡ some n = rw own found in
    ground (arith, find_key-replace node_key k m g.nodes there, eq_ℤ_iff m.handle k)

module _ (k : ℤ) (name ns : CString) (p : Ptr) where
  -- The names of the node that is found.
  named-found :
      (g : Graph) (n : Node)
      → lookup_local_node_by_handle g k ≡ some n
      → IsNamed k name ns p g
      → (n.node_name ≡ name) × (n.node_namespace ≡ ns) × (n.dds_participant ≡ p)
  named-found g n found (m, e, a, b, c) =
      let same : m ≡ n = cc in (rw (← same) a, rw (← same) b, rw (← same) c)

  register-IsNamed :
      (d : Dds) (g : Graph) (t : EndpointType) (r w : Ptr)
      → IsNamed k name ns p g
      → IsNamed k name ns p (register_local_endpoint d g k t r w).0
  unfolding next_endpoint_handle add_endpoint
  register-IsNamed d g t r w v =
      register_cases (λ q. IsNamed k name ns p q.0) d g k t r w v
        λ n found _ _ _.
          let (a, b, c) = named-found g n found v in
          let n1 = (next_endpoint_handle n).1 in
          let moved = lookup-set_node k g n n1 found refl in
          insert_cases (λ q. IsNamed k name ns p q.0) d g n t r w (n1, moved, a, b, c)
            λ _.
              let n2 = add_endpoint n1 _ in
              (n2, lookup-set_node k (set_node g n1) n1 n2 moved refl, a, b, c)

  attach-IsNamed :
      (g : Graph) (n : Node) (e : Endpoint)
      → lookup_local_node_by_handle g k ≡ some n
      → IsNamed k name ns p g
      → IsNamed k name ns p (set_node g (set_endpoint n e))
  unfolding set_endpoint
  attach-IsNamed g n e found v =
      let (a, b, c) = named-found g n found v in
      (set_endpoint n e, lookup-set_node k g n (set_endpoint n e) found refl, a, b, c)

-- Inspection of a node keeps its names and its participant.
pub inspect-IsNamed :
    (name ns : CString) (p : Ptr) (d : Dds) (g : Graph) (n : Node)
    → IsNamed n.handle name ns p g
    → IsNamed n.handle name ns p (inspect_local_node_ea d g n).0
inspect-IsNamed name ns p d g n v =
    inspect-keeps (IsNamed n.handle name ns p) d n
      (λ g' t r w. register-IsNamed n.handle name ns p d g' t r w)
      (λ g' m topic writer q e found _ _ v'. attach-IsNamed n.handle name ns p g' m _ found v') g v

register-others :
    (k : ℤ) (rest : List Node) (d : Dds) (g : Graph) (t : EndpointType) (r w : Ptr)
    → others k g ≡ rest
    → others k (register_local_endpoint d g k t r w).0 ≡ rest
unfolding next_endpoint_handle add_endpoint
register-others k rest d g t r w v =
    register_cases (λ q. others k q.0 ≡ rest) d g k t r w v
      λ n found _ _ _.
        let own = by_handle-handle g k found in
        let moved : others k (set_node g (next_endpoint_handle n).1) ≡ rest =
          others-set_node k g (next_endpoint_handle n).1 own ∙ v in
        insert_cases (λ q. others k q.0 ≡ rest) d g n t r w moved
          λ _. others-set_node k _ (add_endpoint (next_endpoint_handle n).1 _) own ∙ moved

-- Inspection of a node changes no other node.
pub inspect-others :
    (d : Dds) (g : Graph) (n : Node)
    → others n.handle (inspect_local_node_ea d g n).0 ≡ others n.handle g
unfolding set_endpoint
inspect-others d g n =
    inspect-keeps (λ g'. others n.handle g' ≡ others n.handle g) d n
      (λ g' t r w. register-others n.handle (others n.handle g) d g' t r w)
      (λ g' m topic writer p e found _ _ v.
        others-set_node n.handle g' (set_endpoint m (with_side writer p e))
          (by_handle-handle g' n.handle found)
        ∙ v)
      g refl

register-sem_pinfo :
    (k : ℤ) (s : ℕ) (d : Dds) (g : Graph) (t : EndpointType) (r w : Ptr)
    → g.sem_pinfo ≡ s
    → (register_local_endpoint d g k t r w).0.sem_pinfo ≡ s
unfolding set_node
register-sem_pinfo k s d g t r w v =
    register_cases (λ q. q.0.sem_pinfo ≡ s) d g k t r w v
      λ n _ _ _ _. insert_cases (λ q. q.0.sem_pinfo ≡ s) d g n t r w v λ _. v

-- Inspecting a node, with the endpoints that it registers, signals no update by itself.
pub inspect-sem_pinfo :
    (d : Dds) (g : Graph) (n : Node) → (inspect_local_node_ea d g n).0.sem_pinfo ≡ g.sem_pinfo
unfolding set_node
inspect-sem_pinfo d g n =
    inspect-keeps (λ g'. g'.sem_pinfo ≡ g.sem_pinfo) d n
      (λ g' t r w. register-sem_pinfo n.handle g.sem_pinfo d g' t r w)
      (λ g' m topic writer q e _ _ _ v'. v') g refl
