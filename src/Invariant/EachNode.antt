-- ===== src/Invariant/EachNode.antt =====
-- A rule for properties of each node: what a new node has, what a write of the fields besides the
-- endpoints and their counters keeps, and what adding and dropping an endpoint keep, the operations
-- other than inspection keep.
use rticonnextdds_ros2_adapt.Common.{
  ℤ, eq_ℤ, CString, [], ◌∷◌, All, All-append, Bool-cases, true, ◌||◌, is_some, Option, Option-cases,
  none, some, inl, inr, ◌≡◌, refl,
}
use rticonnextdds_ros2_adapt.Types.{
  Ptr, EndpointType, invalid_handle, Endpoint, Node, def_node, Graph, Dds,
}
use rticonnextdds_ros2_adapt.InlineList.{All-replace, All-remove, All-find}
use rticonnextdds_ros2_adapt.Lookup.{
  node_key, lookup_local_node_by_handle, lookup_local_node_by_name,
}
use rticonnextdds_ros2_adapt.Endpoints.{
  set_node, queue_update, next_endpoint_handle, add_endpoint, new_endpoint, drop_endpoint,
  register_local_endpoint, unregister_found,
}
use rticonnextdds_ros2_adapt.Endpoints.Cases.{insert_cases, register_cases, unregister_cases}
use rticonnextdds_ros2_adapt.Nodes.{
  next_node_handle, finalize_node, add_node, or_default, namespace_or_default, undo,
  is_polling_enabled, poll_node, fill_node, register_checked, bad_name, bad_namespace,
  register_local_node, unregister_local_node,
}

-- The endpoints and their counters are the same.
pub record SameEndpoints (n m : Node) : Type 0 where
  pub endpoints : m.endpoints ≡ n.endpoints
  pub readers : m.readers_len ≡ n.readers_len
  pub writers : m.writers_len ≡ n.writers_len

module _ (P : Node → Type 0) (kept : (n m : Node) → SameEndpoints n m → P n → P m)
    (new : (n : Node) → SameEndpoints def_node n → P n) where
  abbrev Each : Graph → Type 0
  Each g = All P g.nodes

  write-Each : (g : Graph) (n : Node) → P n → Each g → Each (set_node g n)
  unfolding set_node
  write-Each g n c v = All-replace node_key P n g.nodes c v

  found-Each :
      (g : Graph) (h : ℤ) {n : Node} → Each g → lookup_local_node_by_handle g h ≡ some n → P n
  unfolding lookup_local_node_by_handle
  found-Each g h v found = All-find node_key P h g.nodes v found

  undo-Each : (g : Graph) (n : Node) → Each g → Each (undo g n).0
  unfolding finalize_node
  undo-Each g n c = All-remove node_key P n.handle g.nodes c

  fill_node-Each :
      (d : Dds) (g : Graph) (n : Node) (name : CString) (ns : Option CString)
      → d.duration_is_zero g.poll_period ≡ true
      → P n
      → Each g
      → Each (fill_node d g n name ns).0
  unfolding fill_node poll_node is_polling_enabled queue_update set_node
  fill_node-Each d g n name ns still c v =
      let n1 : Node = record n { node_name = name } in
      let n2 : Node = record n1 { node_namespace = namespace_or_default ns } in
      let g1 = set_node g n1 in
      let v1 =
        write-Each g n1 (kept n n1 (record { endpoints = refl; readers = refl; writers = refl }) c)
          v in
      let v2 =
        write-Each g1 n2 (kept n n2 (record { endpoints = refl; readers = refl; writers = refl }) c)
          v1 in
      elim (Bool-cases (d.string_dup g name)) [
        | inr no_name ↦ rw no_name (undo-Each g n v)
        | inl name_copied ↦ elim (Bool-cases (d.string_dup g1 (namespace_or_default ns))) [
          | inr no_namespace ↦ rw (name_copied, no_namespace) (undo-Each g1 n1 v1)
          | inl copied ↦ rw (name_copied, copied, still) v2
        ]
      ]

  -- Registering a node, where polling is disabled by a poll period of zero.
  pub register_local_node-Each :
      (d : Dds) (g : Graph) (name ns : Option CString) (p : Ptr)
      → d.duration_is_zero g.poll_period ≡ true
      → Each g
      → Each (register_local_node d g name ns p).0
  unfolding register_local_node register_checked next_node_handle add_node
  register_local_node-Each d g none ns p still v = v
  register_local_node-Each d g (some name) ns p still v =
      let (handle, g1) = next_node_handle g in
      let n : Node = record def_node {
        dds_participant = or_default p g.graph_participant;
        handle = handle;
      } in
      let c = new n (record { endpoints = refl; readers = refl; writers = refl }) in
      elim (Bool-cases (bad_name (some name) || bad_namespace ns)) [
        | inl bad ↦ rw bad v
        | inr good ↦ elim (Bool-cases (is_some (lookup_local_node_by_name g name ns))) [
          | inl taken ↦ rw (good, taken) v
          | inr free ↦ elim (Bool-cases (eq_ℤ handle invalid_handle)) [
            | inl none_left ↦ rw (good, free, none_left) v
            | inr found ↦ elim (Bool-cases (d.node_buffer g1)) [
              | inr no_buffer ↦ rw (good, free, found, no_buffer) v
              | inl buffer ↦
                  rw (good, free, found, buffer)
                    (fill_node-Each d (add_node g1 n) n name ns still c
                      (All-append P g.nodes (n ∷ []) v (c, tt)))
            ]
          ]
        ]
      ]

  pub unregister_local_node-Each : (g : Graph) (h : ℤ) → Each g → Each (unregister_local_node g h).0
  unfolding unregister_local_node finalize_node
  unregister_local_node-Each g h v = elim (Option-cases (lookup_local_node_by_handle g h)) [
    | inl missing ↦ rw (missing, unregister_local_node) v
    | inr (n, found) ↦ rw (found, unregister_local_node) (undo-Each g n v)
  ]

  pub register_local_endpoint-Each :
      (d : Dds) (g : Graph) (h : ℤ) (t : EndpointType) (r w : Ptr)
      → ((n : Node) (k : ℤ) → P n → P (add_endpoint n (new_endpoint k t r w)))
      → Each g
      → Each (register_local_endpoint d g h t r w).0
  unfolding next_endpoint_handle
  register_local_endpoint-Each d g h t r w adds v =
      register_cases (λ q. Each q.0) d g h t r w v
        λ n found _ _ _.
          let n1 = (next_endpoint_handle n).1 in
          let c1 : P n1 =
            kept n n1 (record { endpoints = refl; readers = refl; writers = refl })
              (found-Each g h v found) in
          let v1 = write-Each g n1 c1 v in
          insert_cases (λ q. Each q.0) d g n t r w v1
            λ _. write-Each (set_node g n1) _ (adds n1 (next_endpoint_handle n).0 c1) v1

  pub unregister_found-Each :
      (g : Graph) (h : ℤ) (lookup : Node → Option Endpoint)
      → ((n : Node) (e : Endpoint)
          → lookup_local_node_by_handle g h ≡ some n
          → lookup n ≡ some e
          → P n
          → P (drop_endpoint n e))
      → Each g
      → Each (unregister_found g h lookup).0
  unfolding queue_update
  unregister_found-Each g h lookup drops v =
      unregister_cases (λ q. Each q.0) g h lookup (λ _. v)
        λ n e found f.
          write-Each g (drop_endpoint n e) (drops n e found f (found-Each g h v found)) v
