-- ===== src/Endpoints/RoundTrip.antt =====
-- RTIROS2_Graph_unregister_local_endpoint_by_handle behind RTIROS2_Graph_register_local_endpoint.
use rticonnextdds_ros2_adapt.Common.{
  ℕ, ◌%◌, size_mod, ℤ, eq_ℤ_iff, none, some, inl, inr, ◌≡◌, refl, ap, subst, ◌∙◌, arith, ok, true,
  false,
}
use rticonnextdds_ros2_adapt.Types.{Ptr, EndpointType, Endpoint, Node, Graph, Dds}
use rticonnextdds_ros2_adapt.InlineList.{find_key, remove, find_key-append, remove-append-Fresh}
use rticonnextdds_ros2_adapt.Lookup.{
  endp_key, lookup_local_node_by_handle, lookup_local_endpoint_by_handle,
}
use rticonnextdds_ros2_adapt.Lookup.Listed.{by_handle-handle}
use rticonnextdds_ros2_adapt.Endpoints.{
  new_endpoint, set_node, inc_if, dec_if, drop_endpoint, finalize_endpoint, queue_update,
  unregister_found, register_local_endpoint, unregister_local_endpoint_by_handle,
}
use rticonnextdds_ros2_adapt.Endpoints.Register.{
  Appended, SameNode, register_local_endpoint_outcome,
}
use rticonnextdds_ros2_adapt.Nodes.Own.{others, others-set_node, lookup-set_node}
use rticonnextdds_ros2_adapt.Invariant.{GraphOk}
use rticonnextdds_ros2_adapt.Invariant.Counts.{AllCountsOk, CountsOk, count, found-CountsOk}

-- A counter below 2^64 that goes up and down again.
dec_if-inc_if : (p : Ptr) (c : ℕ) → dec_if p (inc_if p (c % size_mod)) ≡ c % size_mod
dec_if-inc_if none c = refl
dec_if-inc_if (some p) c = omega arith

-- The node after the new endpoint is dropped.
drop_endpoint-Appended :
    (n m : Node) (e : Endpoint) → CountsOk n → Appended n m e → SameNode n (drop_endpoint m e)
unfolding drop_endpoint
drop_endpoint-Appended n m e c a = record {
  endpoints =
      ap (remove endp_key e.handle) a.endpoints
      ∙ remove-append-Fresh endp_key e.handle n.endpoints e a.fresh refl;
  readers = rw (a.readers, c false) (dec_if-inc_if e.dds_reader (count false n.endpoints));
  writers = rw (a.writers, c true) (dec_if-inc_if e.dds_writer (count true n.endpoints));
  name = a.name;
  namespace = a.namespace;
  participant = a.participant;
}

-- An endpoint at the back of a node's list is unregistered under its handle.
unregister-Appended :
    (g : Graph) (h : ℤ) (n m : Node) (e : Endpoint)
    → lookup_local_node_by_handle g h ≡ some m
    → Appended n m e
    → unregister_local_endpoint_by_handle g h e.handle
      ≡ (queue_update (set_node g (drop_endpoint m e)), ok)
unfolding unregister_local_endpoint_by_handle unregister_found lookup_local_endpoint_by_handle
    finalize_endpoint
unregister-Appended g h n m e found a =
    let there : find_key endp_key e.handle m.endpoints ≡ some e = rw (
      a.endpoints,
      find_key-append endp_key e.handle n.endpoints e a.fresh,
      (eq_ℤ_iff e.handle e.handle).1 refl,
    ) in
    rw (unregister_found, found, there)

-- In a well-formed graph with right counters, an endpoint that was just registered is unregistered
-- with OK under its handle. The node has then the endpoints, the counters of readers and writers,
-- the names and the participant that it had before the registration, and the other nodes are as before.
pub register_local_endpoint-unregister :
    (d : Dds) (g : Graph) (h : ℤ) (t : EndpointType) (r w : Ptr) {e : Endpoint}
    → GraphOk g
    → AllCountsOk g
    → (register_local_endpoint d g h t r w).1 ≡ some e
    → let u =
        unregister_local_endpoint_by_handle (register_local_endpoint d g h t r w).0 h e.handle in
      (n : Node) × (m : Node) × (u.1 ≡ ok)
      × (others h u.0 ≡ others h g)
      × (lookup_local_node_by_handle g h ≡ some n)
      × (lookup_local_node_by_handle u.0 h ≡ some m)
      × SameNode n m
unfolding queue_update lookup_local_node_by_handle drop_endpoint
register_local_endpoint-unregister d g h t r w {e} v c done =
    elim (register_local_endpoint_outcome d g h t r w v) [
      | inl (refused, _, _) ↦ absurd (cc)
      | inr (k, n, m, p, found, found', a, o, _, _, _) ↦
          let g' = (register_local_endpoint d g h t r w).0 in
          let same : new_endpoint k t r w ≡ e = cc in
          let a' : Appended n m e = subst (Appended n m) same a in
          let q = unregister-Appended g' h n m e found' a' in
          let own = by_handle-handle g' h found' in
          let m2 = drop_endpoint m e in
          (
            n,
            m2,
            rw q refl,
            rw q (others-set_node h g' m2 own ∙ o),
            found,
            rw q (lookup-set_node h g' m m2 found' refl),
            drop_endpoint-Appended n m e (found-CountsOk g h c found) a',
          )
    ]
