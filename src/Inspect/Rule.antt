-- ===== src/Inspect/Rule.antt =====
-- A rule for inspection: what every registration at the node and every attachment to an endpoint of
-- the node keeps, inspection of the node keeps.
use rticonnextdds_ros2_adapt.Common.{
  ℕ, ℤ, CString, Bool, Bool-cases, true, false, Option, Option-cases, none, some, inl, inr, List,
  [], ◌∷◌, ◌≡◌, refl, sym, subst,
}
use rticonnextdds_ros2_adapt.Types.{
  Ptr, EndpointType, unknown, subscription, publisher, client, service, invalid_handle, Endpoint,
  Node, Graph, Dds,
}
use rticonnextdds_ros2_adapt.Lookup.{
  lookup_local_node_by_handle, lookup_local_endpoint_by_dds_endpoints,
  lookup_local_endpoint_by_topic_name,
}
use rticonnextdds_ros2_adapt.Lookup.Listed.{by_handle-handle}
use rticonnextdds_ros2_adapt.Endpoints.{set_node, set_endpoint, register_local_endpoint}
use rticonnextdds_ros2_adapt.Inspect.{
  reader_arg, writer_arg, topic_of, Progress, side, with_side, registered, attach, check_handle,
  plain, inspect_typed, inspect_endpoint, inspect_endpoints, get_all, inspect_parents,
  inspect_subscribers, inspect_local_node_ea,
}

registered-graph : (q : Graph × Option Endpoint) → (registered q).0 ≡ q.0
registered-graph (g, none) = refl
registered-graph (g, some e) = refl

check_handle-graph : (q : Progress) → (check_handle q).0 ≡ q.0
check_handle-graph (g, k, true) = refl
check_handle-graph (g, k, false) = refl

module _ (P : Graph → Type 0) (d : Dds) (h : ℤ)
    (registers : (g : Graph) (t : EndpointType) (r w : Ptr)
      → P g
      → P (register_local_endpoint d g h t r w).0)
    (attaches : (g : Graph) (n : Node) (topic : CString) (writer : Bool) (p : ℕ) (e : Endpoint)
      → lookup_local_node_by_handle g h ≡ some n
      → lookup_local_endpoint_by_topic_name d n topic false ≡ some e
      → side writer e ≡ none
      → P g
      → P (set_node g (set_endpoint n (with_side writer p e)))) where
  attach-keeps :
      (writer : Bool) (t : EndpointType) (g : Graph) (n : Node) (k : ℤ) (p : ℕ)
      → lookup_local_node_by_handle g h ≡ some n
      → P g
      → P (check_handle (attach d writer t g n k p)).0
  unfolding attach
  attach-keeps writer t g n k p found v =
      subst P (sym (check_handle-graph (attach d writer t g n k p)))
        (elim (Option-cases (lookup_local_endpoint_by_topic_name d n (topic_of d writer p) false)) [
          | inl new ↦
              rw (new, attach)
                (subst P (sym (registered-graph _)) (
                  subst
                    (λ j.
                      P
                        (register_local_endpoint d g j t (reader_arg writer p)
                          (writer_arg writer p)).0)
                    (sym (by_handle-handle g h found)) (registers g t _ _ v)))
          | inr (e, old) ↦ elim (Option-cases (side writer e)) [
            | inl free ↦ rw (old, attach, free) (attaches g n _ writer p e found old free v)
            | inr (q, full) ↦ rw (old, attach, full) v
          ]
        ])

  plain-keeps :
      (writer : Bool) (t : EndpointType) (g : Graph) (n : Node) (p : ℕ)
      → lookup_local_node_by_handle g h ≡ some n
      → P g
      → P (check_handle (plain d writer t g n p)).0
  unfolding plain
  plain-keeps writer t g n p found v = subst P (sym (check_handle-graph (plain d writer t g n p))) (
      subst P (sym (registered-graph _)) (
        subst
          (λ j. P (register_local_endpoint d g j t (reader_arg writer p) (writer_arg writer p)).0)
          (sym (by_handle-handle g h found)) (registers g t _ _ v)))

  typed-keeps :
      (writer : Bool) (g : Graph) (n : Node) (k : ℤ) (p : ℕ) (t : EndpointType)
      → lookup_local_node_by_handle g h ≡ some n
      → P g
      → P (inspect_typed d writer g n k p t).0
  unfolding inspect_typed
  typed-keeps true g n k p publisher found v = plain-keeps true publisher g n p found v
  typed-keeps true g n k p subscription found v = v
  typed-keeps false g n k p publisher found v = v
  typed-keeps false g n k p subscription found v = plain-keeps false subscription g n p found v
  typed-keeps true g n k p client found v = attach-keeps true client g n k p found v
  typed-keeps false g n k p client found v = attach-keeps false client g n k p found v
  typed-keeps true g n k p service found v = attach-keeps true service g n k p found v
  typed-keeps false g n k p service found v = attach-keeps false service g n k p found v
  typed-keeps true g n k p unknown found v = v
  typed-keeps false g n k p unknown found v = v

  pub endpoint-keeps :
      (writer : Bool) (g : Graph) (k : ℤ) (p : ℕ) → P g → P (inspect_endpoint d writer h g k p).0
  unfolding inspect_endpoint
  endpoint-keeps writer g k p v = elim (Option-cases (lookup_local_node_by_handle g h)) [
    | inl missing ↦ rw (missing, inspect_endpoint) v
    | inr (n, found) ↦
        elim (Option-cases
          (lookup_local_endpoint_by_dds_endpoints n (reader_arg writer p) (writer_arg writer p))) [
            | inl new ↦ rw (found, inspect_endpoint, new) (typed-keeps writer g n k p _ found v)
            | inr (e, old) ↦ rw (found, inspect_endpoint, old) v
          ]
  ]

  pub endpoints-keep :
      (writer : Bool) (ps : List ℕ) (g : Graph) (k : ℤ)
      → P g
      → P (inspect_endpoints d writer h ps g k).0
  unfolding inspect_endpoints
  endpoints-keep writer [] g k v = v
  endpoints-keep writer (p ∷ ps) g k v =
      let q = inspect_endpoint d writer h g k p in
      let now = endpoint-keeps writer g k p v in
      elim (Bool-cases q.2) [
        | inl failed ↦ rw failed now
        | inr going ↦ rw going (endpoints-keep writer ps q.0 q.1 now)
      ]

  pub parents-keep :
      (writer : Bool) (qs : List ℕ) (g : Graph) (k : ℤ)
      → P g
      → P (inspect_parents d writer h qs g k).0
  unfolding inspect_parents
  parents-keep writer [] g k v = v
  parents-keep writer (q ∷ qs) g k v = elim (Option-cases (get_all d writer q)) [
    | inl refused ↦ rw (refused, inspect_parents) v
    | inr (ps, e) ↦
        let s = inspect_endpoints d writer h ps g k in
        let now = endpoints-keep writer ps g k v in
        elim (Bool-cases s.2) [
          | inl failed ↦ rw (e, inspect_parents, failed) now
          | inr going ↦ rw (e, inspect_parents, going) (parents-keep writer qs s.0 s.1 now)
        ]
  ]

-- A property of the graph that registering endpoints at a node and attaching DDS entities to its
-- endpoints keep is kept by inspection of the node, whatever it answers.
module _ (P : Graph → Type 0) (d : Dds) (n : Node)
    (registers : (g : Graph) (t : EndpointType) (r w : Ptr)
      → P g
      → P (register_local_endpoint d g n.handle t r w).0)
    (attaches : (g : Graph) (m : Node) (topic : CString) (writer : Bool) (p : ℕ) (e : Endpoint)
      → lookup_local_node_by_handle g n.handle ≡ some m
      → lookup_local_endpoint_by_topic_name d m topic false ≡ some e
      → side writer e ≡ none
      → P g
      → P (set_node g (set_endpoint m (with_side writer p e)))) where
  pub subscribers-keep : (g : Graph) (k : ℤ) → P g → P (inspect_subscribers d g n k).0
  unfolding inspect_subscribers
  subscribers-keep g k v = elim (Option-cases (d.get_subscribers n.dds_participant)) [
    | inl refused ↦ rw (refused, inspect_subscribers) v
    | inr (subs, e) ↦
        rw (e, inspect_subscribers) (parents-keep P d n.handle registers attaches false subs g k v)
  ]

  pub inspect-keeps : (g : Graph) → P g → P (inspect_local_node_ea d g n).0
  unfolding inspect_local_node_ea
  inspect-keeps g v = elim (Option-cases (d.get_publishers n.dds_participant)) [
    | inl refused ↦ rw (refused, inspect_local_node_ea) v
    | inr (pubs, e) ↦
        let s = inspect_parents d true n.handle pubs g invalid_handle in
        let now = parents-keep P d n.handle registers attaches true pubs g invalid_handle v in
        elim (Bool-cases s.2) [
          | inl failed ↦ rw (e, inspect_local_node_ea, failed) now
          | inr going ↦ rw (e, inspect_local_node_ea, going) (subscribers-keep s.0 s.1 now)
        ]
  ]
