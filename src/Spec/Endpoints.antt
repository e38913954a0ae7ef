-- ===== src/Spec/Endpoints.antt =====
-- Registering an endpoint does what the specification allows.
use rticonnextdds_ros2_adapt.Common.{
  ℤ, Option, Option-cases, none, some, inl, inr, ◌⊎◌, ◌≡◌, refl, sym, subst, ap, ◌∙◌,
}
use rticonnextdds_ros2_adapt.Types.{Ptr, EndpointType, invalid_handle, Endpoint, Node, Graph, Dds}
use rticonnextdds_ros2_adapt.InlineList.{find_of_Fresh}
use rticonnextdds_ros2_adapt.Lookup.{endp_key, lookup_local_node_by_handle}
use rticonnextdds_ros2_adapt.Endpoints.{new_endpoint, register_local_endpoint, queue_update}
use rticonnextdds_ros2_adapt.Endpoints.Register.{
  Refused, Accepted, Appended, register_local_endpoint_outcome,
}
use rticonnextdds_ros2_adapt.Invariant.{GraphOk}
use rticonnextdds_ros2_adapt.Invariant.OfEndpoints.{register_local_endpoint-GraphOk}
use rticonnextdds_ros2_adapt.Api.{announce}
use rticonnextdds_ros2_adapt.Api.Session.{graph_of}
use rticonnextdds_ros2_adapt.Spec.{
  update, with_entries, view, abs_endpoint, abs_node, abs, add_endpoint, Allowed, refused_endpoint,
  added_endpoint,
}
use rticonnextdds_ros2_adapt.Spec.Lookups.{NoEntry-of_entities}
use rticonnextdds_ros2_adapt.Spec.View.{view-append}
use rticonnextdds_ros2_adapt.Spec.Changes.{abs-lookup, abs_node-SameNode, abs-changed, update_same}

unchanged-Allowed :
    (d : Dds) (g g' : Graph) (h : ℤ) (t : EndpointType) (r w : Ptr) (n : Node)
    → GraphOk g
    → GraphOk g'
    → lookup_local_node_by_handle g h ≡ some n
    → Refused g h (g', none)
    → Allowed d g.graph_participant (abs g) (add_endpoint h t r w) (inl invalid_handle) (abs g')
unchanged-Allowed d g g' h t r w n v v' found (_, same, kept) =
    let (m, found', alike) = kept n found in
    let now : abs g' ≡ update (abs g) h (some (abs_node m)) =
      abs-changed g g' h m v v' same found' in
    let unchanged : update (abs g) h (some (abs_node m)) ≡ abs g =
      rw (abs_node-SameNode n m alike, sym (abs-lookup g h found)) (update_same (abs g) h) in
    subst (Allowed d g.graph_participant (abs g) (add_endpoint h t r w) (inl invalid_handle))
      (sym (now ∙ unchanged)) refused_endpoint

appended-Allowed :
    (d : Dds) (g g' : Graph) (h k : ℤ) (t : EndpointType) (r w : Ptr)
    → GraphOk g
    → GraphOk g'
    → Accepted d g h t r w (g', some (new_endpoint k t r w))
    → Allowed d g.graph_participant (abs g) (add_endpoint h t r w) (inl k) (abs g')
unfolding lookup_local_node_by_handle
appended-Allowed d g g' h k t r w v v' (k', n, m, p, found, found', a, same, cr, cw, free) =
    let e = new_endpoint k t r w in
    let is : new_endpoint k' t r w ≡ e = cc p in
    let a' : Appended n m e = subst (Appended n m) is a in
    let entries : view endp_key abs_endpoint m.endpoints
        ≡ update (view endp_key abs_endpoint n.endpoints) k (some (abs_endpoint e)) =
      rw (← view-append endp_key abs_endpoint n.endpoints e a'.fresh)
        (ap (view endp_key abs_endpoint) a'.endpoints) in
    let node : abs_node m
        ≡ with_entries (abs_node n)
            (update (view endp_key abs_endpoint n.endpoints) k (some (abs_endpoint e))) =
      rw (a'.name, a'.namespace, a'.participant, entries) in
    added_endpoint (abs_node n) (abs-lookup g h found) a'.valid
      (rw (find_of_Fresh endp_key k n.endpoints a'.fresh))
      (NoEntry-of_entities g h n r w found free) cr cw
      (abs-changed g g' h m v v' same found' ∙ rw node)

registered-Allowed :
    (d : Dds) (g : Graph) (h : ℤ) (t : EndpointType) (r w : Ptr) (n : Node)
    (q : Graph × Option Endpoint)
    → GraphOk g
    → GraphOk q.0
    → lookup_local_node_by_handle g h ≡ some n
    → Refused g h q ⊎ Accepted d g h t r w q
    → Allowed d g.graph_participant
        (abs g)
        (add_endpoint h t r w)
        (inl (announce q).1)
        (abs (graph_of g (announce q).0))
unfolding announce queue_update
registered-Allowed d g h t r w n (g', none) v v' found (inl refused) =
    unchanged-Allowed d g g' h t r w n v v' found refused
registered-Allowed d g h t r w n (g', some e) v v' found (inl (p, _, _)) = absurd (cc p)
registered-Allowed d g h t r w n (g', none) v v' found (inr (k, n', m, p, _, _, _, _, _, _, _)) =
    absurd (cc p)
registered-Allowed d g h t r w n (g', some e) v v' found
      (inr (k, n', m, p, a, b, c, s, cr, cw, f)) =
    let is : new_endpoint k t r w ≡ e = cc p in
    subst
      (λ x. Allowed d g.graph_participant (abs g) (add_endpoint h t r w) (inl x.handle) (abs g')) is
      (appended-Allowed d g g' h k t r w v v' (k, n', m, refl, a, b, c, s, cr, cw, f))

pub announce-Allowed :
    (d : Dds) (g : Graph) (h : ℤ) (t : EndpointType) (r w : Ptr)
    → GraphOk g
    → let q = announce (register_local_endpoint d g h t r w) in
      Allowed d g.graph_participant (abs g) (add_endpoint h t r w) (inl q.1) (abs (graph_of g q.0))
unfolding announce register_local_endpoint
announce-Allowed d g h t r w v = elim (Option-cases (lookup_local_node_by_handle g h)) [
  | inl missing ↦ rw (missing, register_local_endpoint) refused_endpoint
  | inr (n, found) ↦
      registered-Allowed d g h t r w n (register_local_endpoint d g h t r w) v
        (register_local_endpoint-GraphOk d g h t r w v) found
        (register_local_endpoint_outcome d g h t r w v)
]
