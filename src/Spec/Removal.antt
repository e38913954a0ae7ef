-- ===== src/Spec/Removal.antt =====
-- Unregistering an endpoint does what the specification allows.
use rticonnextdds_ros2_adapt.Common.{
  ℤ, eq_ℤ_iff, true, Option, Option-cases, none, some, inl, inr, ◌≡◌, refl, sym, subst, ok,
}
use rticonnextdds_ros2_adapt.Types.{Ptr, Endpoint, Node, Graph, Dds}
use rticonnextdds_ros2_adapt.InlineList.{find_key, find_sound, find-Unique, find_key-key}
use rticonnextdds_ros2_adapt.Lookup.{
  endp_key, dds_matches, lookup_local_node_by_handle, lookup_local_endpoint_by_handle,
  lookup_local_endpoint_by_dds_endpoints,
}
use rticonnextdds_ros2_adapt.Endpoints.{
  queue_update, set_node, drop_endpoint, unregister_found, unregister_local_endpoint,
  unregister_local_endpoint_by_handle,
}
use rticonnextdds_ros2_adapt.Endpoints.Cases.{unregister_cases}
use rticonnextdds_ros2_adapt.Nodes.Own.{others-set_node, lookup-set_node}
use rticonnextdds_ros2_adapt.Invariant.{GraphOk}
use rticonnextdds_ros2_adapt.Invariant.OfEndpoints.{
  found-NodeOk, unregister_local_endpoint-GraphOk, unregister_local_endpoint_by_handle-GraphOk,
}
use rticonnextdds_ros2_adapt.Spec.{
  abs_endpoint, abs_node, abs, Selector, by_handle, by_entities, selects, remove_endpoint, NoEntry,
  Allowed, no_endpoint_to_remove, removed_endpoint,
}
use rticonnextdds_ros2_adapt.Spec.Lookups.{
  NoEntry-of_missing, NoEntry-of_entities, NoEntry-of_handle,
}
use rticonnextdds_ros2_adapt.Spec.View.{view-remove}
use rticonnextdds_ros2_adapt.Spec.Changes.{abs-lookup, abs-changed}

-- The node without the endpoint that was found.
dropped-Allowed :
    (d : Dds) (g : Graph) (h : ℤ) (s : Selector) (n : Node) (e : Endpoint)
    → GraphOk g
    → GraphOk (queue_update (set_node g (drop_endpoint n e)))
    → lookup_local_node_by_handle g h ≡ some n
    → find_key endp_key e.handle n.endpoints ≡ some e
    → selects s e.handle (abs_endpoint e) ≡ true
    → Allowed d g.graph_participant
        (abs g)
        (remove_endpoint h s)
        (inr ok)
        (abs (queue_update (set_node g (drop_endpoint n e))))
unfolding drop_endpoint queue_update lookup_local_node_by_handle
dropped-Allowed d g h s n e v v' found listed chosen =
    let m = drop_endpoint n e in
    let (ok', _, own) = found-NodeOk g h v found in
    let found' = lookup-set_node h g n m found refl in
    removed_endpoint (abs_node n) (abs_endpoint e) (abs-lookup g h found) (rw listed) chosen (
      rw (
        abs-changed g (queue_update (set_node g m)) h m v v' (others-set_node h g m own) found',
        view-remove endp_key abs_endpoint e.handle n.endpoints ok'.unique,
      ))

-- Unregistering, by the rule for a lookup that finds what the selector selects.
unregister-Allowed :
    (d : Dds) (g : Graph) (h : ℤ) (s : Selector) (lookup : Node → Option Endpoint)
    → GraphOk g
    → GraphOk (unregister_found g h lookup).0
    → ((n : Node)
        → lookup_local_node_by_handle g h ≡ some n
        → lookup n ≡ none
        → NoEntry (abs g) h (selects s))
    → ((n : Node) (e : Endpoint)
        → lookup_local_node_by_handle g h ≡ some n
        → lookup n ≡ some e
        → (find_key endp_key e.handle n.endpoints ≡ some e)
          × (selects s e.handle (abs_endpoint e) ≡ true))
    → let q = unregister_found g h lookup in
      Allowed d g.graph_participant (abs g) (remove_endpoint h s) (inr q.1) (abs q.0)
unregister-Allowed d g h s lookup v v' nothing chosen =
    unregister_cases
      (λ q.
        GraphOk q.0
        → Allowed d g.graph_participant (abs g) (remove_endpoint h s) (inr q.1) (abs q.0))
      g h lookup
      (λ missing _. no_endpoint_to_remove (elim (Option-cases (lookup_local_node_by_handle g h)) [
        | inl gone ↦ NoEntry-of_missing g h (selects s) gone
        | inr (n, found) ↦ nothing n found (missing n found)
      ]))
      (λ n e found f ok'.
        let (listed, is) = chosen n e found f in dropped-Allowed d g h s n e v ok' found listed is)
      v'

pub unregister_by_entities-Allowed :
    (d : Dds) (g : Graph) (h : ℤ) (r w : Ptr)
    → GraphOk g
    → let q = unregister_local_endpoint g h r w in
      Allowed d g.graph_participant
        (abs g)
        (remove_endpoint h (by_entities r w))
        (inr q.1)
        (abs q.0)
unfolding unregister_local_endpoint lookup_local_endpoint_by_dds_endpoints dds_matches
unregister_by_entities-Allowed d g h r w v =
    unregister-Allowed d g h (by_entities r w) _ v (unregister_local_endpoint-GraphOk g h r w v)
      (λ n found. NoEntry-of_entities g h n r w found)
      (λ n e found f.
        let (ok', _, _) = found-NodeOk g h v found in
        (
          find-Unique endp_key (dds_matches r w) n.endpoints ok'.unique f,
          find_sound (dds_matches r w) n.endpoints f,
        ))

pub unregister_by_handle-Allowed :
    (d : Dds) (g : Graph) (h k : ℤ)
    → GraphOk g
    → let q = unregister_local_endpoint_by_handle g h k in
      Allowed d g.graph_participant (abs g) (remove_endpoint h (by_handle k)) (inr q.1) (abs q.0)
unfolding unregister_local_endpoint_by_handle lookup_local_endpoint_by_handle
unregister_by_handle-Allowed d g h k v =
    unregister-Allowed d g h (by_handle k) _ v (unregister_local_endpoint_by_handle-GraphOk g h k v)
      (λ n found. NoEntry-of_handle g h k n found)
      (λ n e found f.
        let own : e.handle ≡ k = find_key-key endp_key k n.endpoints f in
        (
          subst (λ j. find_key endp_key j n.endpoints ≡ some e) (sym own) f,
          (eq_ℤ_iff e.handle k).1 own,
        ))
