-- ===== src/Api/Each.antt =====
-- A rule for sequences of calls: a property of each node that the operations on a node keep, the calls
-- keep.
use rticonnextdds_ros2_adapt.Common.{
  ℤ, Bool, true, false, All, Option, none, some, List, [], ◌∷◌, ◌≡◌, refl, sym, subst, ap, ◌∙◌,
}
use rticonnextdds_ros2_adapt.Types.{
  Ptr, EndpointType, subscription, publisher, client, service, invalid_handle, Endpoint, Node,
  def_node, Graph, Duration, Dds,
}
use rticonnextdds_ros2_adapt.InlineList.{find_key, find-Unique, find_key-key}
use rticonnextdds_ros2_adapt.Lookup.{
  endp_key, dds_matches, lookup_local_endpoint_by_handle, lookup_local_endpoint_by_dds_endpoints,
}
use rticonnextdds_ros2_adapt.Endpoints.{
  register_local_endpoint, add_endpoint, new_endpoint, drop_endpoint, queue_update,
  unregister_local_endpoint, unregister_local_endpoint_by_handle,
}
use rticonnextdds_ros2_adapt.Invariant.{GraphOk}
use rticonnextdds_ros2_adapt.Invariant.EachNode.{
  SameEndpoints, register_local_node-Each, unregister_local_node-Each, register_local_endpoint-Each,
  unregister_found-Each,
}
use rticonnextdds_ros2_adapt.Invariant.OfEndpoints.{found-NodeOk}
use rticonnextdds_ros2_adapt.Api.{
  announce, register_local_subscription, register_local_publisher, register_local_client,
  register_local_service, unregister_local_subscription, unregister_local_publisher,
  unregister_local_client, unregister_local_service, unregister_by_handle, register_local_node,
  unregister_local_node,
}
use rticonnextdds_ros2_adapt.Api.Session.{
  Call, graph_of, step, run, initial, step-GraphOk, initial-GraphOk,
}
use rticonnextdds_ros2_adapt.Api.Settings.{step-settings}

-- A call that inspects no node and that, where it registers an endpoint, does so with a reader and a
-- writer that pass a test.
abbrev pub fits : (Ptr → Ptr → Bool) → Call → Bool
fits allowed (Call.inspect_node h) = false
fits allowed (Call.register_subscription h (some r)) = allowed (some r) none
fits allowed (Call.register_publisher h (some w)) = allowed none (some w)
fits allowed (Call.register_client h (some r) (some w)) = allowed (some r) (some w)
fits allowed (Call.register_service h (some r) (some w)) = allowed (some r) (some w)
fits allowed _ = true

-- Such calls, in DDS environments for which the poll period of the graph is zero.
abbrev pub Fitting : (Ptr → Ptr → Bool) → Duration → List (Dds × Call) → Type 0
Fitting allowed period [] = Unit {0}
Fitting allowed period ((d, c) ∷ cs) =
    (fits allowed c ≡ true) × (d.duration_is_zero period ≡ true) × Fitting allowed period cs

module _ (P : Node → Type 0) (kept : (n m : Node) → SameEndpoints n m → P n → P m)
    (new : (n : Node) → SameEndpoints def_node n → P n) (allowed : Ptr → Ptr → Bool)
    (adds : (n : Node) (k : ℤ) (t : EndpointType) (r w : Ptr)
      → allowed r w ≡ true
      → P n
      → P (add_endpoint n (new_endpoint k t r w)))
    (drops : (n : Node) (e : Endpoint)
      → find_key endp_key e.handle n.endpoints ≡ some e
      → P n
      → P (drop_endpoint n e)) where
  announce-Each :
      (g : Graph) (q : Graph × Option Endpoint)
      → All P q.0.nodes
      → All P (graph_of g (announce q).0).nodes
  unfolding announce queue_update
  announce-Each g (g', none) c = c
  announce-Each g (g', some e) c = c

  register-Each :
      (d : Dds) (g : Graph) (h : ℤ) (t : EndpointType) (r w : Ptr)
      → allowed r w ≡ true
      → All P g.nodes
      → All P (graph_of g (announce (register_local_endpoint d g h t r w)).0).nodes
  register-Each d g h t r w fit c =
      announce-Each g (register_local_endpoint d g h t r w)
        (register_local_endpoint-Each P kept new d g h t r w (λ n k. adds n k t r w fit) c)

  unregister-Each :
      (g : Graph) (h k : ℤ) (r w : Ptr)
      → GraphOk g
      → All P g.nodes
      → All P (unregister_local_endpoint g h r w).0.nodes
        × All P (unregister_local_endpoint_by_handle g h k).0.nodes
  unfolding unregister_local_endpoint unregister_local_endpoint_by_handle
      lookup_local_endpoint_by_handle lookup_local_endpoint_by_dds_endpoints
  unregister-Each g h k r w v c = (
    unregister_found-Each P kept new g h _
        (λ n e found f.
          let (ok', _, _) = found-NodeOk g h v found in
          drops n e (find-Unique endp_key (dds_matches r w) n.endpoints ok'.unique f))
        c,
    unregister_found-Each P kept new g h _
        (λ n e found f. drops n e (
          subst (λ j. find_key endp_key j n.endpoints ≡ some e)
            (sym (find_key-key endp_key k n.endpoints f)) f))
        c,
  )

  step-Each :
      (d : Dds) (g : Graph) (c : Call)
      → fits allowed c ≡ true
      → d.duration_is_zero g.poll_period ≡ true
      → GraphOk g
      → All P g.nodes
      → All P (step d g c).nodes
  unfolding step register_local_subscription register_local_publisher register_local_client
      register_local_service unregister_local_subscription unregister_local_publisher
      unregister_local_client unregister_local_service unregister_by_handle register_local_node
      unregister_local_node announce
  step-Each d g (Call.register_node name ns p) fit still v c =
      register_local_node-Each P kept new d g name ns p still c
  step-Each d g (Call.inspect_node h) fit still v c = absurd (cc fit)
  step-Each d g (Call.unregister_node h) fit still v c = unregister_local_node-Each P kept new g h c
  step-Each d g (Call.register_subscription h none) fit still v c = c
  step-Each d g (Call.register_subscription h (some r)) fit still v c =
      register-Each d g h subscription (some r) none fit c
  step-Each d g (Call.register_publisher h none) fit still v c = c
  step-Each d g (Call.register_publisher h (some r)) fit still v c =
      register-Each d g h publisher none (some r) fit c
  step-Each d g (Call.register_client h none w) fit still v c = c
  step-Each d g (Call.register_client h (some r) none) fit still v c = c
  step-Each d g (Call.register_client h (some r) (some w)) fit still v c =
      register-Each d g h client (some r) (some w) fit c
  step-Each d g (Call.register_service h none w) fit still v c = c
  step-Each d g (Call.register_service h (some r) none) fit still v c = c
  step-Each d g (Call.register_service h (some r) (some w)) fit still v c =
      register-Each d g h service (some r) (some w) fit c
  step-Each d g (Call.unregister_subscription h none) fit still v c = c
  step-Each d g (Call.unregister_subscription h (some r)) fit still v c =
      (unregister-Each g h invalid_handle _ _ v c).0
  step-Each d g (Call.unregister_publisher h none) fit still v c = c
  step-Each d g (Call.unregister_publisher h (some r)) fit still v c =
      (unregister-Each g h invalid_handle _ _ v c).0
  step-Each d g (Call.unregister_client h none w) fit still v c = c
  step-Each d g (Call.unregister_client h (some r) none) fit still v c = c
  step-Each d g (Call.unregister_client h (some r) (some w)) fit still v c =
      (unregister-Each g h invalid_handle _ _ v c).0
  step-Each d g (Call.unregister_service h none w) fit still v c = c
  step-Each d g (Call.unregister_service h (some r) none) fit still v c = c
  step-Each d g (Call.unregister_service h (some r) (some w)) fit still v c =
      (unregister-Each g h invalid_handle _ _ v c).0
  step-Each d g (Call.unregister_handle h k) fit still v c = (unregister-Each g h k none none v c).1

  run-Each_from :
      (period : Duration) (g : Graph) (cs : List (Dds × Call))
      → g.poll_period ≡ period
      → Fitting allowed period cs
      → GraphOk g
      → All P g.nodes
      → All P (run g cs).nodes
  unfolding run
  run-Each_from period g [] own fitting v c = c
  run-Each_from period g ((d, x) ∷ cs) own (fit, still, more) v c =
      run-Each_from period (step d g x) cs (ap (λ q. q.1) (step-settings d g x) ∙ own) more
        (step-GraphOk d g x v)
        (step-Each d g x fit (subst (λ t. d.duration_is_zero t ≡ true) (sym own) still) v c)

  pub run-Each :
      (participant : Ptr) (period : Duration) (cs : List (Dds × Call))
      → Fitting allowed period cs
      → All P (run (initial participant period) cs).nodes
  run-Each participant period cs fitting =
      run-Each_from period (initial participant period) cs refl fitting
        (initial-GraphOk participant period) tt
