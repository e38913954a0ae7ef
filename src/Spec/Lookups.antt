-- ===== src/Spec/Lookups.antt =====
-- The lookups that fail find nothing in the map either.
use rticonnextdds_ros2_adapt.Common.{
  ℤ, eq_ℤ, eq_ℤ_iff, Bool, Bool-cases, false, none, some, inl, inr, ◌≡◌, sym, subst, arith,
}
use rticonnextdds_ros2_adapt.Types.{Ptr, Endpoint, Node, Graph}
use rticonnextdds_ros2_adapt.InlineList.{find_key, find-passing}
use rticonnextdds_ros2_adapt.Lookup.{
  endp_key, dds_matches, lookup_local_node_by_handle, lookup_local_endpoint_by_handle,
  lookup_local_endpoint_by_dds_endpoints,
}
use rticonnextdds_ros2_adapt.Spec.{AbsEndpoint, view, abs_endpoint, abs_node, abs, matches, NoEntry}
use rticonnextdds_ros2_adapt.Spec.Changes.{view-found, abs-lookup, abs-missing}

-- A node is there, and no endpoint in its list passes the test.
NoEntry-of_list :
    (g : Graph) (h : ℤ) (n : Node) (test : ℤ → AbsEndpoint → Bool)
    → lookup_local_node_by_handle g h ≡ some n
    → ((k : ℤ) (e : Endpoint)
        → find_key endp_key k n.endpoints ≡ some e
        → test k (abs_endpoint e) ≡ false)
    → NoEntry (abs g) h test
NoEntry-of_list g h n test found none_passes m k e there entry =
    let here = abs-lookup g h found in
    let same : abs_node n ≡ m = cc in
    let entry' : view endp_key abs_endpoint n.endpoints k ≡ some e =
      subst (λ x. x.entries k ≡ some e) (sym same) entry in
    let (x, listed, is) = view-found endp_key abs_endpoint n.endpoints k entry' in
    rw (← is) (none_passes k x listed)

pub NoEntry-of_missing :
    (g : Graph) (h : ℤ) (test : ℤ → AbsEndpoint → Bool)
    → lookup_local_node_by_handle g h ≡ none
    → NoEntry (abs g) h test
NoEntry-of_missing g h test missing m k e there entry =
    let gone = abs-missing g h missing in absurd (cc)

pub NoEntry-of_entities :
    (g : Graph) (h : ℤ) (n : Node) (r w : Ptr)
    → lookup_local_node_by_handle g h ≡ some n
    → lookup_local_endpoint_by_dds_endpoints n r w ≡ none
    → NoEntry (abs g) h (λ _. matches r w)
unfolding lookup_local_endpoint_by_dds_endpoints dds_matches
NoEntry-of_entities g h n r w found free =
    NoEntry-of_list g h n (λ _. matches r w) found
      λ k e listed. elim (Bool-cases (matches r w (abs_endpoint e))) [
        | inr fails ↦ fails
        | inl passes ↦
            let taken = find-passing endp_key (dds_matches r w) k n.endpoints listed passes in
            absurd (ground arith)
      ]

pub NoEntry-of_handle :
    (g : Graph) (h k : ℤ) (n : Node)
    → lookup_local_node_by_handle g h ≡ some n
    → lookup_local_endpoint_by_handle n k ≡ none
    → NoEntry (abs g) h (λ j _. eq_ℤ j k)
unfolding lookup_local_endpoint_by_handle
NoEntry-of_handle g h k n found free =
    NoEntry-of_list g h n (λ j _. eq_ℤ j k) found
      λ j e listed. elim (Bool-cases (eq_ℤ j k)) [
        | inr fails ↦ fails
        | inl passes ↦
            let same : j ≡ k = ground (arith, eq_ℤ_iff j k) in
            let there : find_key endp_key k n.endpoints ≡ some e = rw (← same) listed in absurd (cc)
      ]
