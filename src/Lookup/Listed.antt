-- ===== src/Lookup/Listed.antt =====
-- What a lookup returns is in the list that it searches.
use rticonnextdds_ros2_adapt.Common.{ℤ, none, some, ◌≡◌, ◌≢◌, subst}
use rticonnextdds_ros2_adapt.Types.{Ptr, Endpoint, Node, Graph}
use rticonnextdds_ros2_adapt.InlineList.{find_key, find_key-key, find-listed}
use rticonnextdds_ros2_adapt.Lookup.{
  node_key, lookup_local_node_by_handle, endp_key, dds_matches, lookup_local_endpoint_by_handle,
  lookup_local_endpoint_by_dds_endpoints,
}

pub by_dds_endpoints-listed :
    (n : Node) (r w : Ptr) {e : Endpoint}
    → lookup_local_endpoint_by_dds_endpoints n r w ≡ some e
    → find_key endp_key e.handle n.endpoints ≢ none
unfolding lookup_local_endpoint_by_dds_endpoints
by_dds_endpoints-listed n r w f = find-listed endp_key (dds_matches r w) n.endpoints f

pub by_handle-listed :
    (n : Node) (k : ℤ) {e : Endpoint}
    → lookup_local_endpoint_by_handle n k ≡ some e
    → find_key endp_key e.handle n.endpoints ≢ none
unfolding lookup_local_endpoint_by_handle
by_handle-listed n k {e} f m =
    let same : e.handle ≡ k = find_key-key endp_key k n.endpoints f in
    let missing : find_key endp_key k n.endpoints ≡ none =
      subst (λ j. find_key endp_key j n.endpoints ≡ none) same m in
    cc

pub by_handle-handle :
    (g : Graph) (h : ℤ) {n : Node} → lookup_local_node_by_handle g h ≡ some n → n.handle ≡ h
unfolding lookup_local_node_by_handle
by_handle-handle g h e = find_key-key node_key h g.nodes e
