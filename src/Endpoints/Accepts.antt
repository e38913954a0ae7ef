-- ===== src/Endpoints/Accepts.antt =====
-- When RTIROS2_Graph_register_local_endpoint registers an endpoint.
use rticonnextdds_ros2_adapt.Common.{
  ◌≤◌, ℤ, eq_ℤ, eq_ℤ_iff, length, Bool, Bool-cases, true, false, ◌&&◌, is_some, is_none,
  Option-cases, none, some, inl, inr, ◌≡◌, ◌≢◌, arith,
}
use rticonnextdds_ros2_adapt.Types.{Ptr, EndpointType, invalid_handle, Node, Graph, Dds}
use rticonnextdds_ros2_adapt.Handles.Total.{next_handle_total}
use rticonnextdds_ros2_adapt.Lookup.{
  endp_key, lookup_local_node_by_handle, lookup_local_endpoint_by_handle,
  lookup_local_endpoint_by_dds_endpoints,
}
use rticonnextdds_ros2_adapt.Endpoints.{
  set_node, next_endpoint_handle, conforms, insert_endpoint, register_local_endpoint,
}
use rticonnextdds_ros2_adapt.Invariant.{NodeOk, GraphOk}
use rticonnextdds_ros2_adapt.Invariant.OfEndpoints.{found-NodeOk}

-- In a node with at most 2^30 - 3 endpoints a handle is found.
next_endpoint_handle_total :
    (n : Node)
    → NodeOk n
    → length n.endpoints ≤ 1073741821
    → (next_endpoint_handle n).0 ≢ invalid_handle
unfolding next_endpoint_handle lookup_local_endpoint_by_handle
next_endpoint_handle_total n v room =
    next_handle_total endp_key n.endpoints n.endp_handle_next v.counter room

-- What a registration asks of the graph and of the topic names.
abbrev pub acceptable : Dds → Graph → ℤ → EndpointType → Ptr → Ptr → Bool
acceptable d g h t r w = elim (lookup_local_node_by_handle g h) [
  | none ↦ false
  | some n ↦
      is_none (lookup_local_endpoint_by_dds_endpoints n r w)
      && conforms d.reader_topic false t r
      && conforms d.writer_topic true t w
]

insert_endpoint-is_some :
    (d : Dds) (g : Graph) (n : Node) (t : EndpointType) (r w : Ptr)
    → NodeOk n
    → length n.endpoints ≤ 1073741821
    → ((g' : Graph) → d.endpoint_buffer g' ≡ true)
    → is_some (insert_endpoint d g n t r w).1 ≡ true
unfolding insert_endpoint
insert_endpoint-is_some d g n t r w v room memory =
    elim (Bool-cases (eq_ℤ (next_endpoint_handle n).0 invalid_handle)) [
      | inl none_left ↦ absurd (
          next_endpoint_handle_total n v room
            (ground (arith, eq_ℤ_iff (next_endpoint_handle n).0 invalid_handle)))
      | inr found ↦ rw (found, memory (set_node g (next_endpoint_handle n).1))
    ]

-- In a well-formed graph in which the node that is named, if it is there, has at most 2^30 - 3
-- endpoints, and with memory for the endpoint, a registration answers an endpoint exactly where the
-- node is there, no endpoint of it matches the DDS entities, and their topic names conform to the type.
pub register_local_endpoint_accepts :
    (d : Dds) (g : Graph) (h : ℤ) (t : EndpointType) (r w : Ptr)
    → GraphOk g
    → ((n : Node) → lookup_local_node_by_handle g h ≡ some n → length n.endpoints ≤ 1073741821)
    → ((g' : Graph) → d.endpoint_buffer g' ≡ true)
    → is_some (register_local_endpoint d g h t r w).1 ≡ acceptable d g h t r w
unfolding register_local_endpoint
register_local_endpoint_accepts d g h t r w v room memory =
    elim (Option-cases (lookup_local_node_by_handle g h)) [
      | inl missing ↦ rw (missing, register_local_endpoint, acceptable)
      | inr (n, found) ↦
          let (ok', _, _) = found-NodeOk g h v found in
          let added = insert_endpoint-is_some d g n t r w ok' (room n found) memory in
          elim (Option-cases (lookup_local_endpoint_by_dds_endpoints n r w)) [
            | inr (e, old) ↦ rw (found, register_local_endpoint, acceptable, old)
            | inl free ↦ elim (Bool-cases (conforms d.reader_topic false t r)) [
              | inr bad ↦ rw (found, register_local_endpoint, acceptable, free, bad)
              | inl cr ↦ elim (Bool-cases (conforms d.writer_topic true t w)) [
                | inr bad ↦ rw (found, register_local_endpoint, acceptable, free, cr, bad)
                | inl cw ↦ rw (found, register_local_endpoint, acceptable, free, cr, cw) added
              ]
            ]
          ]
    ]
