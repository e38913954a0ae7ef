-- ===== src/Endpoints.antt =====
-- The operations on the endpoints of a node, src/adapter_c/graph_impl.c: the handle counter,
-- registration, finalization and unregistration. Each runs with the graph's mutex held, so it is
-- one step on the graph.
pub mod Cases
pub mod Register
pub mod RoundTrip
pub mod Accepts
use rticonnextdds_ros2_adapt.Common.{
  ℕ, suc, ◌+◌, ℤ, pos, eq_ℤ, inc_size, dec_size, CString, Bool, true, false, not, ◌&&◌, is_some,
  if◌then◌else◌, Option, none, some, List, [], ◌∷◌, ◌++◌, ReturnCode, ok, error, bad_parameter,
}
use rticonnextdds_ros2_adapt.Types.{
  Ptr, EndpointType, eq_EndpointType, invalid_handle, Endpoint, def_endp, Node, Graph, Dds,
}
use rticonnextdds_ros2_adapt.Names.{detect_endpoint_type}
use rticonnextdds_ros2_adapt.InlineList.{replace, remove}
use rticonnextdds_ros2_adapt.Handles.{next_handle}
use rticonnextdds_ros2_adapt.Lookup.{
  node_key, endp_key, lookup_local_node_by_handle, lookup_local_endpoint_by_handle,
  lookup_local_endpoint_by_dds_endpoints,
}

-- A write through a pointer to a node of the graph, and to an endpoint of a node.
unfoldable pub set_node : Graph → Node → Graph
set_node g n = record g { nodes = replace node_key n g.nodes }

unfoldable pub set_endpoint : Node → Endpoint → Node
set_endpoint n e = record n { endpoints = replace endp_key e n.endpoints }

unfoldable pub queue_update : Graph → Graph
queue_update g = record g { sem_pinfo = g.sem_pinfo + 1 }

-- The handle, and the node with its counter moved on.
unfoldable pub next_endpoint_handle : Node → ℤ × Node
next_endpoint_handle n =
    let (handle, next) =
      next_handle (λ c. is_some (lookup_local_endpoint_by_handle n c)) n.endp_handle_next in
    (handle, record n { endp_handle_next = next })

-- The checks of the topic names: a DDS endpoint that is given must be of the type asked for.
abbrev pub conforms : (ℕ → CString) → Bool → EndpointType → Ptr → Bool
conforms topic writer endp_type none = true
conforms topic writer endp_type (some p) =
    eq_EndpointType endp_type (detect_endpoint_type (topic p) writer)

-- `x += 1` and `x -= 1` under `if (NULL != p)`.
abbrev pub inc_if : Ptr → ℕ → ℕ
inc_if none n = n
inc_if (some p) n = inc_size n

abbrev pub dec_if : Ptr → ℕ → ℕ
dec_if none n = n
dec_if (some p) n = dec_size n

-- The new endpoint at the back of the node's list, and the counters of the node.
unfoldable pub add_endpoint : Node → Endpoint → Node
add_endpoint n e = record n {
  endpoints = n.endpoints ++ e ∷ [];
  endpoints_len = inc_size n.endpoints_len;
  readers_len = inc_if e.dds_reader n.readers_len;
  writers_len = inc_if e.dds_writer n.writers_len;
}

abbrev pub new_endpoint : ℤ → EndpointType → Ptr → Ptr → Endpoint
new_endpoint handle endp_type reader writer = record def_endp {
  handle = handle;
  endp_type = endp_type;
  dds_reader = reader;
  dds_writer = writer;
}

-- The part of RTIROS2_Graph_register_local_endpoint behind the checks.
unfoldable pub insert_endpoint :
    Dds → Graph → Node → EndpointType → Ptr → Ptr → Graph × Option Endpoint
insert_endpoint d g node endp_type reader writer =
    let (handle, node1) = next_endpoint_handle node in
    let g1 = set_node g node1 in
    if eq_ℤ handle invalid_handle
    then (g1, none)
    else if not (d.endpoint_buffer g1)
    then (g1, none)
    else (let endp = new_endpoint handle endp_type reader writer in
        (set_node g1 (add_endpoint node1 endp), some endp))

-- RTIROS2_Graph_register_local_endpoint: the graph, and the new endpoint or NULL.
unfoldable pub register_local_endpoint :
    Dds → Graph → ℤ → EndpointType → Ptr → Ptr → Graph × Option Endpoint
register_local_endpoint d g node_handle endp_type reader writer =
    elim (lookup_local_node_by_handle g node_handle) [
      | none ↦ (g, none)
      | some node ↦
          if is_some (lookup_local_endpoint_by_dds_endpoints node reader writer)
          then (g, none)
          else if not (conforms d.reader_topic false endp_type reader)
          then (g, none)
          else if not (conforms d.writer_topic true endp_type writer)
          then (g, none)
          else insert_endpoint d g node endp_type reader writer
    ]

-- RTIROS2_Graph_finalize_endpoint on the node's part; the endpoint's buffer goes back to its pool.
unfoldable pub drop_endpoint : Node → Endpoint → Node
drop_endpoint n e = record n {
  endpoints = remove endp_key e.handle n.endpoints;
  endpoints_len = dec_size n.endpoints_len;
  writers_len = dec_if e.dds_writer n.writers_len;
  readers_len = dec_if e.dds_reader n.readers_len;
}

unfoldable pub finalize_endpoint : Graph → Node → Endpoint → Graph × ReturnCode
finalize_endpoint g node endp = (set_node g (drop_endpoint node endp), ok)

-- Both ways to unregister an endpoint, with the lookup as an argument.
unfoldable pub unregister_found : Graph → ℤ → (Node → Option Endpoint) → Graph × ReturnCode
unregister_found g node_handle lookup = elim (lookup_local_node_by_handle g node_handle) [
  | none ↦ (g, bad_parameter)
  | some node ↦ elim (lookup node) [
    | none ↦ (g, bad_parameter)
    | some endp ↦
        let (g1, rc) = finalize_endpoint g node endp in
        elim rc [ ok ↦ (queue_update g1, ok) | _ ↦ (g1, error) ]
  ]
]

unfoldable pub unregister_local_endpoint : Graph → ℤ → Ptr → Ptr → Graph × ReturnCode
unfolding unregister_found
unregister_local_endpoint g node_handle reader writer =
    unregister_found g node_handle (λ n. lookup_local_endpoint_by_dds_endpoints n reader writer)

unfoldable pub unregister_local_endpoint_by_handle : Graph → ℤ → ℤ → Graph × ReturnCode
unfolding unregister_found
unregister_local_endpoint_by_handle g node_handle endp_handle =
    unregister_found g node_handle (λ n. lookup_local_endpoint_by_handle n endp_handle)
