-- ===== src/Api.antt =====
-- The public functions of src/adapter_c/graph.c on a graph that may be NULL: registration and
-- unregistration of endpoints and nodes, and the functions that read the graph. A function that
-- changes the graph answers the graph beside its result.
pub mod Session
pub mod Settings
pub mod Each
pub mod Counts
pub mod Endpoints
pub mod Nodes
use rticonnextdds_ros2_adapt.Common.{
  ℕ, ℤ, CString, Bool, true, false, not, is_some, is_none, ◌&&◌, ◌||◌, if◌then◌else◌, ◌>>=◌, Option,
  none, some, List, [], ReturnCode, ok, error, bad_parameter, precondition_not_met,
}
use rticonnextdds_ros2_adapt.Types.{
  Ptr, EndpointType, unknown, subscription, publisher, client, service, invalid_handle, Endpoint,
  Node, Graph, Dds,
}
use rticonnextdds_ros2_adapt.Lookup.{lookup_local_node_by_handle, lookup_local_endpoint_by_handle}
use rticonnextdds_ros2_adapt.Endpoints as Registry
use rticonnextdds_ros2_adapt.Endpoints.{register_local_endpoint, queue_update}
use rticonnextdds_ros2_adapt.Nodes as NodeRegistry

-- A `RTIROS2_Graph *`.
abbrev pub Self : Type 0
Self = Option Graph

-- The end of the four functions that register an endpoint: the handle of the new endpoint and an
-- update, or INVALID.
unfoldable pub announce : Graph × Option Endpoint → Self × ℤ
announce (g, none) = (some g, invalid_handle)
announce (g, some e) = (some (queue_update g), e.handle)

unfoldable pub register_local_subscription : Dds → Self → ℤ → Ptr → Self × ℤ
unfolding announce
register_local_subscription d (some g) h (some r) =
    announce (register_local_endpoint d g h subscription (some r) none)
register_local_subscription d self h r = (self, invalid_handle)

unfoldable pub register_local_publisher : Dds → Self → ℤ → Ptr → Self × ℤ
unfolding announce
register_local_publisher d (some g) h (some w) =
    announce (register_local_endpoint d g h publisher none (some w))
register_local_publisher d self h w = (self, invalid_handle)

unfoldable pub register_local_client : Dds → Self → ℤ → Ptr → Ptr → Self × ℤ
unfolding announce
register_local_client d (some g) h (some r) (some w) =
    announce (register_local_endpoint d g h client (some r) (some w))
register_local_client d self h r w = (self, invalid_handle)

unfoldable pub register_local_service : Dds → Self → ℤ → Ptr → Ptr → Self × ℤ
unfolding announce
register_local_service d (some g) h (some r) (some w) =
    announce (register_local_endpoint d g h service (some r) (some w))
register_local_service d self h r w = (self, invalid_handle)

-- The result of a function on a graph that is there.
abbrev pub on : Graph × ReturnCode → Self × ReturnCode
on (g, rc) = (some g, rc)

unfoldable pub unregister_local_subscription : Self → ℤ → Ptr → Self × ReturnCode
unregister_local_subscription (some g) h (some r) =
    on (Registry.unregister_local_endpoint g h (some r) none)
unregister_local_subscription self h r = (self, bad_parameter)

unfoldable pub unregister_local_publisher : Self → ℤ → Ptr → Self × ReturnCode
unregister_local_publisher (some g) h (some w) =
    on (Registry.unregister_local_endpoint g h none (some w))
unregister_local_publisher self h w = (self, bad_parameter)

unfoldable pub unregister_local_client : Self → ℤ → Ptr → Ptr → Self × ReturnCode
unregister_local_client (some g) h (some r) (some w) =
    on (Registry.unregister_local_endpoint g h (some r) (some w))
unregister_local_client self h r w = (self, bad_parameter)

unfoldable pub unregister_local_service : Self → ℤ → Ptr → Ptr → Self × ReturnCode
unregister_local_service (some g) h (some r) (some w) =
    on (Registry.unregister_local_endpoint g h (some r) (some w))
unregister_local_service self h r w = (self, bad_parameter)

-- The four functions that unregister an endpoint by its handle have one body.
unfoldable pub unregister_by_handle : Self → ℤ → ℤ → Self × ReturnCode
unregister_by_handle none h k = (none, bad_parameter)
unregister_by_handle (some g) h k = on (Registry.unregister_local_endpoint_by_handle g h k)

unfoldable pub register_local_node : Dds → Self → Option CString → Option CString → Ptr → Self × ℤ
register_local_node d none name namespace p = (none, invalid_handle)
register_local_node d (some g) name namespace p =
    let (g', h) = NodeRegistry.register_local_node d g name namespace p in (some g', h)

-- `none` is a read through NULL: both functions give the mutex of a NULL graph back.
unfoldable pub inspect_local_node : Dds → Self → ℤ → Option (Self × ReturnCode)
inspect_local_node d none h = none
inspect_local_node d (some g) h = some (on (NodeRegistry.inspect_local_node d g h))

unfoldable pub unregister_local_node : Self → ℤ → Option (Self × ReturnCode)
unregister_local_node none h = none
unregister_local_node (some g) h = some (on (NodeRegistry.unregister_local_node g h))

unfoldable pub get_node_participant : Self → ℤ → Ptr
get_node_participant none h = none
get_node_participant (some g) h = do n ← lookup_local_node_by_handle g h; n.dds_participant

-- The flags say which of the two output arguments is not NULL; the result has what is stored there.
unfoldable pub get_node_name : Self → ℤ → Bool → Bool → ReturnCode × Option CString × Option CString
get_node_name none h name_out namespace_out = (bad_parameter, none, none)
get_node_name (some g) h name_out namespace_out =
    if not name_out && not namespace_out
    then (bad_parameter, none, none)
    else elim (lookup_local_node_by_handle g h) [
      | none ↦ (precondition_not_met, none, none)
      | some n ↦ (
        ok,
        if name_out then some n.node_name else none,
        if namespace_out then some n.node_namespace else none,
      )
    ]

-- The node and the endpoint with two handles.
abbrev pub find_endpoint : Graph → ℤ → ℤ → Option Endpoint
find_endpoint g h k = do n ← lookup_local_node_by_handle g h; lookup_local_endpoint_by_handle n k

unfoldable pub get_endpoint_reader : Self → ℤ → ℤ → Ptr
get_endpoint_reader none h k = none
get_endpoint_reader (some g) h k = do e ← find_endpoint g h k; e.dds_reader

unfoldable pub get_endpoint_writer : Self → ℤ → ℤ → Ptr
get_endpoint_writer none h k = none
get_endpoint_writer (some g) h k = do e ← find_endpoint g h k; e.dds_writer

unfoldable pub get_endpoint_type : Self → ℤ → ℤ → EndpointType
get_endpoint_type none h k = unknown
get_endpoint_type (some g) h k = elim (find_endpoint g h k) [
  | none ↦ unknown
  | some e ↦ e.endp_type
]
