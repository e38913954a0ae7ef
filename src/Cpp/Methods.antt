-- ===== src/Cpp/Methods.antt =====
-- The methods of the C++ class Graph that work on its C graph, src/adapter_cpp/graph.cpp. A reference
-- to a DDS entity that is an argument is not nil, but for the participant of a node.
use rticonnextdds_ros2_adapt.Common.{
  ℕ, ℤ, CString, Bool, ltb, length, ◌==◌, if◌then◌else◌, Option, none, some, [], ◌∷◌, ReturnCode,
}
use rticonnextdds_ros2_adapt.Types.{Ptr, Graph, Dds}
use rticonnextdds_ros2_adapt.Api as C
use rticonnextdds_ros2_adapt.Api.{Self}
use rticonnextdds_ros2_adapt.Api.Session.{graph_of}
use rticonnextdds_ros2_adapt.Cpp.{
  dds_error, Outcome, returned, threw, Raised, raise_unless_ok, CppEndpointType,
  graph_endpoint_type_from_c, CppGraph,
}

-- std::string::c_str: a C function reads it up to its first NUL.
unfoldable pub c_str : CString → CString
c_str [] = []
c_str (c ∷ s) = let rest = c_str s in if c == 0 then [] else c ∷ rest

abbrev pub registry : CppGraph → Graph
registry o = o.c_graph.1.graph

-- The object behind a call of a C function.
abbrev pub with_registry : CppGraph → Self → CppGraph
with_registry o self =
    let (address, object) = o.c_graph in
    record o { c_graph = (address, record object { graph = graph_of object.graph self }) }

abbrev pub handled : CppGraph → Self × ℤ → CppGraph × ℤ
handled o (self, handle) = (with_registry o self, handle)

abbrev pub checked : CppGraph → Self × ReturnCode → CppGraph × Raised
checked o (self, rc) = (with_registry o self, raise_unless_ok rc)

abbrev pub checked_option : CppGraph → Option (Self × ReturnCode) → Option (CppGraph × Raised)
checked_option o none = none
checked_option o (some q) = some (checked o q)

unfoldable pub graph_participant : CppGraph → ℕ
graph_participant o = o.graph_participant

unfoldable pub graph_publisher : CppGraph → ℕ
graph_publisher o = o.graph_publisher

unfoldable pub graph_topic : CppGraph → ℕ
graph_topic o = o.graph_topic

unfoldable pub graph_writer : CppGraph → ℕ
graph_writer o = o.graph_writer

-- A nil participant stands for the graph's, an empty namespace for none.
abbrev pub participant_or : ℕ → Ptr → ℕ
participant_or p none = p
participant_or p (some q) = q

abbrev pub namespace_or_null : CString → Option CString
namespace_or_null s = if ltb 0 (length s) then some (c_str s) else none

unfoldable pub register_local_node : Dds → CppGraph → CString → CString → Ptr → CppGraph × ℤ
unfolding c_str
register_local_node d o node_name node_namespace dds_participant = handled o (
    C.register_local_node d (some (registry o)) (some (c_str node_name))
      (namespace_or_null node_namespace)
      (some (participant_or o.graph_participant dds_participant)))

-- `none` is a read through NULL in the C function.
unfoldable pub inspect_local_node : Dds → CppGraph → ℤ → Option (CppGraph × Raised)
inspect_local_node d o h = checked_option o (C.inspect_local_node d (some (registry o)) h)

unfoldable pub register_local_subscription : Dds → CppGraph → ℤ → ℕ → CppGraph × ℤ
register_local_subscription d o h r =
    handled o (C.register_local_subscription d (some (registry o)) h (some r))

unfoldable pub register_local_publisher : Dds → CppGraph → ℤ → ℕ → CppGraph × ℤ
register_local_publisher d o h w =
    handled o (C.register_local_publisher d (some (registry o)) h (some w))

unfoldable pub register_local_client : Dds → CppGraph → ℤ → ℕ → ℕ → CppGraph × ℤ
register_local_client d o h r w =
    handled o (C.register_local_client d (some (registry o)) h (some r) (some w))

unfoldable pub register_local_service : Dds → CppGraph → ℤ → ℕ → ℕ → CppGraph × ℤ
register_local_service d o h r w =
    handled o (C.register_local_service d (some (registry o)) h (some r) (some w))

unfoldable pub unregister_local_node : CppGraph → ℤ → Option (CppGraph × Raised)
unregister_local_node o h = checked_option o (C.unregister_local_node (some (registry o)) h)

unfoldable pub unregister_local_subscription : CppGraph → ℤ → ℕ → CppGraph × Raised
unregister_local_subscription o h r =
    checked o (C.unregister_local_subscription (some (registry o)) h (some r))

unfoldable pub unregister_local_publisher : CppGraph → ℤ → ℕ → CppGraph × Raised
unregister_local_publisher o h w =
    checked o (C.unregister_local_publisher (some (registry o)) h (some w))

unfoldable pub unregister_local_client : CppGraph → ℤ → ℕ → ℕ → CppGraph × Raised
unregister_local_client o h r w =
    checked o (C.unregister_local_client (some (registry o)) h (some r) (some w))

unfoldable pub unregister_local_service : CppGraph → ℤ → ℕ → ℕ → CppGraph × Raised
unregister_local_service o h r w =
    checked o (C.unregister_local_service (some (registry o)) h (some r) (some w))

-- The four methods that unregister an endpoint by its handle have one body.
unfoldable pub unregister_by_handle : CppGraph → ℤ → ℤ → CppGraph × Raised
unregister_by_handle o h k = checked o (C.unregister_by_handle (some (registry o)) h k)

unfoldable pub get_node_participant : CppGraph → ℤ → Outcome ℕ
get_node_participant o h = elim (C.get_node_participant (some (registry o)) h) [
  | none ↦ threw dds_error
  | some p ↦ returned p
]

-- The flags say which of the two output arguments is not NULL.
unfoldable pub get_node_name : CppGraph → ℤ → Bool → Bool → Raised × Option CString × Option CString
get_node_name o h name_out namespace_out =
    let (rc, name, namespace) = C.get_node_name (some (registry o)) h name_out namespace_out in
    (raise_unless_ok rc, name, namespace)

-- An empty `optional` is `none`.
unfoldable pub get_endpoint_reader : CppGraph → ℤ → ℤ → Option ℕ
get_endpoint_reader o h k = C.get_endpoint_reader (some (registry o)) h k

unfoldable pub get_endpoint_writer : CppGraph → ℤ → ℤ → Option ℕ
get_endpoint_writer o h k = C.get_endpoint_writer (some (registry o)) h k

unfoldable pub get_endpoint_type : CppGraph → ℤ → ℤ → CppEndpointType
unfolding graph_endpoint_type_from_c
get_endpoint_type o h k = graph_endpoint_type_from_c (C.get_endpoint_type (some (registry o)) h k)
