-- ===== src/Inspect.antt =====
-- RTIROS2_Graph_inspect_local_nodeEA (src/adapter_c/graph_impl.c): registers the DDS endpoints of a
-- node's participant whose topic names follow the ROS 2 conventions. The loops over the writers and
-- over the readers are one loop here, told apart by `writer`; a node pointer is the node's handle,
-- through which each round reads the node anew.
pub mod Pairing
pub mod Rule
pub mod Entities
pub mod Loops
pub mod Complete
use rticonnextdds_ros2_adapt.Common.{
  ℕ, ℤ, eq_ℤ, CString, Bool, true, false, not, is_some, if◌then◌else◌, Option, none, some, List, [],
  ◌∷◌, ReturnCode, ok, error,
}
use rticonnextdds_ros2_adapt.Types.{
  Ptr, EndpointType, unknown, subscription, publisher, client, service, invalid_handle, Endpoint,
  Node, Graph, Dds,
}
use rticonnextdds_ros2_adapt.Names.{detect_endpoint_type}
use rticonnextdds_ros2_adapt.Lookup.{
  lookup_local_node_by_handle, lookup_local_endpoint_by_dds_endpoints,
  lookup_local_endpoint_by_topic_name,
}
use rticonnextdds_ros2_adapt.Endpoints.{set_node, set_endpoint, register_local_endpoint}

-- The arguments `dds_reader` and `dds_writer` for the DDS endpoint `p`.
abbrev pub reader_arg : Bool → ℕ → Ptr
reader_arg true p = none
reader_arg false p = some p

abbrev pub writer_arg : Bool → ℕ → Ptr
writer_arg true p = some p
writer_arg false p = none

abbrev pub topic_of : Dds → Bool → ℕ → CString
topic_of d true p = d.writer_topic p
topic_of d false p = d.reader_topic p

-- The graph, the variable `endp_handle`, and whether the function goes to `done` with an error.
abbrev pub Progress : Type 0
Progress = Graph × ℤ × Bool

-- `endp->dds_writer` or `endp->dds_reader`, and the assignment to it.
abbrev pub side : Bool → Endpoint → Ptr
side true e = e.dds_writer
side false e = e.dds_reader

abbrev pub with_side : Bool → ℕ → Endpoint → Endpoint
with_side true p e = record e { dds_writer = some p }
with_side false p e = record e { dds_reader = some p }

-- `endp_handle = endp->handle`, or the error if `endp` is NULL.
abbrev pub registered : Graph × Option Endpoint → Progress
registered (g, none) = (g, invalid_handle, true)
registered (g, some e) = (g, e.handle, false)

-- The case of a client or a service: an endpoint found by its topic name receives `p`.
unfoldable pub attach : Dds → Bool → EndpointType → Graph → Node → ℤ → ℕ → Progress
attach d writer endp_type g node endp_handle p =
    elim (lookup_local_endpoint_by_topic_name d node (topic_of d writer p) false) [
      | none ↦ registered (
          register_local_endpoint d g node.handle endp_type (reader_arg writer p)
            (writer_arg writer p))
      | some endp ↦
          if is_some (side writer endp)
          then (g, endp_handle, true)
          else (set_node g (set_endpoint node (with_side writer p endp)), endp_handle, false)
    ]

-- The check behind the `switch`.
abbrev pub check_handle : Progress → Progress
check_handle (g, endp_handle, failed) =
    if failed then (g, endp_handle, true) else (g, endp_handle, eq_ℤ endp_handle invalid_handle)

-- The case of a publisher or a subscription.
unfoldable pub plain : Dds → Bool → EndpointType → Graph → Node → ℕ → Progress
plain d writer endp_type g node p =
    registered (
      register_local_endpoint d g node.handle endp_type (reader_arg writer p) (writer_arg writer p))

-- The `switch`; `default` goes on with the next DDS endpoint.
unfoldable pub inspect_typed : Dds → Bool → Graph → Node → ℤ → ℕ → EndpointType → Progress
inspect_typed d true g node endp_handle p publisher = check_handle (plain d true publisher g node p)
inspect_typed d true g node endp_handle p subscription = (g, endp_handle, false)
inspect_typed d false g node endp_handle p publisher = (g, endp_handle, false)
inspect_typed d false g node endp_handle p subscription =
    check_handle (plain d false subscription g node p)
inspect_typed d writer g node endp_handle p client =
    check_handle (attach d writer client g node endp_handle p)
inspect_typed d writer g node endp_handle p service =
    check_handle (attach d writer service g node endp_handle p)
inspect_typed d writer g node endp_handle p unknown = (g, endp_handle, false)

-- One round of the inner loop. The node is in the graph, since its pointer is.
unfoldable pub inspect_endpoint : Dds → Bool → ℤ → Graph → ℤ → ℕ → Progress
inspect_endpoint d writer h g endp_handle p = elim (lookup_local_node_by_handle g h) [
  | none ↦ (g, endp_handle, true)
  | some node ↦
      if is_some
        (lookup_local_endpoint_by_dds_endpoints node (reader_arg writer p) (writer_arg writer p))
      then (g, endp_handle, false)
      else inspect_typed d writer g node endp_handle p
          (detect_endpoint_type (topic_of d writer p) writer)
]

unfoldable pub inspect_endpoints : Dds → Bool → ℤ → List ℕ → Graph → ℤ → Progress
inspect_endpoints d writer h [] g endp_handle = (g, endp_handle, false)
inspect_endpoints d writer h (p ∷ ps) g endp_handle =
    let (g', endp_handle', failed) = inspect_endpoint d writer h g endp_handle p in
    let rest = inspect_endpoints d writer h ps g' endp_handle' in
    if failed then (g', endp_handle', true) else rest

-- The outer loop, over the publishers or the subscribers of the participant.
abbrev pub get_all : Dds → Bool → ℕ → Option (List ℕ)
get_all d true parent = d.get_all_datawriters parent
get_all d false parent = d.get_all_datareaders parent

unfoldable pub inspect_parents : Dds → Bool → ℤ → List ℕ → Graph → ℤ → Progress
inspect_parents d writer h [] g endp_handle = (g, endp_handle, false)
inspect_parents d writer h (q ∷ qs) g endp_handle = elim (get_all d writer q) [
  | none ↦ (g, endp_handle, true)
  | some ps ↦
      let (g', endp_handle', failed) = inspect_endpoints d writer h ps g endp_handle in
      let rest = inspect_parents d writer h qs g' endp_handle' in
      if failed then (g', endp_handle', true) else rest
]

-- The half for the subscribers, and the whole.
unfoldable pub inspect_subscribers : Dds → Graph → Node → ℤ → Graph × ReturnCode
inspect_subscribers d g node endp_handle = elim (d.get_subscribers node.dds_participant) [
  | none ↦ (g, error)
  | some subs ↦
      let (g', _, failed) = inspect_parents d false node.handle subs g endp_handle in
      (g', if failed then error else ok)
]

unfoldable pub inspect_local_node_ea : Dds → Graph → Node → Graph × ReturnCode
inspect_local_node_ea d g node = elim (d.get_publishers node.dds_participant) [
  | none ↦ (g, error)
  | some pubs ↦
      let (g', endp_handle', failed) = inspect_parents d true node.handle pubs g invalid_handle in
      if failed then (g', error) else inspect_subscribers d g' node endp_handle'
]
