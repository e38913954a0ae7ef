-- ===== src/Types.antt =====
-- The data of include/rticonnextdds_ros2_adapter/rticonnextdds_ros2_adapter_c.h and of
-- src/adapter_c/graph_impl.h: endpoints, nodes and the part of the graph object that the registry
-- works on; and what the adapter asks of the DDS library. A pointer to a DDS entity is an
-- `Option ℕ`, NULL being `none`; a pointer to a node or an endpoint is the value that it points
-- to, known by its handle.
use rticonnextdds_ros2_adapt.Common.{
  ℕ, ℤ, pos, negsuc, CString, Bool, true, false, ◌==◌, Option, none, some, List, [],
}

-- A pointer to a DDS entity.
abbrev pub Ptr : Type 0
Ptr = Option ℕ

-- `p == q` on pointers.
abbrev pub ptr_eq : Ptr → Ptr → Bool
ptr_eq none none = true
ptr_eq (some a) (some b) = a == b
ptr_eq _ _ = false

pub data EndpointType : Type 0 where
  unknown subscription publisher client service : EndpointType

-- `a == b` on the enumeration.
abbrev pub eq_EndpointType : EndpointType → EndpointType → Bool
eq_EndpointType unknown unknown = true
eq_EndpointType subscription subscription = true
eq_EndpointType publisher publisher = true
eq_EndpointType client client = true
eq_EndpointType service service = true
eq_EndpointType _ _ = false

-- RTIROS2_GraphNodeHandle_INVALID and RTIROS2_GraphEndpointHandle_INVALID.
abbrev pub invalid_handle : ℤ
invalid_handle = negsuc 0

pub record Endpoint : Type 0 where
  pub handle : ℤ
  pub dds_reader : Ptr
  pub dds_writer : Ptr
  pub endp_type : EndpointType
  pub endp_data : Ptr

-- RTIROS2_GraphEndpoint_INITIALIZER.
abbrev pub def_endp : Endpoint
def_endp = record {
  handle = invalid_handle;
  dds_reader = none;
  dds_writer = none;
  endp_type = unknown;
  endp_data = none;
}

-- `endpoints` is the inline list, front first. A name that is still NULL is the empty string; only
-- a node whose registration fails has one, and nothing reads it.
pub record Node : Type 0 where
  pub handle : ℤ
  pub endpoints : List Endpoint
  pub endpoints_len : ℕ
  pub writers_len : ℕ
  pub readers_len : ℕ
  pub endp_handle_next : ℤ
  pub node_name : CString
  pub node_namespace : CString
  pub dds_participant : Ptr

-- RTIROS2_GraphNode_INITIALIZER.
abbrev pub def_node : Node
def_node = record {
  handle = invalid_handle;
  endpoints = [];
  endpoints_len = 0;
  writers_len = 0;
  readers_len = 0;
  endp_handle_next = pos 0;
  node_name = [];
  node_namespace = [];
  dds_participant = none;
}

-- DDS_Duration_t.
pub record Duration : Type 0 where
  pub sec : ℤ
  pub nanosec : ℕ

-- The fields of RTIROS2_Graph that registration, inspection and publication use. `sem_pinfo` is
-- the value of the counting semaphore; `participants` is the sequence that publication fills.
pub record Graph : Type 0 where
  pub nodes : List Node
  pub nodes_len : ℕ
  pub node_handle_next : ℤ
  pub graph_participant : Ptr
  pub sem_pinfo : ℕ
  pub poll_period : Duration
  pub participants : List Ptr

-- What the adapter asks of Connext while it works on a graph. A request that may fail for want of
-- memory is told by the state in which it is made, which differs at each request of one call.
pub record Dds : Type 0 where
  -- The topic name of a DataReader, and of a DataWriter.
  pub reader_topic : ℕ → CString
  pub writer_topic : ℕ → CString
  -- DDS_DomainParticipant_get_publishers, DDS_Publisher_get_all_datawriters and their counterparts
  -- for subscribers; `none` is a return code other than OK.
  pub get_publishers : Ptr → Option (List ℕ)
  pub get_all_datawriters : ℕ → Option (List ℕ)
  pub get_subscribers : Ptr → Option (List ℕ)
  pub get_all_datareaders : ℕ → Option (List ℕ)
  pub duration_is_zero : Duration → Bool
  pub duration_is_infinite : Duration → Bool
  -- Whether the pool of nodes, or that of endpoints, has a buffer left.
  pub node_buffer : Graph → Bool
  pub endpoint_buffer : Graph → Bool
  -- Whether DDS_String_dup succeeds.
  pub string_dup : Graph → CString → Bool
