-- ===== src/Cpp.antt =====
-- The C++ API, src/adapter_cpp/graph.cpp and
-- include/rticonnextdds_ros2_adapter/rticonnextdds_ros2_adapter_cpp.hpp, on top of the C functions: its
-- exceptions, its graph object, the functions of the namespace `graph` on QoS and gids, and the creation
-- and destruction of a graph. A C++ reference to a DDS entity is the address of the native entity; the
-- count of references, and so the end of an entity that the constructor creates, is Connext's.
pub mod Created
pub mod Methods
pub mod Session
pub mod Sample
pub mod Copied
pub mod Names
pub mod Texts
pub mod Named
pub mod NamedService
use rticonnextdds_ros2_adapt.Common.{
  ℕ, CString, codes, Option, none, some, ReturnCode, is_ok, if◌then◌else◌,
}
use rticonnextdds_ros2_adapt.Types.{
  Ptr, Duration, EndpointType, unknown, subscription, publisher, client, service,
}
use rticonnextdds_ros2_adapt.Qos as C
use rticonnextdds_ros2_adapt.Qos.{AssertProperty, WriterQos, ReaderQos, nanos}
use rticonnextdds_ros2_adapt.Publish.{Gid, Entities}
use rticonnextdds_ros2_adapt.Gids as CGids
use rticonnextdds_ros2_adapt.Lifecycle.{
  World, create, delete, sample, Object, Properties, SampleAdapter, Libraries,
}
use rticonnextdds_ros2_adapt.Lifecycle.Operations.{new, delete_graph}

-- dds::core::Error, dds::core::InvalidArgumentError, std::runtime_error, and whatever the C++ API of
-- Connext throws.
pub data Exception : Type 0 where
  dds_error invalid_argument_error runtime_error thrown_by_connext : Exception

-- A function returns a value or throws.
pub data Outcome (A : Type 0) : Type 0 where
  returned : A → Outcome A
  threw : Exception → Outcome A

-- What a function without a value throws.
abbrev pub Raised : Type 0
Raised = Option Exception

-- `if (DDS_RETCODE_OK != rc) throw dds::core::Error(...)`.
abbrev pub raise_unless_ok : ReturnCode → Raised
raise_unless_ok rc = if is_ok rc then none else some dds_error

-- enum class GraphEndpointType.
pub data CppEndpointType : Type 0 where
  cpp_unknown cpp_subscription cpp_publisher cpp_client cpp_service : CppEndpointType

unfoldable pub graph_endpoint_type_from_c : EndpointType → CppEndpointType
graph_endpoint_type_from_c subscription = cpp_subscription
graph_endpoint_type_from_c publisher = cpp_publisher
graph_endpoint_type_from_c client = cpp_client
graph_endpoint_type_from_c service = cpp_service
graph_endpoint_type_from_c unknown = cpp_unknown

-- A QoS behind a reference.
abbrev qos_of {ℓ} : {A : Type ℓ} → A → Option A → A
qos_of q none = q
qos_of q (some q') = q'

-- The argument as the function leaves it, and what is thrown.
unfoldable pub customize_datawriter_qos : AssertProperty → WriterQos → WriterQos × Raised
customize_datawriter_qos assert q =
    let (rc, q') = C.customize_datawriter_qos assert (some q) in (qos_of q q', raise_unless_ok rc)

unfoldable pub customize_datareader_qos : AssertProperty → ReaderQos → ReaderQos × Raised
customize_datareader_qos assert q =
    let (rc, q') = C.customize_datareader_qos assert (some q) in (qos_of q q', raise_unless_ok rc)

-- The octets of the C gid, where there is one.
abbrev gid_from_c : ReturnCode × Option Gid → Gid → Gid × Raised
gid_from_c (ReturnCode.ok, some c_gid) gid = (c_gid, none)
gid_from_c (rc, c_gid) gid = (gid, some dds_error)

-- `c_gid` is the local variable, which is not initialized.
unfoldable pub compute_participant_gid : Entities → ℕ → Gid → Gid → Gid × Raised
compute_participant_gid s p c_gid gid =
    gid_from_c (CGids.compute_participant_gid s (some p) (some c_gid)) gid

unfoldable pub compute_reader_gid : Entities → ℕ → Gid → Gid → Gid × Raised
compute_reader_gid s r c_gid gid = gid_from_c (CGids.compute_reader_gid s (some r) (some c_gid)) gid

unfoldable pub compute_writer_gid : Entities → ℕ → Gid → Gid → Gid × Raised
compute_writer_gid s w c_gid gid = gid_from_c (CGids.compute_writer_gid s (some w) (some c_gid)) gid

abbrev pub graph_topic_name : CString
graph_topic_name = codes "ros_discovery_info"

abbrev pub graph_type_name : CString
graph_type_name = codes "rmw_dds_common::msg::dds_::ParticipantEntitiesInfo_"

-- struct GraphProperties.
pub record CppProperties : Type 0 where
  pub graph_participant : Ptr
  pub graph_publisher : Ptr
  pub graph_topic : Ptr
  pub graph_writer : Ptr
  pub poll_period : Duration

-- class Graph; `c_graph` is the address of the C graph and the graph, `c_pinfo` the address of a sample.
pub record CppGraph : Type 0 where
  pub graph_participant : ℕ
  pub graph_publisher : ℕ
  pub graph_topic : ℕ
  pub graph_writer : ℕ
  pub poll_period : Duration
  pub c_graph : ℕ × Object
  pub c_pinfo : ℕ

-- What the constructor asks of Connext and of the C library, and the addresses of the four functions of
-- the C++ sample adapter and of the object.
pub record CppLibraries : Type 0 where
  pub c : Libraries
  pub create_publisher : ℕ → Outcome ℕ
  pub find_topic : ℕ → CString → Outcome Ptr
  pub create_topic : ℕ → CString → CString → Outcome ℕ
  pub default_writer_qos : ℕ → CString → Option WriterQos
  pub assert_property : AssertProperty
  pub create_datawriter : ℕ → ℕ → WriterQos → Outcome ℕ
  pub create_data : Ptr
  pub convert_to_sample : ℕ
  pub publish_sample : ℕ
  pub alloc_sample : ℕ
  pub free_sample : ℕ
  pub this : ℕ

-- The entities of the graph: each is the one that is given, or a new one.
unfoldable pub choose_publisher : CppLibraries → CppProperties → ℕ → Outcome ℕ
choose_publisher l p participant = elim p.graph_publisher [
  | some b ↦ returned b
  | none ↦ l.create_publisher participant
]

unfoldable pub choose_topic : CppLibraries → CppProperties → ℕ → Outcome ℕ
choose_topic l p participant = elim p.graph_topic [
  | some t ↦ returned t
  | none ↦ elim (l.find_topic participant graph_topic_name) [
    | threw e ↦ threw e
    | returned (some t) ↦ returned t
    | returned none ↦ l.create_topic participant graph_topic_name graph_type_name
  ]
]

unfoldable pub choose_writer : CppLibraries → CppProperties → ℕ → ℕ → Outcome ℕ
unfolding customize_datawriter_qos
choose_writer l p b t = elim p.graph_writer [
  | some w ↦ returned w
  | none ↦ elim (l.default_writer_qos b graph_topic_name) [
    | none ↦ threw runtime_error
    | some q ↦
        let (q', raised) = customize_datawriter_qos l.assert_property q in
        elim raised [ some e ↦ threw e | none ↦ l.create_datawriter b t q' ]
  ]
]

-- The `c_props` that the C graph is created with; RTIROS2_GraphProperties_INITIALIZER has set
-- `poll_period`.
abbrev pub c_properties : CppLibraries → ℕ → ℕ → ℕ → ℕ → Properties
c_properties l a b t u = record {
  graph_participant = some a;
  graph_publisher = some b;
  graph_topic = some t;
  graph_writer = some u;
  poll_period = nanos 0;
  sample_adapter = record {
    convert_to_sample = some l.convert_to_sample;
    publish_sample = some l.publish_sample;
    alloc_sample = some l.alloc_sample;
    free_sample = some l.free_sample;
    adapter_data = some l.this;
  };
}

-- The constructor from the creation of the C sample on.
unfoldable pub create_c_graph :
    CppLibraries → CppProperties → ℕ → ℕ → ℕ → ℕ → World → Outcome CppGraph × World
create_c_graph l p a b t u w = elim l.create_data [
  | none ↦ (threw dds_error, w)
  | some c_sample ↦
      let (c_graph, w') =
        new l.c (some (c_properties l a b t u)) (create sample (some c_sample) w) in
      elim c_graph [
        | none ↦ (threw dds_error, w')
        | some g ↦ (
          returned (record {
            graph_participant = a;
            graph_publisher = b;
            graph_topic = t;
            graph_writer = u;
            poll_period = p.poll_period;
            c_graph = g;
            c_pinfo = c_sample;
          }),
          w',
        )
      ]
]

-- Graph::Graph.
unfoldable pub construct : CppLibraries → CppProperties → World → Outcome CppGraph × World
unfolding create_c_graph
construct l p w = elim p.graph_participant [
  | none ↦ (threw invalid_argument_error, w)
  | some a ↦ elim (choose_publisher l p a) [
    | threw e ↦ (threw e, w)
    | returned b ↦ elim (choose_topic l p a) [
      | threw e ↦ (threw e, w)
      | returned t ↦ elim (choose_writer l p b t) [
        | threw e ↦ (threw e, w)
        | returned u ↦ create_c_graph l p a b t u w
      ]
    ]
  ]
]

-- Graph::~Graph.
unfoldable pub destroy : Libraries → CppGraph → World → World
destroy l o w = delete sample (some o.c_pinfo) (delete_graph l (some o.c_graph) w)
