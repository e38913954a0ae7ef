-- ===== src/Lifecycle.antt =====
-- The life of a graph: its object, its properties and its sample adapter, and what the libraries answer
-- while it is created and deleted. What is created and what is deleted is written down, a resource
-- being its kind and its address. The functions of src/adapter_c/graph.c and of
-- src/adapter_c/graph_impl.c that work on them are in Operations.
pub mod Operations
pub mod Balance
pub mod Release
pub mod Parts
pub mod Create
pub mod Started
use rticonnextdds_ros2_adapt.Common.{
  ℕ, ◌==◌, ◌+◌, ℤ, Bool, true, false, not, ◌&&◌, is_some, if◌then◌else◌, Option, none, some, List,
  [], ◌∷◌, ◌++◌, ReturnCode, ok, error, bad_parameter, is_ok,
}
use rticonnextdds_ros2_adapt.Types.{Ptr, Node, Duration, Graph}
use rticonnextdds_ros2_adapt.Nodes.{finalize_node}
use rticonnextdds_ros2_adapt.Qos.{WriterQos}
use rticonnextdds_ros2_adapt.Api.Session.{initial}

pub data Kind : Type 0 where
  structure nodes_pool endpoints_pool publisher topic writer sample semaphore thread : Kind

abbrev pub eq_Kind : Kind → Kind → Bool
eq_Kind structure structure = true
eq_Kind nodes_pool nodes_pool = true
eq_Kind endpoints_pool endpoints_pool = true
eq_Kind publisher publisher = true
eq_Kind topic topic = true
eq_Kind writer writer = true
eq_Kind sample sample = true
eq_Kind semaphore semaphore = true
eq_Kind thread thread = true
eq_Kind _ _ = false

abbrev pub Resource : Type 0
Resource = Kind × ℕ

-- The resources that were created, and those that were deleted, the last one first.
pub record World : Type 0 where
  pub created : List Resource
  pub deleted : List Resource

abbrev pub create : Kind → Ptr → World → World
create k none w = w
create k (some p) w = record w { created = (k, p) ∷ w.created }

abbrev pub delete : Kind → Ptr → World → World
delete k none w = w
delete k (some p) w = record w { deleted = (k, p) ∷ w.deleted }

-- RTIROS2_GraphSampleAdapter: the addresses of four functions, and their argument.
pub record SampleAdapter : Type 0 where
  pub convert_to_sample : Ptr
  pub publish_sample : Ptr
  pub alloc_sample : Ptr
  pub free_sample : Ptr
  pub adapter_data : Ptr

unfoldable pub is_valid : SampleAdapter → Bool
is_valid a =
    is_some a.convert_to_sample
    && (is_some a.publish_sample && (is_some a.alloc_sample && is_some a.free_sample))

-- struct RTIROS2_GraphProperties.
pub record Properties : Type 0 where
  pub graph_participant : Ptr
  pub graph_publisher : Ptr
  pub graph_topic : Ptr
  pub graph_writer : Ptr
  pub poll_period : Duration
  pub sample_adapter : SampleAdapter

-- struct RTIROS2_GraphI; `graph` has the fields that the registry works on, among them the
-- participant, the poll period and the value of `sem_pinfo`, whose address is `sem_pinfo` here.
pub record Object : Type 0 where
  pub graph : Graph
  pub nodes_pool : Ptr
  pub endpoints_pool : Ptr
  pub graph_publisher : Ptr
  pub graph_publisher_own : Bool
  pub graph_topic : Ptr
  pub graph_topic_own : Bool
  pub graph_writer : Ptr
  pub graph_writer_own : Bool
  pub pinfo : Ptr
  pub mutex_self : Ptr
  pub sem_pinfo : Ptr
  pub sem_pinfo_exit : Ptr
  pub thread_pinfo : Ptr
  pub thread_pinfo_active : Bool
  pub sample_adapter : SampleAdapter

-- What the libraries answer during one creation and the deletion behind it. An address that is NULL is a
-- creation that fails. A topic that is found is a new reference to it, which is deleted like one that
-- is created.
pub record Libraries : Type 0 where
  pub heap : Option (ℕ × Object)
  pub c_adapter : SampleAdapter
  pub new_nodes_pool : Ptr
  pub new_endpoints_pool : Ptr
  pub create_publisher : Ptr
  pub register_type : Bool
  pub find_topic : Ptr
  pub create_topic : Ptr
  pub writer_qos : Ptr → Ptr → Option WriterQos
  pub create_datawriter : WriterQos → Ptr
  pub alloc_sample : SampleAdapter → Ptr
  pub new_mutex : Ptr
  pub new_counting : Ptr
  pub new_binary : Ptr
  pub new_thread : Ptr
  pub delete_datawriter : Bool
  pub delete_topic : Bool
  pub delete_publisher : Bool

-- A part of RTIROS2_Graph_initialize: it goes on, or goes to `done` with an error.
pub data Progress : Type 0 where
  go_on : Object → World → Progress
  give_up : Object → World → Progress

infixl 5 ◌>>=◌
abbrev pub ◌>>=◌ : Progress → (Object → World → Progress) → Progress
go_on o w >>= f = f o w
give_up o w >>= f = give_up o w

-- The check behind a creation.
abbrev pub unless_null : Ptr → Object → World → Progress
unless_null none o w = give_up o w
unless_null (some p) o w = go_on o w

-- RTIROS2_Graph_INITIALIZER.
abbrev pub def_self : Object
def_self = record {
  graph = initial none (record { sec = ℤ.pos 0; nanosec = 0 });
  nodes_pool = none;
  endpoints_pool = none;
  graph_publisher = none;
  graph_publisher_own = false;
  graph_topic = none;
  graph_topic_own = false;
  graph_writer = none;
  graph_writer_own = false;
  pinfo = none;
  mutex_self = none;
  sem_pinfo = none;
  sem_pinfo_exit = none;
  thread_pinfo = none;
  thread_pinfo_active = false;
  sample_adapter = record {
    convert_to_sample = none;
    publish_sample = none;
    alloc_sample = none;
    free_sample = none;
    adapter_data = none;
  };
}
