-- ===== src/Tests/Lifecycle.antt =====
-- The creation, the deletion and the QoS of a graph at concrete libraries.
use rticonnextdds_ros2_adapt.Common.{
  ◌+◌, codes, true, false, none, some, List, [], ok, error, bad_parameter, ◌≡◌, refl, ◌⊎◌,
}
use rticonnextdds_ros2_adapt.Types.{Dds}
use rticonnextdds_ros2_adapt.Invariant.{GraphOk}
use rticonnextdds_ros2_adapt.Qos.{
  nanos, other_durability, other_history, other_reliability, writer_protocol, WriterQos, QosSource,
  writer_property, buffer_size, get_graph_writer_qos,
}
use rticonnextdds_ros2_adapt.Qos.Consistent.{IsConsistent, get_graph_writer_qos_lem}
use rticonnextdds_ros2_adapt.Nodes.{finalize_node}
use rticonnextdds_ros2_adapt.Api.Session.{Call, initial, run}
use rticonnextdds_ros2_adapt.Lifecycle.{
  Resource, World, SampleAdapter, Properties, Object, def_self, Libraries, is_valid,
}
use rticonnextdds_ros2_adapt.Lifecycle.Operations.{
  initialize, new, init_nodes_pool, init_endpoints_pool, init_publisher, init_topic, init_writer,
  init_pinfo, init_mutex_self, init_sem_pinfo, init_sem_pinfo_exit, init_thread, found_or_created,
  choose_adapter,
}
use rticonnextdds_ros2_adapt.Lifecycle.Balance.{times, owned}
use rticonnextdds_ros2_adapt.Lifecycle.Release.{Succeeds, IsEmptied, finalize_node_lem}
use rticonnextdds_ros2_adapt.Lifecycle.Create.{NewOutcome, new_lem, initialize_no_participant}
use rticonnextdds_ros2_adapt.Lifecycle.Started.{new-initial}
use rticonnextdds_ros2_adapt.Tests.Graphs.{talking, talking-NodeOk, talking-CountsOk, with_node}

abbrev adapter : SampleAdapter
adapter = record {
  convert_to_sample = some 1;
  publish_sample = some 2;
  alloc_sample = some 3;
  free_sample = some 4;
  adapter_data = none;
}

-- The default QoS of a publisher.
abbrev pub qos : WriterQos
qos = record {
  durability = other_durability 0;
  history = other_history 1;
  depth = 5;
  reliability = other_reliability 0;
  protocol = writer_protocol;
  limits = record {
    max_samples = 10;
    initial_samples = 2;
    max_instances = 3;
    initial_instances = 3;
    max_samples_per_instance = 4;
  };
  property = 0;
  rest = 7;
}

-- Libraries that succeed; the memory of the graph holds what its last user has left there.
abbrev pub libraries : Libraries
libraries = record {
  heap = some (100, record def_self { nodes_pool = some 55 });
  c_adapter = adapter;
  new_nodes_pool = some 1;
  new_endpoints_pool = some 2;
  create_publisher = some 3;
  register_type = true;
  find_topic = none;
  create_topic = some 4;
  writer_qos = λ p t. some qos;
  create_datawriter = λ q. some 5;
  alloc_sample = λ a. some 6;
  new_mutex = some 7;
  new_counting = some 8;
  new_binary = some 9;
  new_thread = some 10;
  delete_datawriter = true;
  delete_topic = true;
  delete_publisher = true;
}

pub libraries-Succeeds : Succeeds libraries
libraries-Succeeds = record {
  deletes_writer = refl;
  deletes_topic = refl;
  deletes_publisher = refl;
}

-- The user gives a participant and a publisher.
abbrev properties : Properties
properties = record {
  graph_participant = some 1;
  graph_publisher = some 33;
  graph_topic = none;
  graph_writer = none;
  poll_period = nanos 1000;
  sample_adapter = adapter;
}

abbrev pub nothing : World
nothing = record { created = []; deleted = [] }

new_lem_example : NewOutcome libraries nothing (new libraries (some properties) nothing)
new_lem_example = new_lem libraries properties nothing libraries-Succeeds refl

-- The memory that the initialization is given, and no participant.
abbrev memory : Object
memory = record def_self { nodes_pool = some 55 }

abbrev no_participant : Properties
no_participant = record properties { graph_participant = none }

initialize_no_participant_example :
    let (o, w, rc) = initialize libraries memory no_participant nothing in
    (rc ≡ bad_parameter)
    × (w.created ≡ [])
    × ((r : Resource) → times r w.deleted ≡ times r [] + owned r memory)
initialize_no_participant_example =
    initialize_no_participant libraries memory no_participant nothing libraries-Succeeds refl

finalize_node_lem_example : IsEmptied (finalize_node (with_node talking) talking).1
finalize_node_lem_example =
    finalize_node_lem (with_node talking) talking talking-NodeOk talking-CountsOk

-- The graph that is created.
abbrev created : Object
created = record def_self {
  graph = initial (some 1) (nanos 1000);
  nodes_pool = some 1;
  endpoints_pool = some 2;
  graph_publisher = some 33;
  graph_topic = some 4;
  graph_topic_own = true;
  graph_writer = some 5;
  graph_writer_own = true;
  pinfo = some 6;
  mutex_self = some 7;
  sem_pinfo = some 8;
  sem_pinfo_exit = some 9;
  thread_pinfo = some 10;
  thread_pinfo_active = true;
  sample_adapter = adapter;
}

new_created : (new libraries (some properties) nothing).0 ≡ some (100, created)
unfolding new initialize init_nodes_pool init_endpoints_pool init_publisher init_topic init_writer
    init_pinfo init_mutex_self init_sem_pinfo init_sem_pinfo_exit init_thread found_or_created
    choose_adapter is_valid
new_created = refl

new-initial_example :
    (created.graph ≡ initial (some 1) (nanos 1000))
    × ((cs : List (Dds × Call)) → GraphOk (run created.graph cs))
new-initial_example = new-initial libraries properties nothing refl new_created

abbrev source : QosSource
source = record {
  topic_name = λ t. some (codes "ros_discovery_info");
  default_writer_qos = λ p name. some qos;
  assert_property = λ p name value propagate. some (p + 1);
}

get_graph_writer_qos_lem_example :
    ((source.assert_property 0 writer_property buffer_size false ≡ none)
      × (get_graph_writer_qos source (some 3) (some 4) ≡ (error, none)))
    ⊎ ((q : WriterQos) × (source.assert_property 0 writer_property buffer_size false
          ≡ some q.property)
        × (get_graph_writer_qos source (some 3) (some 4) ≡ (ok, some q))
        × IsConsistent q
        × (q.depth ≡ 100)
        × (q.rest ≡ 7))
get_graph_writer_qos_lem_example =
    get_graph_writer_qos_lem source (some 3) (some 4) (codes "ros_discovery_info") refl refl
