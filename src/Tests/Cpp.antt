-- ===== src/Tests/Cpp.antt =====
-- The C++ API at concrete libraries, graphs and names.
use rticonnextdds_ros2_adapt.Common.{
  ℕ, zero, suc, ◌+◌, ◌-◌, ◌>>=◌, pos, ℤ, codes, map, is_ok, if◌then◌else◌, drop, length, false,
  true, none, some, List, [], ◌∷◌, ◌++◌, ReturnCode, ok, error, ◌≡◌, refl, ◌⊎◌, arith,
}
use rticonnextdds_ros2_adapt.Types.{Dds}
use rticonnextdds_ros2_adapt.Qos as C
use rticonnextdds_ros2_adapt.Qos.{nanos}
use rticonnextdds_ros2_adapt.Publish.{Gid, Entities, convert_to_sample}
use rticonnextdds_ros2_adapt.Nodes.{is_polling_enabled}
use rticonnextdds_ros2_adapt.Names.{
  topic_prefix_default, type_suffix_default, topic_prefix_request, topic_prefix_response,
  type_suffix_request, type_suffix_response,
}
use rticonnextdds_ros2_adapt.Names.TypeName.{written}
use rticonnextdds_ros2_adapt.Api.Session.{initial, run, c_answers}
use rticonnextdds_ros2_adapt.Lifecycle.{
  World, def_self, structure, nodes_pool, endpoints_pool, sample, semaphore, thread, is_valid,
}
use rticonnextdds_ros2_adapt.Lifecycle.Operations.{
  new, initialize, init_nodes_pool, init_endpoints_pool, init_publisher, init_topic, init_writer,
  init_pinfo, init_mutex_self, init_sem_pinfo, init_sem_pinfo_exit, init_thread, choose_adapter,
}
use rticonnextdds_ros2_adapt.Gids.{compute_reader_gid, compute_writer_gid}
use rticonnextdds_ros2_adapt.Gids.Distinct.{compute_reader_gid-writer}
use rticonnextdds_ros2_adapt.Spec.{Trace, abs}
use rticonnextdds_ros2_adapt.Spec.Refines.{requests_of}
use rticonnextdds_ros2_adapt.Cpp.{
  returned, CppProperties, CppGraph, CppLibraries, construct, choose_publisher, choose_topic,
  choose_writer, customize_datawriter_qos, create_c_graph,
}
use rticonnextdds_ros2_adapt.Cpp.Created.{ConstructOutcome, construct_lem, construct_never_polls}
use rticonnextdds_ros2_adapt.Cpp.Methods.{registry, with_registry}
use rticonnextdds_ros2_adapt.Cpp.Session.{
  Method, add_node, add_publisher, remove_node, calls_of, perform_all, translate, perform_all-run,
}
use rticonnextdds_ros2_adapt.Cpp.Sample.{CppMemory, cpp_convert_to_sample}
use rticonnextdds_ros2_adapt.Cpp.Copied.{TakesAll, cpp_convert_to_sample_lem}
use rticonnextdds_ros2_adapt.Cpp.Names.{
  Heap, string_of, compute_publisher_topic_names, compute_subscription_topic_names,
  compute_service_topic_names,
}
use rticonnextdds_ros2_adapt.Cpp.Texts.{qualified, type_room}
use rticonnextdds_ros2_adapt.Cpp.Named.{
  GivesRoom, AreTexts, expected_names, compute_publisher_topic_names_lem,
}
use rticonnextdds_ros2_adapt.Cpp.NamedService.{HasMemory, compute_service_topic_names_lem}
use rticonnextdds_ros2_adapt.Tests.Graphs.{talking-GraphOk, dds, with_node, talking}
use rticonnextdds_ros2_adapt.Tests.Publication.{entities, blank}
use rticonnextdds_ros2_adapt.Tests.Lifecycle.{libraries, libraries-Succeeds, nothing, qos}

abbrev cpp_libraries : CppLibraries
cpp_libraries = record {
  c = libraries;
  create_publisher = λ p. returned 3;
  find_topic = λ p name. returned none;
  create_topic = λ p name type. returned 4;
  default_writer_qos = λ p name. some qos;
  assert_property = λ p name value propagate. some (p + 1);
  create_datawriter = λ p t q. returned 5;
  create_data = some 60;
  convert_to_sample = 11;
  publish_sample = 12;
  alloc_sample = 13;
  free_sample = 14;
  this = 15;
}

-- A poll period of a second is asked for.
abbrev cpp_properties : CppProperties
cpp_properties = record {
  graph_participant = some 1;
  graph_publisher = none;
  graph_topic = none;
  graph_writer = none;
  poll_period = record { sec = pos 1; nanosec = 0 };
}

construct_lem_example :
    ConstructOutcome libraries (some 60) nothing (construct cpp_libraries cpp_properties nothing)
construct_lem_example = construct_lem cpp_libraries cpp_properties nothing libraries-Succeeds

-- A graph with one node, in C++.
abbrev cpp_graph : CppGraph
cpp_graph = record {
  graph_participant = 1;
  graph_publisher = 3;
  graph_topic = 4;
  graph_writer = 5;
  poll_period = nanos 0;
  c_graph = (100, record def_self { graph = with_node talking });
  c_pinfo = 60;
}

-- A node with the graph's participant and no namespace, a publisher of it, and the end of the other node.
abbrev methods : List (Dds × Method)
methods =
    (dds, add_node (codes "listener") [] none)
    ∷ (dds, add_publisher (pos 1) 1)
    ∷ (dds, remove_node (pos 0))
    ∷ []

perform_all-run_example :
    (answers : List (ℤ ⊎ ReturnCode)) × (c_answers (registry cpp_graph) (calls_of 1 methods)
      ≡ some answers)
    × (perform_all cpp_graph methods
        ≡ some (
          with_registry cpp_graph (some (run (registry cpp_graph) (calls_of 1 methods))),
          map translate answers,
        ))
    × Trace
        (registry cpp_graph).graph_participant
        (abs (registry cpp_graph))
        (requests_of (calls_of 1 methods))
        answers
        (abs (run (registry cpp_graph) (calls_of 1 methods)))
perform_all-run_example = perform_all-run cpp_graph methods talking-GraphOk

abbrev memory : CppMemory
memory = record {
  string_takes = λ n s. true;
  gids_take = λ gids k. true;
  nodes_take = λ nodes k. true;
  new_gid = [];
  new_node = record {
    node_name = [];
    node_namespace = [];
    reader_gid_seq = [];
    writer_gid_seq = [];
  };
  write = λ x. true;
}

memory-TakesAll : TakesAll memory
memory-TakesAll = record { strings = λ n s. refl; gids = λ gids k. refl; nodes = λ nodes k. refl }

cpp_convert_to_sample_lem_example :
    cpp_convert_to_sample memory entities (with_node talking) (some 1) (some blank) blank ≡ (
      convert_to_sample entities (with_node talking) (some 1) blank >>= λ (rc, c_sample).
      some (if is_ok rc then ok else error, some c_sample, if is_ok rc then c_sample else blank))
cpp_convert_to_sample_lem_example =
    cpp_convert_to_sample_lem memory entities (with_node talking) (some 1) blank blank
      memory-TakesAll

abbrev zero_bytes : ℕ → List ℕ
zero_bytes zero = []
zero_bytes (suc n) = 0 ∷ zero_bytes n

length-zero_bytes : (n : ℕ) → length (zero_bytes n) ≡ n
length-zero_bytes zero = refl
length-zero_bytes (suc n) = omega (arith, length-zero_bytes n)

-- Buffers of zeroes.
abbrev heap : Heap
heap = record { string_alloc = λ i n. some (zero_bytes (n + 1)); topic_alloc = λ i. true }

some_injective : (a b : List ℕ) → some a ≡ some b → a ≡ b
some_injective a b e = cc

heap-GivesRoom : GivesRoom heap
heap-GivesRoom i n buf e =
    rw (← some_injective (zero_bytes (n + 1)) buf e) (omega (arith, length-zero_bytes (n + 1)))

heap-HasMemory : HasMemory heap
heap-HasMemory = record {
  buffers = λ i n. (zero_bytes (n + 1), refl, omega (arith, length-zero_bytes (n + 1)));
  topics = λ i. refl;
}

texts : AreTexts (codes "a/b") (codes "pkg") (codes "Msg")
texts = record {
  topic_bytes = (λ e. omega arith, (λ e. omega arith, (λ e. omega arith, tt)));
  stem_bytes = (λ e. omega arith, (λ e. omega arith, (λ e. omega arith, tt)));
  name_bytes = (λ e. omega arith, (λ e. omega arith, (λ e. omega arith, tt)));
  no_colon = (λ e. omega arith, (λ e. omega arith, (λ e. omega arith, tt)));
}

compute_publisher_topic_names_lem_example :
    (compute_publisher_topic_names heap (codes "a/b") (qualified (codes "pkg") (codes "Msg"))
      ≡ expected_names heap
          (codes "a/b")
          (codes "pkg")
          (codes "Msg")
          topic_prefix_default
          type_suffix_default)
    × (compute_subscription_topic_names heap (codes "a/b") (qualified (codes "pkg") (codes "Msg"))
        ≡ expected_names heap
            (codes "a/b")
            (codes "pkg")
            (codes "Msg")
            topic_prefix_default
            type_suffix_default)
compute_publisher_topic_names_lem_example =
    compute_publisher_topic_names_lem heap b'a' (codes "/b") (codes "pkg") (codes "Msg")
      heap-GivesRoom texts

compute_service_topic_names_lem_example :
    (req_type_buf : List ℕ) × (rep_type_buf : List ℕ) × (heap.string_alloc 1
        (type_room (qualified (codes "pkg") (codes "Msg")) type_suffix_request - 1)
      ≡ some req_type_buf)
    × (heap.string_alloc 3
          (type_room (qualified (codes "pkg") (codes "Msg")) type_suffix_response - 1)
        ≡ some rep_type_buf)
    × (compute_service_topic_names heap
          (codes "a")
          (codes "b")
          (qualified (codes "pkg") (codes "Msg"))
        ≡ (string_of (drop (length (written (codes "pkg") type_suffix_response)) req_type_buf)
            >>= λ left. string_of rep_type_buf >>= λ unwritten. some (
                returned (record {
                  req_topic = topic_prefix_request ++ codes "a/b";
                  req_type = written (codes "pkg") type_suffix_response ++ left;
                  rep_topic = topic_prefix_response ++ codes "a/b";
                  rep_type = unwritten;
                }))))
compute_service_topic_names_lem_example =
    compute_service_topic_names_lem heap (codes "a") (codes "b") (codes "pkg") (codes "Msg")
      heap-HasMemory texts (λ e. omega arith, tt) (λ e. omega arith, tt)

-- The graph that is created, and what is created with it.
abbrev made : CppGraph
made = record {
  graph_participant = 1;
  graph_publisher = 3;
  graph_topic = 4;
  graph_writer = 5;
  poll_period = record { sec = pos 1; nanosec = 0 };
  c_graph = (
    100,
    record def_self {
      graph = initial (some 1) (nanos 0);
      nodes_pool = some 1;
      endpoints_pool = some 2;
      graph_publisher = some 3;
      graph_topic = some 4;
      graph_writer = some 5;
      pinfo = some 6;
      mutex_self = some 7;
      sem_pinfo = some 8;
      sem_pinfo_exit = some 9;
      thread_pinfo = some 10;
      thread_pinfo_active = true;
      sample_adapter = record {
        convert_to_sample = some 11;
        publish_sample = some 12;
        alloc_sample = some 13;
        free_sample = some 14;
        adapter_data = some 15;
      };
    },
  );
  c_pinfo = 60;
}

abbrev made_world : World
made_world = record {
  created =
      (thread, 10)
      ∷ (semaphore, 9)
      ∷ (semaphore, 8)
      ∷ (semaphore, 7)
      ∷ (sample, 6)
      ∷ (endpoints_pool, 2)
      ∷ (nodes_pool, 1)
      ∷ (structure, 100)
      ∷ (sample, 60)
      ∷ [];
  deleted = [];
}

construct-made : construct cpp_libraries cpp_properties nothing ≡ (returned made, made_world)
unfolding construct choose_publisher choose_topic choose_writer customize_datawriter_qos
    C.customize_datawriter_qos create_c_graph new initialize init_nodes_pool init_endpoints_pool
    init_publisher init_topic init_writer init_pinfo init_mutex_self init_sem_pinfo
    init_sem_pinfo_exit init_thread choose_adapter is_valid
construct-made = refl

construct_never_polls_example :
    (made.c_graph.1.graph ≡ initial (some 1) (nanos 0))
    × (is_polling_enabled dds made.c_graph.1.graph ≡ false)
construct_never_polls_example =
    construct_never_polls dds cpp_libraries cpp_properties nothing refl construct-made

-- Entities with handles of 16 octets.
abbrev handles : Entities
handles = record entities {
  reader_ih = λ r. 4 ∷ zero_bytes 14 ++ r ∷ [];
  writer_ih = λ w. 3 ∷ zero_bytes 14 ++ w ∷ [];
}

compute_reader_gid-writer_example :
    (a : Gid) × (b : Gid) × (compute_reader_gid handles (some 1) (some []) ≡ (ok, some a))
    × (compute_writer_gid handles (some 2) (some []) ≡ (ok, some b))
    × (length a ≡ 24)
    × (length b ≡ 24)
    × (a ≡ b → 4 ∷ zero_bytes 14 ++ 1 ∷ [] ≡ 3 ∷ zero_bytes 14 ++ 2 ∷ [])
compute_reader_gid-writer_example = compute_reader_gid-writer handles 1 2 [] [] refl refl
