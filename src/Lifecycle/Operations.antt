-- ===== src/Lifecycle/Operations.antt =====
-- The functions of the life of a graph: RTIROS2_Graph_initialize in its parts, RTIROS2_Graph_finalize,
-- RTIROS2_Graph_new and RTIROS2_Graph_delete.
use rticonnextdds_ros2_adapt.Common.{
  ℕ, Bool, true, false, not, ◌&&◌, is_some, if◌then◌else◌, Option, none, some, List, [], ◌∷◌,
  ReturnCode, ok, error, bad_parameter, is_ok,
}
use rticonnextdds_ros2_adapt.Types.{Ptr, Node, Graph}
use rticonnextdds_ros2_adapt.Nodes.{finalize_node}
use rticonnextdds_ros2_adapt.Lifecycle.{
  Kind, structure, nodes_pool, endpoints_pool, publisher, topic, writer, sample, semaphore, thread,
  World, create, delete, SampleAdapter, is_valid, Properties, Object, Libraries, Progress, go_on,
  give_up, ◌>>=◌, unless_null, def_self,
}

-- The parts of RTIROS2_Graph_initialize, the last one first: each is the function from one creation
-- on. The address of the thread is not checked.
unfoldable pub init_thread : Libraries → Properties → Object → World → Progress
init_thread l p o w =
    go_on
      (record o {
        graph = record o.graph { poll_period = p.poll_period };
        thread_pinfo_active = true;
        thread_pinfo = l.new_thread;
      })
      (create thread l.new_thread w)

unfoldable pub init_sem_pinfo_exit : Libraries → Properties → Object → World → Progress
init_sem_pinfo_exit l p o w =
    unless_null l.new_binary (record o { sem_pinfo_exit = l.new_binary })
      (create semaphore l.new_binary w)
    >>= init_thread l p

unfoldable pub init_sem_pinfo : Libraries → Properties → Object → World → Progress
init_sem_pinfo l p o w =
    unless_null l.new_counting (record o { sem_pinfo = l.new_counting })
      (create semaphore l.new_counting w)
    >>= init_sem_pinfo_exit l p

unfoldable pub init_mutex_self : Libraries → Properties → Object → World → Progress
init_mutex_self l p o w =
    unless_null l.new_mutex (record o { mutex_self = l.new_mutex }) (create semaphore l.new_mutex w)
    >>= init_sem_pinfo l p

unfoldable pub init_pinfo : Libraries → Properties → Object → World → Progress
init_pinfo l p o w =
    let a = l.alloc_sample o.sample_adapter in
    unless_null a (record o { pinfo = a }) (create sample a w) >>= init_mutex_self l p

unfoldable pub init_writer : Libraries → Properties → Object → World → Progress
init_writer l p o w = elim p.graph_writer [
  | some a ↦ init_pinfo l p (record o { graph_writer = some a }) w
  | none ↦ elim (l.writer_qos o.graph_publisher o.graph_topic) [
    | none ↦ give_up o w
    | some q ↦
        let a = l.create_datawriter q in
        unless_null a (record o { graph_writer = a; graph_writer_own = is_some a })
          (create writer a w)
        >>= init_pinfo l p
  ]
]

-- The topic that is found, or else one that is created.
unfoldable pub found_or_created : Libraries → Ptr
found_or_created l = elim l.find_topic [ none ↦ l.create_topic | some t ↦ some t ]

unfoldable pub init_topic : Libraries → Properties → Object → World → Progress
init_topic l p o w = elim p.graph_topic [
  | some a ↦ init_writer l p (record o { graph_topic = some a }) w
  | none ↦ elim l.register_type [
    | false ↦ give_up o w
    | true ↦
        let a = found_or_created l in
        unless_null a (record o { graph_topic = a; graph_topic_own = is_some a }) (create topic a w)
        >>= init_writer l p
  ]
]

unfoldable pub init_publisher : Libraries → Properties → Object → World → Progress
init_publisher l p o w = elim p.graph_publisher [
  | some a ↦ init_topic l p (record o { graph_publisher = some a }) w
  | none ↦
      let a = l.create_publisher in
      unless_null a (record o { graph_publisher = a; graph_publisher_own = is_some a })
        (create publisher a w)
      >>= init_topic l p
]

unfoldable pub init_endpoints_pool : Libraries → Properties → Object → World → Progress
init_endpoints_pool l p o w =
    unless_null l.new_endpoints_pool (record o { endpoints_pool = l.new_endpoints_pool })
      (create endpoints_pool l.new_endpoints_pool w)
    >>= λ o w.
        init_publisher l p
          (record o { graph = record o.graph { graph_participant = p.graph_participant } }) w

unfoldable pub init_nodes_pool : Libraries → Properties → Object → World → Progress
init_nodes_pool l p o w =
    unless_null l.new_nodes_pool (record o { nodes_pool = l.new_nodes_pool })
      (create nodes_pool l.new_nodes_pool w)
    >>= init_endpoints_pool l p

unfoldable pub choose_adapter : Libraries → SampleAdapter → SampleAdapter
unfolding is_valid
choose_adapter l a = if not (is_valid a) then record l.c_adapter { adapter_data = none } else a

-- The object after the first assignments.
abbrev pub begun : Libraries → Properties → Object
begun l p = record def_self { sample_adapter = choose_adapter l p.sample_adapter }

-- The loop over the nodes.
unfoldable pub finalize_nodes : Graph → List Node → Graph
unfolding finalize_node
finalize_nodes g [] = g
finalize_nodes g (n ∷ ns) = finalize_nodes (finalize_node g n).0 ns

-- The deletion of an entity that the graph owns; it may fail.
abbrev pub delete_own : Kind → Bool → Ptr → Bool → World → Bool × World
delete_own k own none succeeds w = (true, w)
delete_own k false (some p) succeeds w = (true, w)
delete_own k true (some p) true w = (true, delete k (some p) w)
delete_own k true (some p) false w = (false, w)

abbrev pub and_then : Bool × World → (World → Bool × World) → Bool × World
and_then (true, w) f = f w
and_then (false, w) f = (false, w)

-- From the semaphores on.
unfoldable pub delete_parts : Libraries → Object → World → Bool × World
delete_parts l o w =
    let w1 = delete semaphore o.mutex_self w in
    let w2 = delete semaphore o.sem_pinfo w1 in
    let w3 = delete semaphore o.sem_pinfo_exit w2 in
    let w4 = delete sample o.pinfo w3 in
    and_then (delete_own writer o.graph_writer_own o.graph_writer l.delete_datawriter w4) λ w5.
      and_then (delete_own topic o.graph_topic_own o.graph_topic l.delete_topic w5) λ w6.
        and_then
          (delete_own publisher o.graph_publisher_own o.graph_publisher l.delete_publisher w6)
          λ w7. (true, delete endpoints_pool o.endpoints_pool (delete nodes_pool o.nodes_pool w7))

-- RTIROS2_Graph_finalize: the object, the resources and the return code. Where there is a thread the
-- function waits for its end, which Shutdown is about.
unfoldable pub finalize : Libraries → Object → World → Object × World × ReturnCode
unfolding finalize_nodes delete_parts
finalize l o w =
    let (done, w') = delete_parts l o (delete thread o.thread_pinfo w) in
    (
      record o {
        graph = finalize_nodes o.graph o.graph.nodes;
        thread_pinfo_active = o.thread_pinfo_active && not (is_some o.thread_pinfo);
      },
      w',
      if done then ok else error,
    )

abbrev pub finish : Libraries → Progress → Object × World × ReturnCode
finish l (go_on o w) = (o, w, ok)
finish l (give_up o w) = let (o', w', _) = finalize l o w in (o', w', error)

-- RTIROS2_Graph_initialize on memory with the given content.
unfoldable pub initialize : Libraries → Object → Properties → World → Object × World × ReturnCode
initialize l memory p w =
    if not (is_some p.graph_participant)
    then (let (o, w', _) = finalize l memory w in (o, w', bad_parameter))
    else finish l (init_nodes_pool l p (begun l p) w)

-- RTIROS2_Graph_new: the address and the object, or NULL.
unfoldable pub new : Libraries → Option Properties → World → Option (ℕ × Object) × World
new l none w = (none, w)
new l (some p) w = elim l.heap [
  | none ↦ (none, w)
  | some (address, memory) ↦
      let (o, w', rc) = initialize l memory p (create structure (some address) w) in
      if is_ok rc then (some (address, o), w') else (none, delete structure (some address) w')
]

-- RTIROS2_Graph_delete.
unfoldable pub delete_graph : Libraries → Option (ℕ × Object) → World → World
delete_graph l none w = w
delete_graph l (some (address, o)) w = delete structure (some address) (finalize l o w).1
