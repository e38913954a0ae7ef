-- ===== src/Lifecycle/Parts.antt =====
-- The parts of RTIROS2_Graph_initialize: wherever one goes on or gives up, the object holds what was
-- created.
use rticonnextdds_ros2_adapt.Common.{
  ◌+◌, Bool, Bool-cases, false, is_some, Option-cases, none, some, inl, inr, ◌≡◌, refl, ap, ◌∙◌,
  arith,
}
use rticonnextdds_ros2_adapt.Types.{Ptr}
use rticonnextdds_ros2_adapt.Lifecycle.{
  Kind, nodes_pool, endpoints_pool, publisher, topic, writer, sample, semaphore, thread, Resource,
  World, create, Properties, Object, Libraries, Progress, go_on, give_up, ◌>>=◌, unless_null,
}
use rticonnextdds_ros2_adapt.Lifecycle.Operations.{
  init_thread, init_sem_pinfo_exit, init_sem_pinfo, init_mutex_self, init_pinfo, init_writer,
  found_or_created, init_topic, init_publisher, init_endpoints_pool, init_nodes_pool,
}
use rticonnextdds_ros2_adapt.Lifecycle.Balance.{
  hit, own_ptr, owned, own_ptr-new, times-create, create-deleted, Holds,
}

-- Wherever the function goes on or gives up, the object holds what was created.
abbrev pub Ends : World → Progress → Type 0
Ends w0 (go_on o w) = Holds w0 o w
Ends w0 (give_up o w) = Holds w0 o w

-- A creation whose address is written into a field that was NULL.
grown :
    (w0 w : World) (o o1 : Object) (k : Kind) (p : Ptr)
    → Holds w0 o w
    → ((r : Resource) → owned r o1 ≡ owned r o + hit r k p)
    → Holds w0 o1 (create k p w)
grown w0 w o o1 k p h g = record {
  held = λ r. omega (arith, h.held r, g r, times-create r k p w);
  kept = create-deleted k p w ∙ h.kept;
}

-- An entity of the user's is not held.
lent :
    (w0 w : World) (o o1 : Object)
    → Holds w0 o w
    → ((r : Resource) → owned r o1 ≡ owned r o)
    → Holds w0 o1 w
lent w0 w o o1 h g = record { held = λ r. omega (arith, h.held r, g r); kept = h.kept }

own_hit : (r : Resource) (k : Kind) (b : Bool) (p : Ptr) → b ≡ false → hit r k (own_ptr b p) ≡ 0
unfolding hit
own_hit r k b p e = rw e

new_hit : (r : Resource) (k : Kind) (p : Ptr) → hit r k (own_ptr (is_some p) p) ≡ hit r k p
new_hit r k p = ap (hit r k) (own_ptr-new p)

unless_null-Ends :
    (w0 w : World) (o : Object) (p : Ptr) (rest : Object → World → Progress)
    → Holds w0 o w
    → Ends w0 (rest o w)
    → Ends w0 (unless_null p o w >>= rest)
unless_null-Ends w0 w o none rest h next = h
unless_null-Ends w0 w o (some a) rest h next = next

-- The fields that are still NULL, from the last part of the function backwards.
abbrev pub NoThread : Object → Type 0
NoThread o = o.thread_pinfo ≡ none

abbrev pub NoExit : Object → Type 0
NoExit o = (o.sem_pinfo_exit ≡ none) × NoThread o

abbrev pub NoCounting : Object → Type 0
NoCounting o = (o.sem_pinfo ≡ none) × NoExit o

abbrev pub NoSemaphores : Object → Type 0
NoSemaphores o = (o.mutex_self ≡ none) × NoCounting o

abbrev pub NoSample : Object → Type 0
NoSample o = (o.pinfo ≡ none) × NoSemaphores o

abbrev pub NoWriter : Object → Type 0
NoWriter o = (o.graph_writer_own ≡ false) × NoSample o

abbrev pub NoTopic : Object → Type 0
NoTopic o = (o.graph_topic_own ≡ false) × NoWriter o

abbrev pub NoPublisher : Object → Type 0
NoPublisher o = (o.graph_publisher_own ≡ false) × NoTopic o

abbrev pub NoEndpointsPool : Object → Type 0
NoEndpointsPool o = (o.endpoints_pool ≡ none) × NoPublisher o

abbrev pub NoNodesPool : Object → Type 0
NoNodesPool o = (o.nodes_pool ≡ none) × NoEndpointsPool o

module _ (l : Libraries) (p : Properties) (w0 : World) where
  thread-Ends : (o : Object) (w : World) → NoThread o → Holds w0 o w → Ends w0 (init_thread l p o w)
  unfolding init_thread owned hit
  thread-Ends o w b h = grown w0 w o _ thread l.new_thread h λ r. omega (arith, ap (hit r thread) b)

  exit-Ends :
      (o : Object) (w : World) → NoExit o → Holds w0 o w → Ends w0 (init_sem_pinfo_exit l p o w)
  unfolding init_sem_pinfo_exit owned hit
  exit-Ends o w (x, b) h =
      let o1 = record o { sem_pinfo_exit = l.new_binary } in
      let g = grown w0 w o o1 semaphore l.new_binary h λ r. omega (arith, ap (hit r semaphore) x) in
      unless_null-Ends w0 _ o1 l.new_binary (init_thread l p) g (thread-Ends o1 _ b g)

  sem_pinfo-Ends :
      (o : Object) (w : World) → NoCounting o → Holds w0 o w → Ends w0 (init_sem_pinfo l p o w)
  unfolding init_sem_pinfo owned hit
  sem_pinfo-Ends o w (x, b) h =
      let o1 = record o { sem_pinfo = l.new_counting } in
      let g =
        grown w0 w o o1 semaphore l.new_counting h λ r. omega (arith, ap (hit r semaphore) x) in
      unless_null-Ends w0 _ o1 l.new_counting (init_sem_pinfo_exit l p) g (exit-Ends o1 _ b g)

  mutex-Ends :
      (o : Object) (w : World) → NoSemaphores o → Holds w0 o w → Ends w0 (init_mutex_self l p o w)
  unfolding init_mutex_self owned hit
  mutex-Ends o w (x, b) h =
      let o1 = record o { mutex_self = l.new_mutex } in
      let g = grown w0 w o o1 semaphore l.new_mutex h λ r. omega (arith, ap (hit r semaphore) x) in
      unless_null-Ends w0 _ o1 l.new_mutex (init_sem_pinfo l p) g (sem_pinfo-Ends o1 _ b g)

  pinfo-Ends : (o : Object) (w : World) → NoSample o → Holds w0 o w → Ends w0 (init_pinfo l p o w)
  unfolding init_pinfo owned hit
  pinfo-Ends o w (x, b) h =
      let a = l.alloc_sample o.sample_adapter in
      let o1 = record o { pinfo = a } in
      let g = grown w0 w o o1 sample a h λ r. omega (arith, ap (hit r sample) x) in
      unless_null-Ends w0 _ o1 a (init_mutex_self l p) g (mutex-Ends o1 _ b g)

  writer-Ends : (o : Object) (w : World) → NoWriter o → Holds w0 o w → Ends w0 (init_writer l p o w)
  unfolding init_writer owned
  writer-Ends o w (x, b) h = elim (Option-cases p.graph_writer) [
    | inr (a, e) ↦
        let o1 : Object = record o { graph_writer = some a } in
        rw (e, init_writer)
          (pinfo-Ends o1 w b (
            lent w0 w o o1 h λ r. omega (
              arith,
              own_hit r writer o.graph_writer_own (some a) x,
              own_hit r writer o.graph_writer_own o.graph_writer x,
            )))
    | inl e ↦ elim (Option-cases (l.writer_qos o.graph_publisher o.graph_topic)) [
      | inl f ↦ rw (e, init_writer, f) h
      | inr (q, f) ↦
          let a = l.create_datawriter q in
          let o1 : Object = record o { graph_writer = a; graph_writer_own = is_some a } in
          let g = grown w0 w o o1 writer a h λ r.
            omega
              (arith, new_hit r writer a, own_hit r writer o.graph_writer_own o.graph_writer x) in
          rw (e, init_writer, f)
            (unless_null-Ends w0 _ o1 a (init_pinfo l p) g (pinfo-Ends o1 _ b g))
    ]
  ]

  topic-Ends : (o : Object) (w : World) → NoTopic o → Holds w0 o w → Ends w0 (init_topic l p o w)
  unfolding init_topic owned
  topic-Ends o w (x, b) h = elim (Option-cases p.graph_topic) [
    | inr (a, e) ↦
        let o1 : Object = record o { graph_topic = some a } in
        rw (e, init_topic)
          (writer-Ends o1 w b (
            lent w0 w o o1 h λ r. omega (
              arith,
              own_hit r topic o.graph_topic_own (some a) x,
              own_hit r topic o.graph_topic_own o.graph_topic x,
            )))
    | inl e ↦ elim (Bool-cases l.register_type) [
      | inr f ↦ rw (e, init_topic, f) h
      | inl f ↦
          let a = found_or_created l in
          let o1 : Object = record o { graph_topic = a; graph_topic_own = is_some a } in
          let g = grown w0 w o o1 topic a h λ r.
            omega (arith, new_hit r topic a, own_hit r topic o.graph_topic_own o.graph_topic x) in
          rw (e, init_topic, f)
            (unless_null-Ends w0 _ o1 a (init_writer l p) g (writer-Ends o1 _ b g))
    ]
  ]

  publisher-Ends :
      (o : Object) (w : World) → NoPublisher o → Holds w0 o w → Ends w0 (init_publisher l p o w)
  unfolding init_publisher owned
  publisher-Ends o w (x, b) h = elim (Option-cases p.graph_publisher) [
    | inr (a, e) ↦
        let o1 : Object = record o { graph_publisher = some a } in
        rw (e, init_publisher)
          (topic-Ends o1 w b (
            lent w0 w o o1 h λ r. omega (
              arith,
              own_hit r publisher o.graph_publisher_own (some a) x,
              own_hit r publisher o.graph_publisher_own o.graph_publisher x,
            )))
    | inl e ↦
        let a = l.create_publisher in
        let o1 : Object = record o { graph_publisher = a; graph_publisher_own = is_some a } in
        let g = grown w0 w o o1 publisher a h λ r. omega (
          arith,
          new_hit r publisher a,
          own_hit r publisher o.graph_publisher_own o.graph_publisher x,
        ) in
        rw (e, init_publisher) (unless_null-Ends w0 _ o1 a (init_topic l p) g (topic-Ends o1 _ b g))
  ]

  endpoints_pool-Ends :
      (o : Object) (w : World)
      → NoEndpointsPool o
      → Holds w0 o w
      → Ends w0 (init_endpoints_pool l p o w)
  unfolding init_endpoints_pool owned hit
  endpoints_pool-Ends o w (x, b) h =
      let o1 : Object = record o { endpoints_pool = l.new_endpoints_pool } in
      let o2 : Object = record o1 {
        graph = record o1.graph { graph_participant = p.graph_participant };
      } in
      let w1 = create endpoints_pool l.new_endpoints_pool w in
      let g =
        grown w0 w o o1 endpoints_pool l.new_endpoints_pool h
          λ r. omega (arith, ap (hit r endpoints_pool) x) in
      unless_null-Ends w0 w1 o1 l.new_endpoints_pool _ g
        (publisher-Ends o2 w1 b (lent w0 w1 o1 o2 g λ r. refl))

  pub nodes_pool-Ends :
      (o : Object) (w : World) → NoNodesPool o → Holds w0 o w → Ends w0 (init_nodes_pool l p o w)
  unfolding init_nodes_pool owned hit
  nodes_pool-Ends o w (x, b) h =
      let o1 : Object = record o { nodes_pool = l.new_nodes_pool } in
      let g =
        grown w0 w o o1 nodes_pool l.new_nodes_pool h λ r. omega (arith, ap (hit r nodes_pool) x) in
      unless_null-Ends w0 _ o1 l.new_nodes_pool (init_endpoints_pool l p) g
        (endpoints_pool-Ends o1 _ b g)
