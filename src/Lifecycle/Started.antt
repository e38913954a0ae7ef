-- ===== src/Lifecycle/Started.antt =====
-- A graph that RTIROS2_Graph_new answers starts with an empty registry.
use rticonnextdds_ros2_adapt.Common.{
  ℕ, Bool-cases, Option, Option-cases, is_some, none, some, true, List, inl, inr, ◌≡◌, refl,
  ReturnCode, is_ok, if◌then◌else◌, error, bad_parameter, precondition_not_met, out_of_resources,
  ok,
}
use rticonnextdds_ros2_adapt.Types.{Ptr, Graph, Dds}
use rticonnextdds_ros2_adapt.Invariant.{GraphOk}
use rticonnextdds_ros2_adapt.Api.Session.{Call, initial, run, run-initial-GraphOk}
use rticonnextdds_ros2_adapt.Lifecycle.{
  structure, World, create, delete, Properties, Object, Libraries, Progress, go_on, give_up, ◌>>=◌,
  unless_null,
}
use rticonnextdds_ros2_adapt.Lifecycle.Operations.{
  init_thread, init_sem_pinfo_exit, init_sem_pinfo, init_mutex_self, init_pinfo, init_writer,
  found_or_created, init_topic, init_publisher, init_endpoints_pool, init_nodes_pool, begun, finish,
  initialize, new,
}

abbrev Starts : Graph → Progress → Type 0
Starts g (go_on o w) = o.graph ≡ g
Starts g (give_up o w) = Unit {0}

unless_null-Starts :
    (g : Graph) (q : Ptr) (o : Object) (w : World) (rest : Object → World → Progress)
    → Starts g (rest o w)
    → Starts g (unless_null q o w >>= rest)
unless_null-Starts g none o w rest h = tt
unless_null-Starts g (some a) o w rest h = h

module _ (l : Libraries) (p : Properties) where
  -- The registry of an object, but for the poll period, which is set with the thread.
  abbrev Registry : Object → Graph → Type 0
  Registry o g = record o.graph { poll_period = p.poll_period } ≡ g

  sem_pinfo-Starts :
      (g : Graph) (o : Object) (w : World) → Registry o g → Starts g (init_sem_pinfo l p o w)
  unfolding init_sem_pinfo init_sem_pinfo_exit init_thread
  sem_pinfo-Starts g o w h =
      unless_null-Starts g l.new_counting _ _ _ (unless_null-Starts g l.new_binary _ _ _ h)

  pinfo-Starts : (g : Graph) (o : Object) (w : World) → Registry o g → Starts g (init_pinfo l p o w)
  unfolding init_pinfo init_mutex_self
  pinfo-Starts g o w h =
      unless_null-Starts g (l.alloc_sample o.sample_adapter) _ _ _
        (unless_null-Starts g l.new_mutex _ _ _ (sem_pinfo-Starts g _ _ h))

  writer-Starts :
      (g : Graph) (o : Object) (w : World) → Registry o g → Starts g (init_writer l p o w)
  unfolding init_writer
  writer-Starts g o w h = elim (Option-cases p.graph_writer) [
    | inr (a, e) ↦ rw (e, init_writer) (pinfo-Starts g _ w h)
    | inl e ↦ elim (Option-cases (l.writer_qos o.graph_publisher o.graph_topic)) [
      | inl f ↦ rw (e, init_writer, f) tt
      | inr (q, f) ↦
          rw (e, init_writer, f)
            (unless_null-Starts g (l.create_datawriter q) _ _ _ (pinfo-Starts g _ _ h))
    ]
  ]

  topic-Starts : (g : Graph) (o : Object) (w : World) → Registry o g → Starts g (init_topic l p o w)
  unfolding init_topic
  topic-Starts g o w h = elim (Option-cases p.graph_topic) [
    | inr (a, e) ↦ rw (e, init_topic) (writer-Starts g _ w h)
    | inl e ↦ elim (Bool-cases l.register_type) [
      | inr f ↦ rw (e, init_topic, f) tt
      | inl f ↦
          rw (e, init_topic, f)
            (unless_null-Starts g (found_or_created l) _ _ _ (writer-Starts g _ _ h))
    ]
  ]

  publisher-Starts :
      (g : Graph) (o : Object) (w : World) → Registry o g → Starts g (init_publisher l p o w)
  unfolding init_publisher
  publisher-Starts g o w h = elim (Option-cases p.graph_publisher) [
    | inr (a, e) ↦ rw (e, init_publisher) (topic-Starts g _ w h)
    | inl e ↦
        rw (e, init_publisher)
          (unless_null-Starts g l.create_publisher _ _ _ (topic-Starts g _ _ h))
  ]

  begun-Starts :
      (w : World)
      → Starts (initial p.graph_participant p.poll_period) (init_nodes_pool l p (begun l p) w)
  unfolding init_nodes_pool init_endpoints_pool
  begun-Starts w =
      unless_null-Starts _ l.new_nodes_pool _ _ _
        (unless_null-Starts _ l.new_endpoints_pool _ _ _ (publisher-Starts _ _ _ refl))

finish-Starts :
    (l : Libraries) (g : Graph) (q : Progress)
    → Starts g q
    → (finish l q).2 ≡ ok
    → (finish l q).0.graph ≡ g
finish-Starts l g (go_on o w) h e = h
finish-Starts l g (give_up o w) h e = cc

field_of :
    {a a' : ℕ} {o o' : Object}
    → ◌≡◌ {A = Option (ℕ × Object)} (some (a, o)) (some (a', o'))
    → o.graph ≡ o'.graph
field_of e = cc

answered :
    (g : Graph) (a a' : ℕ) (o : Object) (q : Object × World × ReturnCode)
    → (q.2 ≡ ok → q.0.graph ≡ g)
    → (let answer : Option (ℕ × Object) × World =
          if is_ok q.2 then (some (a, q.0), q.1) else (none, delete structure (some a) q.1) in
        answer.0 ≡ some (a', o))
    → o.graph ≡ g
answered g a a' o (o', w', ok) h e = rw⁻¹ (field_of e) (h refl)
answered g a a' o (o', w', error) h e = absurd (cc)
answered g a a' o (o', w', bad_parameter) h e = absurd (cc)
answered g a a' o (o', w', precondition_not_met) h e = absurd (cc)
answered g a a' o (o', w', out_of_resources) h e = absurd (cc)

initialize-initial :
    (l : Libraries) (memory : Object) (p : Properties) (w : World)
    → is_some p.graph_participant ≡ true
    → (initialize l memory p w).2 ≡ ok
    → (initialize l memory p w).0.graph ≡ initial p.graph_participant p.poll_period
unfolding initialize
initialize-initial l memory p w given =
    rw (initialize, given)
      (finish-Starts l _ (init_nodes_pool l p (begun l p) w) (begun-Starts l p w))

-- With a participant, the registry of a graph that RTIROS2_Graph_new answers is the empty one, with the
-- participant and the poll period of the properties; and after any sequence of calls on it, in any DDS
-- environments, it is well-formed.
pub new-initial :
    (l : Libraries) (p : Properties) (w : World) {a : ℕ} {o : Object}
    → is_some p.graph_participant ≡ true
    → (new l (some p) w).0 ≡ some (a, o)
    → (o.graph ≡ initial p.graph_participant p.poll_period)
      × ((cs : List (Dds × Call)) → GraphOk (run o.graph cs))
unfolding new
new-initial l p w {a} {o} given e = elim (Option-cases l.heap) [
  | inl f ↦ absurd (cc)
  | inr ((a', memory), f) ↦
      let w1 = create structure (some a') w in
      let same : o.graph ≡ initial p.graph_participant p.poll_period =
        answered _ a' a o (initialize l memory p w1) (initialize-initial l memory p w1 given)
          (rw (new, f) at e) in
      (same, λ cs. rw same (run-initial-GraphOk p.graph_participant p.poll_period cs))
]
