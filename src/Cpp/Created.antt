-- ===== src/Cpp/Created.antt =====
-- What the constructor and the destructor of a C++ graph leave, and with which registry a graph starts.
use rticonnextdds_ros2_adapt.Common.{
  ℕ, false, true, Option-cases, some, inl, inr, ◌⊎◌, ◌≡◌, refl, subst, arith,
}
use rticonnextdds_ros2_adapt.Types.{Ptr, Graph, Dds}
use rticonnextdds_ros2_adapt.Qos.{nanos}
use rticonnextdds_ros2_adapt.Api.Session.{initial}
use rticonnextdds_ros2_adapt.Lifecycle.{sample, World, create, Libraries}
use rticonnextdds_ros2_adapt.Lifecycle.Operations.{new, delete_graph}
use rticonnextdds_ros2_adapt.Lifecycle.Balance.{times-create, times-delete, Balanced}
use rticonnextdds_ros2_adapt.Nodes.{is_polling_enabled}
use rticonnextdds_ros2_adapt.Lifecycle.Started.{new-initial}
use rticonnextdds_ros2_adapt.Lifecycle.Release.{Succeeds}
use rticonnextdds_ros2_adapt.Lifecycle.Create.{new_lem}
use rticonnextdds_ros2_adapt.Cpp.{
  Exception, Outcome, returned, threw, CppProperties, CppGraph, CppLibraries, choose_publisher,
  choose_topic, choose_writer, c_properties, create_c_graph, construct, destroy,
}

-- What the constructor leaves: a graph whose destruction brings balance, or an exception and balance, but
-- for a C sample that stays.
abbrev pub ConstructOutcome : Libraries → Ptr → World → Outcome CppGraph × World → Type 0
ConstructOutcome l c_sample w (returned o, w') =
    (g : Graph)
    → Balanced w
        (destroy l (record o { c_graph = (o.c_graph.0, record o.c_graph.1 { graph = g }) }) w')
ConstructOutcome l c_sample w (threw e, w') =
    Balanced w w' ⊎ ((s : ℕ) × (c_sample ≡ some s) × Balanced (create sample (some s) w) w')

-- The end of the C graph and that of the C sample add up.
destroy-Balanced :
    (l : Libraries) (w w' : World) (o : CppGraph)
    → Balanced (create sample (some o.c_pinfo) w) (delete_graph l (some o.c_graph) w')
    → Balanced w (destroy l o w')
unfolding destroy
destroy-Balanced l w w' o b r = omega (
  arith,
  b r,
  times-create r sample (some o.c_pinfo) w,
  times-delete r sample (some o.c_pinfo) (delete_graph l (some o.c_graph) w'),
)

create_c_graph_lem :
    (l : CppLibraries) (p : CppProperties) (a b t u : ℕ) (w : World)
    → Succeeds l.c
    → ConstructOutcome l.c l.create_data w (create_c_graph l p a b t u w)
unfolding create_c_graph
create_c_graph_lem l p a b t u w s = elim (Option-cases l.create_data) [
  | inl f ↦ rw (create_c_graph, f) (inl λ r. omega arith)
  | inr (c_sample, f) ↦
      let w1 = create sample (some c_sample) w in
      elim (new_lem l.c (c_properties l a b t u) w1 s refl) [
        | inl (e, d) ↦ rw (create_c_graph, f, e) (inr (c_sample, refl, d))
        | inr (address, o, e, d) ↦ rw (create_c_graph, f, e) λ g. destroy-Balanced l.c w _ _ (d g)
      ]
]

Outcome-cases : (q : Outcome ℕ) → ((e : Exception) × (q ≡ threw e)) ⊎ ((n : ℕ) × (q ≡ returned n))
Outcome-cases (returned n) = inr (n, refl)
Outcome-cases (threw e) = inl (e, refl)

-- The constructor throws before it creates anything, or goes on to the C sample.
construct_cases :
    (P : Outcome CppGraph × World → Type 0) (l : CppLibraries) (p : CppProperties) (w : World)
    → ((e : Exception) → P (threw e, w))
    → ((a b t u : ℕ) → P (create_c_graph l p a b t u w))
    → P (construct l p w)
unfolding construct
construct_cases P l p w early late = elim (Option-cases p.graph_participant) [
  | inl f ↦ rw (construct, f) (early _)
  | inr (a, f) ↦ elim (Outcome-cases (choose_publisher l p a)) [
    | inl (e, g) ↦ rw (construct, f, g) (early e)
    | inr (b, g) ↦ elim (Outcome-cases (choose_topic l p a)) [
      | inl (e, h) ↦ rw (construct, f, g, h) (early e)
      | inr (t, h) ↦ elim (Outcome-cases (choose_writer l p b t)) [
        | inl (e, i) ↦ rw (construct, f, g, h, i) (early e)
        | inr (u, i) ↦ rw (construct, f, g, h, i) (late a b t u)
      ]
    ]
  ]
]

-- Where no deletion is refused, the constructor of a graph either returns a graph whose destruction,
-- whatever was registered meanwhile, makes the C resources balance: each was deleted as often as it was
-- created; or it throws and they balance already, or they would but for the C sample, which was created
-- and is not deleted.
pub construct_lem :
    (l : CppLibraries) (p : CppProperties) (w : World)
    → Succeeds l.c
    → ConstructOutcome l.c l.create_data w (construct l p w)
construct_lem l p w s =
    construct_cases (ConstructOutcome l.c l.create_data w) l p w (λ e. inl λ r. omega arith)
      λ a b t u. create_c_graph_lem l p a b t u w s

-- The registry of the C graph is empty and has no poll period.
abbrev NeverPolls : Outcome CppGraph × World → Type 0
NeverPolls (returned o, w) = o.c_graph.1.graph ≡ initial (some o.graph_participant) (nanos 0)
NeverPolls (threw e, w) = Unit {0}

create_c_graph-NeverPolls :
    (l : CppLibraries) (p : CppProperties) (a b t u : ℕ) (w : World)
    → NeverPolls (create_c_graph l p a b t u w)
unfolding create_c_graph
create_c_graph-NeverPolls l p a b t u w = elim (Option-cases l.create_data) [
  | inl f ↦ rw (create_c_graph, f) tt
  | inr (c_sample, f) ↦
      let q = c_properties l a b t u in
      let w1 = create sample (some c_sample) w in
      elim (Option-cases (new l.c (some q) w1).0) [
        | inl e ↦ rw (create_c_graph, f, e) tt
        | inr ((address, o), e) ↦ rw (create_c_graph, f, e) (new-initial l.c q w1 refl e).0
      ]
]

-- A graph that the constructor returns has an empty registry with the participant of the graph, and its
-- update thread does not poll, whatever poll period was asked for, where a duration of 0 is zero.
pub construct_never_polls :
    (d : Dds) (l : CppLibraries) (p : CppProperties) (w : World) {o : CppGraph} {w' : World}
    → d.duration_is_zero (nanos 0) ≡ true
    → construct l p w ≡ (returned o, w')
    → (o.c_graph.1.graph ≡ initial (some o.graph_participant) (nanos 0))
      × (is_polling_enabled d o.c_graph.1.graph ≡ false)
unfolding is_polling_enabled
construct_never_polls d l p w {o} {w'} zero e =
    let h : NeverPolls (construct l p w) =
      construct_cases NeverPolls l p w (λ e. tt)
        λ a b t u. create_c_graph-NeverPolls l p a b t u w in
    let same : o.c_graph.1.graph ≡ initial (some o.graph_participant) (nanos 0) =
      subst NeverPolls e h in
    (same, rw (same, zero))
