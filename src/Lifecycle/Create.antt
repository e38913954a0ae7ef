-- ===== src/Lifecycle/Create.antt =====
-- RTIROS2_Graph_initialize and RTIROS2_Graph_new: what they create is held by the object, or deleted
-- again.
use rticonnextdds_ros2_adapt.Common.{
  ℕ, ◌+◌, true, false, is_some, if◌then◌else◌, Option, Option-cases, none, some, inl, inr, ◌⊎◌, ◌≡◌,
  refl, ap, arith, ReturnCode, ok, error, bad_parameter, is_ok,
}
use rticonnextdds_ros2_adapt.Types.{Graph}
use rticonnextdds_ros2_adapt.Lifecycle.{
  structure, Resource, World, create, delete, Properties, Object, Libraries, Progress, go_on,
  give_up,
}
use rticonnextdds_ros2_adapt.Lifecycle.Operations.{
  init_nodes_pool, begun, finish, finalize, initialize, new, delete_graph,
}
use rticonnextdds_ros2_adapt.Lifecycle.Balance.{
  times, hit, owned, times-create, times-delete, Balanced, Holds,
}
use rticonnextdds_ros2_adapt.Lifecycle.Release.{Succeeds, finalize_world}
use rticonnextdds_ros2_adapt.Lifecycle.Parts.{Ends, nodes_pool-Ends}

-- What initialization leaves: an object that holds what was created, or balance.
abbrev Initialized : World → Object × World × ReturnCode → Type 0
Initialized w0 (o, w, rc) = ((rc ≡ ok) × Holds w0 o w) ⊎ ((rc ≡ error) × Balanced w0 w)

finish-Initialized :
    (l : Libraries) (w0 : World) (q : Progress)
    → Succeeds l
    → Ends w0 q
    → Initialized w0 (finish l q)
finish-Initialized l w0 (go_on o w) s h = inl (refl, h)
finish-Initialized l w0 (give_up o w) s h =
    let (_, d, c) = finalize_world l o w s in
    inr (refl, λ r. omega (arith, d r, h.held r, ap (times r) c, ap (times r) h.kept))

begun-Ends :
    (l : Libraries) (p : Properties) (w : World) → Ends w (init_nodes_pool l p (begun l p) w)
unfolding owned hit
begun-Ends l p w =
    nodes_pool-Ends l p w (begun l p) w
      (refl, (refl, (refl, (refl, (refl, (refl, (refl, (refl, (refl, refl)))))))))
      (record { held = λ r. omega arith; kept = refl })

initialize-Initialized :
    (l : Libraries) (memory : Object) (p : Properties) (w : World)
    → Succeeds l
    → is_some p.graph_participant ≡ true
    → Initialized w (initialize l memory p w)
unfolding initialize
initialize-Initialized l memory p w s e =
    rw (initialize, e)
      (finish-Initialized l w (init_nodes_pool l p (begun l p) w) s (begun-Ends l p w))

-- What RTIROS2_Graph_new leaves: NULL and balance; or a graph whose deletion, at any later state of its
-- registry, brings balance.
abbrev pub NewOutcome : Libraries → World → Option (ℕ × Object) × World → Type 0
NewOutcome l w q =
    ((q.0 ≡ none) × Balanced w q.1)
    ⊎ ((a : ℕ) × (o : Object) × (q.0 ≡ some (a, o))
        × ((g : Graph) → Balanced w (delete_graph l (some (a, record o { graph = g })) q.1)))

Initialized-NewOutcome :
    (l : Libraries) (w : World) (a : ℕ) (q : Object × World × ReturnCode)
    → Succeeds l
    → Initialized (create structure (some a) w) q
    → NewOutcome l w
        (if is_ok q.2 then (some (a, q.0), q.1) else (none, delete structure (some a) q.1))
unfolding delete_graph owned
Initialized-NewOutcome l w a (o, w', rc) s (inl (e, h)) = rw e (
    inr (
      a,
      o,
      refl,
      λ g r.
          let (_, d, c) = finalize_world l (record o { graph = g }) w' s in
          omega (
            arith,
            times-delete r structure (some a) (finalize l (record o { graph = g }) w').1,
            d r,
            h.held r,
            ap (times r) c,
            ap (times r) h.kept,
            times-create r structure (some a) w,
          ),
    ))
Initialized-NewOutcome l w a (o, w', rc) s (inr (e, b)) = rw e (
    inl (
      refl,
      λ r.
          omega
            (arith, b r, times-delete r structure (some a) w', times-create r structure (some a) w),
    ))

-- Where no deletion is refused and a participant is given, RTIROS2_Graph_new either answers NULL and has
-- deleted each resource as often as it has created it, whichever creation failed; or it answers a graph
-- such that RTIROS2_Graph_delete, whatever was registered meanwhile, does so. So an entity that the user
-- has given is not deleted.
pub new_lem :
    (l : Libraries) (p : Properties) (w : World)
    → Succeeds l
    → is_some p.graph_participant ≡ true
    → NewOutcome l w (new l (some p) w)
unfolding new delete_graph finalize
new_lem l p w s e = elim (Option-cases l.heap) [
  | inl f ↦ rw (new, f) (inl (refl, λ r. omega arith))
  | inr ((a, memory), f) ↦
      rw (new, f)
        (Initialized-NewOutcome l w a (initialize l memory p (create structure (some a) w)) s
          (initialize-Initialized l memory p (create structure (some a) w) s e))
]

-- Without a participant, initialization answers BAD_PARAMETER and finalizes the memory that it was
-- given before anything is written there: where no deletion is refused it deletes whatever the
-- memory happens to hold, and creates nothing.
pub initialize_no_participant :
    (l : Libraries) (memory : Object) (p : Properties) (w : World)
    → Succeeds l
    → p.graph_participant ≡ none
    → let (o, w', rc) = initialize l memory p w in
      (rc ≡ bad_parameter)
      × (w'.created ≡ w.created)
      × ((r : Resource) → times r w'.deleted ≡ times r w.deleted + owned r memory)
unfolding initialize
initialize_no_participant l memory p w s e =
    let (_, d, c) = finalize_world l memory w s in
    let absent : is_some p.graph_participant ≡ false = ap is_some e in
    rw (initialize, absent) (refl, c, d)
