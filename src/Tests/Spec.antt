-- ===== src/Tests/Spec.antt =====
-- The specification, a complete inspection and an update behind a registration at concrete graphs.
use mathlib.Core.List.{Memᴰ}
use rticonnextdds_ros2_adapt.Common.{
  arith, pos, inc32, codes, str_eq, starts_with, true, none, some, List, [], ◌∷◌, ◌≡◌, ◌≢◌, refl,
  ok,
}
use rticonnextdds_ros2_adapt.Types.{Graph, unknown, Dds}
use rticonnextdds_ros2_adapt.InlineList.{find, find_key, replace, remove}
use rticonnextdds_ros2_adapt.Names.{detect_endpoint_type}
use rticonnextdds_ros2_adapt.Handles.{next_handle_loop, next_handle}
use rticonnextdds_ros2_adapt.Lookup.{
  name_matches, lookup_local_node_by_name, lookup_local_node_by_handle,
  lookup_local_endpoint_by_handle, lookup_local_endpoint_by_dds_endpoints, dds_matches,
}
use rticonnextdds_ros2_adapt.Endpoints.{
  set_node, next_endpoint_handle, add_endpoint, insert_endpoint, register_local_endpoint,
  queue_update,
}
use rticonnextdds_ros2_adapt.Inspect.{
  plain, inspect_typed, inspect_endpoint, inspect_endpoints, inspect_parents, inspect_subscribers,
  inspect_local_node_ea,
}
use rticonnextdds_ros2_adapt.Nodes as NodeRegistry
use rticonnextdds_ros2_adapt.Nodes.{
  next_node_handle, add_node, is_polling_enabled, poll_node, fill_node, register_checked,
}
use rticonnextdds_ros2_adapt.Api.{
  announce, register_local_publisher, register_local_node, get_node_name,
}
use rticonnextdds_ros2_adapt.Api.Session.{
  Call, inspect_node, register_node, register_publisher, register_client, unregister_node, step,
  run, initial, c_answers,
}
use rticonnextdds_ros2_adapt.Spec.{abs, Answer, Trace}
use rticonnextdds_ros2_adapt.Spec.Persistence.{StillThere, run-StillThere}
use rticonnextdds_ros2_adapt.Spec.Refines.{requests_of, run-Trace}
use rticonnextdds_ros2_adapt.Spec.Names.{run-names_unique}
use rticonnextdds_ros2_adapt.Inspect.Entities.{HasEntity}
use rticonnextdds_ros2_adapt.Inspect.Complete.{inspect_local_node_ea_complete}
use rticonnextdds_ros2_adapt.Update.{Round, update_round}
use rticonnextdds_ros2_adapt.Update.OneRound.{IsQuiet, TellsAll}
use rticonnextdds_ros2_adapt.Update.Sessions.{Simple, IsNotFull, run-TellsAll}
use rticonnextdds_ros2_adapt.Api.Counts.{run-AllCountsOk}
use rticonnextdds_ros2_adapt.Invariant.Counts.{AllCountsOk}
use rticonnextdds_ros2_adapt.Publish.{ParticipantInfo}
use rticonnextdds_ros2_adapt.Tests.Graphs.{
  chatter, talking, talking-GraphOk, dds, never, talker, with_node, talker-GraphOk,
}
use rticonnextdds_ros2_adapt.Tests.Publication.{entities, blank, entities-CanGrow, entities-HasRoom}

abbrev calls : List (Dds × Call)
calls =
    (dds, register_node (some (codes "talker")) none none)
    ∷ (dds, register_client (pos 0) (some 2) (some 2))
    ∷ (dds, unregister_node (pos 0))
    ∷ []

run-Trace_example :
    (xs : List Answer) × (c_answers (initial (some 1) never) calls ≡ some xs)
    × Trace (some 1) (λ _. none) (requests_of calls) xs (abs (run (initial (some 1) never) calls))
run-Trace_example = run-Trace (some 1) never calls

evaluation : Unit {0}
unfolding find find_key replace remove inc32 str_eq starts_with next_handle_loop next_handle
    detect_endpoint_type name_matches lookup_local_node_by_name lookup_local_node_by_handle
    lookup_local_endpoint_by_handle lookup_local_endpoint_by_dds_endpoints dds_matches set_node
    next_endpoint_handle add_endpoint insert_endpoint register_local_endpoint queue_update announce
    next_node_handle add_node is_polling_enabled poll_node fill_node register_checked
    NodeRegistry.register_local_node register_local_node step run get_node_name plain inspect_typed
    inspect_endpoint inspect_endpoints inspect_parents inspect_subscribers inspect_local_node_ea
    register_local_publisher
evaluation = tt

abbrev registered : List (Dds × Call)
registered = (dds, register_node (some (codes "talker")) none none) ∷ []

named :
    get_node_name (some (run (initial (some 1) never) registered)) (pos 0) true true
    ≡ (ok, some (codes "talker"), some (codes "/"))
unfolding evaluation
named = refl

run-names_unique_example : pos 0 ≡ pos 0
run-names_unique_example =
    run-names_unique (some 1) never registered (pos 0) (pos 0) (codes "talker") (codes "/") named
      named

chatter_writes : detect_endpoint_type (codes "rt/chatter") true ≢ unknown
unfolding evaluation
chatter_writes e = cc e

inspected : (inspect_local_node_ea dds (with_node talker) talker).1 ≡ ok
unfolding evaluation
inspected = refl

inspect_local_node_ea_complete_example :
    HasEntity (pos 0) true 1 (inspect_local_node_ea dds (with_node talker) talker).0
inspect_local_node_ea_complete_example =
    inspect_local_node_ea_complete dds (with_node talker) talker true 1 talker-GraphOk
      (1 ∷ [], 1, 1 ∷ [], refl, Memᴰ.head refl, refl, Memᴰ.head refl) chatter_writes inspected

-- Nothing happens while the update is published.
abbrev round : Round
round = record {
  dds = dds;
  entities = entities;
  polling = λ g. g;
  publishing = λ i g. g;
  write = λ x. true;
}

round-IsQuiet : IsQuiet round
round-IsQuiet = record {
  room = entities-HasRoom;
  grow = entities-CanGrow;
  still = λ i g. refl;
  written = λ x. refl;
}

abbrev publishing : List (Dds × Call)
publishing =
    (dds, register_node (some (codes "talker")) none none)
    ∷ (dds, register_publisher (pos 0) (some 1))
    ∷ []

publishing-Simple : Simple never publishing
publishing-Simple = (refl, refl, (refl, refl, tt))

publishing-IsNotFull : IsNotFull (run (initial (some 1) never) publishing)
unfolding evaluation
publishing-IsNotFull = (omega arith, (omega arith, tt))

publishing_signals : (run (initial (some 1) never) publishing).sem_pinfo ≡ 2
unfolding evaluation
publishing_signals = refl

run-TellsAll_example :
    (g' : Graph) × (pinfo' : ParticipantInfo) × (sent : List ParticipantInfo) × (update_round round
        (run (initial (some 1) never) publishing)
        blank
      ≡ some (g', pinfo', sent))
    × (g'.sem_pinfo ≡ 0)
    × TellsAll entities (run (initial (some 1) never) publishing) sent
run-TellsAll_example =
    run-TellsAll (some 1) never publishing round blank 1 publishing-Simple round-IsQuiet
      publishing-IsNotFull publishing_signals

run-AllCountsOk_example : AllCountsOk (run (initial (some 1) never) calls)
run-AllCountsOk_example =
    run-AllCountsOk (some 1) never calls (refl, refl, (refl, refl, (refl, refl, tt)))

-- Two more nodes, one of which goes again, and an inspection.
abbrev elsewhere : List (Dds × Call)
elsewhere =
    (dds, register_node (some (codes "listener")) none none)
    ∷ (dds, inspect_node (pos 0))
    ∷ (dds, unregister_node (pos 1))
    ∷ []

talking_found : lookup_local_node_by_handle (with_node talking) (pos 0) ≡ some talking
unfolding evaluation
talking_found = refl

chatter_listed : lookup_local_endpoint_by_handle talking (pos 0) ≡ some chatter
unfolding evaluation
chatter_listed = refl

run-StillThere_example :
    StillThere (run (with_node talking) elsewhere) (pos 0) (pos 0) talking chatter
run-StillThere_example =
    run-StillThere (with_node talking) elsewhere (pos 0) (pos 0) talking-GraphOk talking_found
      chatter_listed (refl, (refl, (refl, tt)))
