-- ===== src/Tests/Inspection.antt =====
-- Inspection and the counters of readers and writers at a concrete node.
use rticonnextdds_ros2_adapt.Common.{
  pos, inr, false, none, some, ◌≡◌, refl, arith, str_eq, starts_with, true, [], ◌∷◌,
}
use rticonnextdds_ros2_adapt.Types.{service, Endpoint, def_endp, Node}
use rticonnextdds_ros2_adapt.InlineList.{find_key, find}
use rticonnextdds_ros2_adapt.Endpoints.{set_node}
use rticonnextdds_ros2_adapt.Inspect.{inspect_typed}
use rticonnextdds_ros2_adapt.Invariant.{NodeOk}
use rticonnextdds_ros2_adapt.Invariant.Counts.{CountsOk, count}
use rticonnextdds_ros2_adapt.Names.{detect_endpoint_type}
use rticonnextdds_ros2_adapt.Lookup.{
  dds_matches, endp_topic_name, topic_matches, lookup_local_node_by_handle,
  lookup_local_endpoint_by_dds_endpoints, lookup_local_endpoint_by_topic_name,
}
use rticonnextdds_ros2_adapt.Invariant.Attached.{attach-not-CountsOk}
use rticonnextdds_ros2_adapt.Tests.Graphs.{dds, talker, with_node}

-- A node with a service.
abbrev adder : Endpoint
adder = record def_endp {
  handle = pos 0;
  endp_type = service;
  dds_reader = some 3;
  dds_writer = some 3;
}

abbrev answering : Node
answering = record talker {
  endpoints = adder ∷ [];
  endpoints_len = 1;
  readers_len = 1;
  writers_len = 1;
}

pairing : Unit {0}
unfolding find find_key str_eq starts_with detect_endpoint_type dds_matches endp_topic_name
    topic_matches lookup_local_node_by_handle lookup_local_endpoint_by_dds_endpoints
    lookup_local_endpoint_by_topic_name
pairing = tt

-- A service that has only its reader yet.
abbrev half : Endpoint
half = record adder { dds_writer = none }

abbrev reading : Node
reading = record answering { endpoints = half ∷ []; writers_len = 0 }

reading-NodeOk : NodeOk reading
reading-NodeOk = record {
  unique = (tt, tt);
  valid = (omega arith, tt);
  counted = refl;
  counter = omega arith;
}

reading-CountsOk : CountsOk reading
unfolding count
reading-CountsOk true = refl
reading-CountsOk false = refl

half_meets : lookup_local_endpoint_by_topic_name dds reading (dds.writer_topic 2) false ≡ some half
unfolding pairing
half_meets = refl

attach-not-CountsOk_example :
    (m : Node) × (inspect_typed dds true (with_node reading) reading (pos 0) 2 service
      ≡ (set_node (with_node reading) m, pos 0, false))
    × ¬ CountsOk m
attach-not-CountsOk_example =
    attach-not-CountsOk dds service (with_node reading) reading (pos 0) 2 (inr refl) reading-NodeOk
      reading-CountsOk half_meets refl
