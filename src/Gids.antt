-- ===== src/Gids.antt =====
-- The gids of DDS entities, and the DDS entities of a graph: RTIROS2_Graph_compute_*_gid and
-- RTIROS2_Graph_get_graph_* of src/adapter_c/graph.c.
pub mod Distinct
use rticonnextdds_ros2_adapt.Common.{ℕ, Option, none, some, ReturnCode, ok, bad_parameter, ◌>>=◌}
use rticonnextdds_ros2_adapt.Types.{Ptr}
use rticonnextdds_ros2_adapt.Publish.{Gid, Entities, ih_to_gid}
use rticonnextdds_ros2_adapt.Lifecycle.{Object}

-- A `RTIROS2_Gid *` is the gid that it points to, before and after the call.
unfoldable pub compute_participant_gid : Entities → Ptr → Option Gid → ReturnCode × Option Gid
compute_participant_gid s (some p) (some gid) = (ok, some (ih_to_gid (s.participant_ih (some p))))
compute_participant_gid s p gid = (bad_parameter, gid)

unfoldable pub compute_reader_gid : Entities → Ptr → Option Gid → ReturnCode × Option Gid
compute_reader_gid s (some r) (some gid) = (ok, some (ih_to_gid (s.reader_ih r)))
compute_reader_gid s r gid = (bad_parameter, gid)

unfoldable pub compute_writer_gid : Entities → Ptr → Option Gid → ReturnCode × Option Gid
compute_writer_gid s (some w) (some gid) = (ok, some (ih_to_gid (s.writer_ih w)))
compute_writer_gid s w gid = (bad_parameter, gid)

unfoldable pub get_graph_participant : Option Object → Ptr
get_graph_participant self = self >>= λ o. o.graph.graph_participant

unfoldable pub get_graph_publisher : Option Object → Ptr
get_graph_publisher self = self >>= λ o. o.graph_publisher

unfoldable pub get_graph_topic : Option Object → Ptr
get_graph_topic self = self >>= λ o. o.graph_topic

unfoldable pub get_graph_writer : Option Object → Ptr
get_graph_writer self = self >>= λ o. o.graph_writer
