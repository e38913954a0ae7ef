-- ===== src/Inspect/Pairing.antt =====
-- How inspection pairs a DDS endpoint of a client or of a service with an endpoint of the node that
-- it finds by topic name.
use rticonnextdds_ros2_adapt.Common.{
  ℕ, ℤ, CString, eq_of_str_eq, true, false, none, some, inl, inr, ◌⊎◌, ◌≡◌, refl, arith,
}
use rticonnextdds_ros2_adapt.Types.{
  Ptr, EndpointType, client, service, unknown, publisher, subscription, eq_EndpointType, Endpoint,
  Node, Graph, Dds,
}
use rticonnextdds_ros2_adapt.InlineList.{find_sound}
use rticonnextdds_ros2_adapt.Names.{detect_endpoint_type}
use rticonnextdds_ros2_adapt.Lookup.{
  endp_topic_name, topic_matches, lookup_local_node_by_handle,
  lookup_local_endpoint_by_dds_endpoints, lookup_local_endpoint_by_topic_name,
}
use rticonnextdds_ros2_adapt.Endpoints.{conforms}
use rticonnextdds_ros2_adapt.Inspect.{attach, inspect_typed, inspect_endpoint}

matches-reader :
    (d : Dds) (topic : CString) (e : Endpoint) (p : Ptr)
    → e.dds_reader ≡ p
    → topic_matches d topic false e ≡ true
    → (r : ℕ) × (e.dds_reader ≡ some r) × (topic ≡ d.reader_topic r)
unfolding topic_matches endp_topic_name
matches-reader d topic e none h m = absurd (ground (arith, m))
matches-reader d topic e (some r) h m =
    (r, h, eq_of_str_eq topic (d.reader_topic r) (ground (arith, m)))

-- An endpoint that is found by the name of a reader's topic has a reader on that topic.
found-reader :
    (d : Dds) (n : Node) (topic : CString) {e : Endpoint}
    → lookup_local_endpoint_by_topic_name d n topic false ≡ some e
    → (r : ℕ) × (e.dds_reader ≡ some r) × (topic ≡ d.reader_topic r)
unfolding lookup_local_endpoint_by_topic_name
found-reader d n topic {e} h =
    matches-reader d topic e e.dds_reader refl
      (find_sound (topic_matches d topic false) n.endpoints h)

attach-found :
    (d : Dds) (t : EndpointType) (g : Graph) (n : Node) (k : ℤ) (p : ℕ) {e : Endpoint}
    → lookup_local_endpoint_by_topic_name d n (d.reader_topic p) false ≡ some e
    → attach d false t g n k p ≡ (g, k, true)
unfolding attach
attach-found d t g n k p h =
    let (r, y, _) = found-reader d n (d.reader_topic p) h in rw (h, attach, y)

-- A reader of a client or of a service, on a topic on which the lookup finds an endpoint of the node,
-- stops the inspection with an error and leaves the graph: the endpoint found always has a reader,
-- so the branch that completes it with the reader is never taken.
pub inspect_endpoint_second_reader :
    (d : Dds) (g : Graph) (n : Node) (h k : ℤ) (p : ℕ) {e : Endpoint}
    → lookup_local_node_by_handle g h ≡ some n
    → lookup_local_endpoint_by_dds_endpoints n (some p) none ≡ none
    → (detect_endpoint_type (d.reader_topic p) false ≡ client)
      ⊎ (detect_endpoint_type (d.reader_topic p) false ≡ service)
    → lookup_local_endpoint_by_topic_name d n (d.reader_topic p) false ≡ some e
    → inspect_endpoint d false h g k p ≡ (g, k, true)
unfolding inspect_endpoint inspect_typed
inspect_endpoint_second_reader d g n h k p there new (inl t) found =
    rw (inspect_endpoint, there, new, t, attach-found d client g n k p found)
inspect_endpoint_second_reader d g n h k p there new (inr t) found =
    rw (inspect_endpoint, there, new, t, attach-found d service g n k p found)

-- The topic that a client writes is one that a service reads.
detect-crossed :
    (topic : CString)
    → detect_endpoint_type topic true ≡ client
    → detect_endpoint_type topic false ≡ service
unfolding detect_endpoint_type
detect-crossed topic h = ground arith

service_of_eq : (t : EndpointType) → eq_EndpointType t service ≡ true → t ≡ service
service_of_eq unknown h = cc
service_of_eq subscription h = cc
service_of_eq publisher h = cc
service_of_eq client h = cc
service_of_eq service h = refl

-- The endpoint that inspection finds for a writer of a client, and completes with that writer, is an
-- endpoint of a service, where the topic of its reader conforms to its type as registration demands.
pub attach_client_writer-service :
    (d : Dds) (n : Node) (w : ℕ) {e : Endpoint}
    → detect_endpoint_type (d.writer_topic w) true ≡ client
    → lookup_local_endpoint_by_topic_name d n (d.writer_topic w) false ≡ some e
    → conforms d.reader_topic false e.endp_type e.dds_reader ≡ true
    → e.endp_type ≡ service
attach_client_writer-service d n w {e} t found c =
    let (r, y, same) = found-reader d n (d.writer_topic w) found in
    let reads : detect_endpoint_type (d.reader_topic r) false ≡ service =
      rw (← same) (detect-crossed (d.writer_topic w) t) in
    service_of_eq e.endp_type (rw (← reads) (rw y at c))
