-- ===== src/Names/Service.antt =====
-- The names of a service: RTIROS2_Graph_compute_service_topic_names, and how the names of a client
-- and of a service meet.
use rticonnextdds_ros2_adapt.Common.{
  ℕ, CString, length, ◌≤◌, Bool, true, false, Option, some, List, ◌∷◌, ◌++◌, ok, arith, ◌≡◌, refl,
}
use rticonnextdds_ros2_adapt.Types.{service, client}
use rticonnextdds_ros2_adapt.Names.{
  NameOut, ServiceOut, compute_dds_writer_topic_names, compute_dds_reader_topic_names,
  compute_service_topic_names, writer_affixes, reader_affixes, detect_endpoint_type,
}
use rticonnextdds_ros2_adapt.Names.Topic.{
  room_for, IsNamed, compute_writer-detect, compute_reader-detect,
}

-- A client and a service with the same non-empty names meet: the client's writer is named as the service's
-- reader, and the client's reader as the service's writer, into any outputs.
pub client-service_names :
    (c d : ℕ) (topic type : CString) (x y : NameOut)
    → (compute_dds_writer_topic_names (some (c ∷ topic)) (some (d ∷ type)) client x y
        ≡ compute_dds_reader_topic_names (some (c ∷ topic)) (some (d ∷ type)) service x y)
      × (compute_dds_reader_topic_names (some (c ∷ topic)) (some (d ∷ type)) client x y
          ≡ compute_dds_writer_topic_names (some (c ∷ topic)) (some (d ∷ type)) service x y)
unfolding compute_dds_writer_topic_names compute_dds_reader_topic_names writer_affixes
    reader_affixes
client-service_names c d topic type x y = (refl, refl)

-- An OK for the names of a service is an OK for its request names and one for its reply names.
service_parts :
    (allocated : Bool) (node svc : CString) (type : Option CString) (o : ServiceOut)
    {o' : ServiceOut}
    → compute_service_topic_names allocated node svc type o ≡ some (ok, o')
    → (compute_dds_reader_topic_names
          (some (node ++ b'/' ∷ svc))
          type
          service
          o.req_topic
          o.req_type
        ≡ some (ok, o'.req_topic, o'.req_type))
      × (compute_dds_writer_topic_names
            (some (node ++ b'/' ∷ svc))
            type
            service
            o.rep_topic
            o.rep_type
          ≡ some (ok, o'.rep_topic, o'.rep_type))
unfolding compute_service_topic_names
service_parts allocated node svc type o h = ground arith

-- Whenever the names of a service are computed into topic buffers as large as their caller says, the two topic buffers hold
-- NUL-terminated names that end in `node/service`; a reader on the first and a writer on the second
-- are detected as a service.
pub compute_service-detect :
    (allocated : Bool) (node svc type : CString) (bq bp : List ℕ) (lq lp : ℕ) (yq yp : NameOut)
    {o' : ServiceOut}
    → lq ≤ length bq
    → lp ≤ length bp
    → compute_service_topic_names allocated node svc (some type) (record {
      req_topic = room_for bq lq;
      req_type = yq;
      rep_topic = room_for bp lp;
      rep_type = yp;
    })
      ≡ some (ok, o')
    → (req : CString) × (rep : CString) × IsNamed
        (req ++ (node ++ b'/' ∷ svc))
        (length bq)
        o'.req_topic
      × IsNamed (rep ++ (node ++ b'/' ∷ svc)) (length bp) o'.rep_topic
      × (detect_endpoint_type (req ++ (node ++ b'/' ∷ svc)) false ≡ service)
      × (detect_endpoint_type (rep ++ (node ++ b'/' ∷ svc)) true ≡ service)
compute_service-detect allocated node svc type bq bp lq lp yq yp hq hp r =
    let topic = node ++ b'/' ∷ svc in
    let (a, b) = service_parts allocated node svc (some type) _ r in
    let (req, named, found) = compute_reader-detect topic type service bq lq yq hq a in
    let (rep, named', found') = compute_writer-detect topic type service bp lp yp hp b in
    (req, rep, named, named', found, found')
