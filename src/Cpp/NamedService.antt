-- ===== src/Cpp/NamedService.antt =====
-- What the C++ function for the names of a service returns.
use rticonnextdds_ros2_adapt.Common.{
  ℕ, ◌+◌, ◌-◌, ◌≤◌, CString, codes, length, length-append, drop, drop-append, drop-drop,
  length-drop, true, ◌>>=◌, Option-cases, inl, inr, none, some, List, [], ◌∷◌, ◌++◌, ok, arith, ◌≡◌,
}
use rticonnextdds_ros2_adapt.Names as C
use rticonnextdds_ros2_adapt.Names.{
  NameOut, ServiceOut, is_empty, type_namespace, topic_prefix_default, type_suffix_default,
  topic_prefix_request, topic_prefix_response, type_suffix_request, type_suffix_response,
  write_topic_name, write_type_name, make_dds_topic_and_type_names, compute_dds_writer_topic_names,
  compute_dds_reader_topic_names, writer_affixes, reader_affixes,
}
use rticonnextdds_ros2_adapt.Names.Topic.{room_for, query}
use rticonnextdds_ros2_adapt.Names.TypeName.{NoColon, written}
use rticonnextdds_ros2_adapt.Cpp.{returned}
use rticonnextdds_ros2_adapt.Cpp.Names.{
  Heap, string_of, string_of_pointer, compute_into_shared, fill_service_names,
  compute_service_topic_names,
}
use rticonnextdds_ros2_adapt.Cpp.Texts.{
  NoNul, c_str-NoNul, string_of-append, qualified, topic_room, type_room, make_names,
  qualified-NoNul, written-NoNul, topic_string, qualified-not_empty, slash-not_empty,
}
use rticonnextdds_ros2_adapt.Cpp.Named.{AreTexts}

-- Every allocation succeeds, and a buffer has room for as many bytes as were asked for, and a NUL.
pub record HasMemory (h : Heap) : Type 0 where
  pub buffers : (i n : ℕ) → (buf : List ℕ) × (h.string_alloc i n ≡ some buf) × (n + 1 ≤ length buf)
  pub topics : (i : ℕ) → h.topic_alloc i ≡ true

-- The sizes that the first call tells.
service_query :
    (node svc stem name : CString)
    → let topic = node ++ b'/' ∷ svc in
      C.compute_service_topic_names true node svc
        (some (qualified stem name))
        (record { req_topic = query; req_type = query; rep_topic = query; rep_type = query })
      ≡ some (
        ok,
        record {
          req_topic = record { buffer = none; len = topic_room topic_prefix_request topic };
          req_type = record {
            buffer = none;
            len = type_room (qualified stem name) type_suffix_request;
          };
          rep_topic = record { buffer = none; len = topic_room topic_prefix_response topic };
          rep_type = record {
            buffer = none;
            len = type_room (qualified stem name) type_suffix_response;
          };
        },
      )
unfolding C.compute_service_topic_names compute_dds_reader_topic_names reader_affixes
    compute_dds_writer_topic_names writer_affixes make_dds_topic_and_type_names write_topic_name
    write_type_name
service_query node svc stem name = rw (qualified-not_empty stem name, slash-not_empty node svc)

abbrev request_then_reply : CString → CString → CString
request_then_reply stem b1 =
    written stem type_suffix_request ++ drop (length (written stem type_suffix_request)) b1

length-written_response :
    (stem : CString)
    → length (written stem type_suffix_response) ≡ length (written stem type_suffix_request) + 1
length-written_response stem = omega (
  arith,
  length-append stem (type_namespace ++ (codes "::" ++ type_suffix_response)),
  length-append stem (type_namespace ++ (codes "::" ++ type_suffix_request)),
)

-- What the reply's type leaves behind itself is what stood there before the request's.
drop-request_then_reply :
    (stem b1 : CString)
    → drop (length (written stem type_suffix_response)) (request_then_reply stem b1)
      ≡ drop (length (written stem type_suffix_response)) b1
drop-request_then_reply stem b1 =
    let w = written stem type_suffix_request in
    rw (
      length-written_response stem,
      ← drop-drop (length w) 1 (w ++ drop (length w) b1),
      drop-append w (drop (length w) b1),
      drop-drop (length w) 1 b1,
    )

-- The outputs of the second call.
abbrev filled : CString → CString → CString → CString → CString → CString → CString → ServiceOut
filled node svc stem name b0 b1 b2 =
    let topic = node ++ b'/' ∷ svc in
    let reply = written stem type_suffix_response in
    let text : CString → CString → CString = λ prefix buf.
      (prefix ++ (topic ++ 0 ∷ [])) ++ drop (length (prefix ++ (topic ++ 0 ∷ []))) buf in
    record {
      req_topic = room_for (text topic_prefix_request b0) (topic_room topic_prefix_request topic);
      req_type =
          room_for (reply ++ drop (length reply) b1)
            (type_room (qualified stem name) type_suffix_request);
      rep_topic = room_for (text topic_prefix_response b2) (topic_room topic_prefix_response topic);
      rep_type =
          room_for (reply ++ drop (length reply) b1)
            (type_room (qualified stem name) type_suffix_response);
    }

service_fill :
    (node svc stem name b0 b1 b2 : CString)
    → NoColon name
    → let topic = node ++ b'/' ∷ svc in
      let type = qualified stem name in
      topic_room topic_prefix_request topic ≤ length b0
      → type_room type type_suffix_request ≤ length b1
      → topic_room topic_prefix_response topic ≤ length b2
      → compute_into_shared true node svc type (record {
        req_topic = room_for b0 (topic_room topic_prefix_request topic);
        req_type = room_for b1 (type_room type type_suffix_request);
        rep_topic = room_for b2 (topic_room topic_prefix_response topic);
        rep_type = room_for b1 (type_room type type_suffix_response);
      })
        ≡ some (ok, filled node svc stem name b0 b1 b2)
unfolding compute_into_shared compute_dds_reader_topic_names reader_affixes
    compute_dds_writer_topic_names writer_affixes
service_fill node svc stem name b0 b1 b2 h r0 r1 r2 =
    let topic = node ++ b'/' ∷ svc in
    let type = qualified stem name in
    let w = written stem type_suffix_request in
    let room : length stem + length type_suffix_request + 6 ≤ length b1 =
      omega (arith, length-append stem (codes "::" ++ name)) in
    let room' : length stem + length type_suffix_response + 6
        ≤ length (request_then_reply stem b1) =
      omega (
        arith,
        length-append stem (codes "::" ++ name),
        length-append w (drop (length w) b1),
        length-drop (length w) b1,
      ) in
    rw (
      make_names topic stem name topic_prefix_request type_suffix_request b0 b1 h r0 room,
      qualified-not_empty stem name,
      slash-not_empty node svc,
      make_names topic stem name topic_prefix_response type_suffix_response b2
          (request_then_reply stem b1) h r2 room',
      drop-request_then_reply stem b1,
    )

-- With memory, for a type `stem::name` and texts without NUL, with no ':' in `name`: the C++ function for
-- the names of a service returns the two topics, "rq/" and "rr/" before the node, '/' and the service; as
-- the type of the requests the type of the replies, and what stood behind it in that buffer, up to a
-- NUL; and as the type of the replies what stood in a buffer that nothing was written to. Where the
-- contents of these buffers have no NUL there, its behaviour is not defined.
pub compute_service_topic_names_lem :
    (h : Heap) (node svc stem name : CString)
    → HasMemory h
    → AreTexts (node ++ b'/' ∷ svc) stem name
    → NoNul node
    → NoNul svc
    → let reply = written stem type_suffix_response in
      let topic = node ++ b'/' ∷ svc in
      (req_type_buf : List ℕ) × (rep_type_buf : List ℕ) × (h.string_alloc 1
          (type_room (qualified stem name) type_suffix_request - 1)
        ≡ some req_type_buf)
      × (h.string_alloc 3 (type_room (qualified stem name) type_suffix_response - 1)
          ≡ some rep_type_buf)
      × (compute_service_topic_names h node svc (qualified stem name) ≡ (
          string_of (drop (length reply) req_type_buf) >>= λ left.
          string_of rep_type_buf >>= λ unwritten. some (
            returned (record {
              req_topic = topic_prefix_request ++ topic;
              req_type = reply ++ left;
              rep_topic = topic_prefix_response ++ topic;
              rep_type = unwritten;
            }))))
unfolding compute_service_topic_names fill_service_names string_of_pointer
compute_service_topic_names_lem h node svc stem name m p hn hs =
    let type = qualified stem name in
    let topic = node ++ b'/' ∷ svc in
    let reply = written stem type_suffix_response in
    let (b0, e0, l0) = m.buffers 0 (topic_room topic_prefix_request topic - 1) in
    let (b1, e1, l1) = m.buffers 1 (type_room type type_suffix_request - 1) in
    let (b2, e2, l2) = m.buffers 2 (topic_room topic_prefix_response topic - 1) in
    let (b3, e3, l3) = m.buffers 3 (type_room type type_suffix_response - 1) in
    let second =
      service_fill node svc stem name b0 b1 b2 p.no_colon (omega arith) (omega arith)
        (omega arith) in
    let rest = drop (length reply) b1 in
    let prefix_bytes : NoNul topic_prefix_request =
      (λ e. omega arith, (λ e. omega arith, (λ e. omega arith, tt))) in
    let suffix_bytes : NoNul type_suffix_response = (
      λ e. omega arith,
      (
        λ e. omega arith,
        (
          λ e. omega arith,
          (
            λ e. omega arith,
            (
              λ e. omega arith,
              (
                λ e. omega arith,
                (λ e. omega arith, (λ e. omega arith, (λ e. omega arith, (λ e. omega arith, tt)))),
              ),
            ),
          ),
        ),
      ),
    ) in
    let prefix_bytes' : NoNul topic_prefix_response =
      (λ e. omega arith, (λ e. omega arith, (λ e. omega arith, tt))) in
    (
      b1,
      b3,
      e1,
      e3,
      rw
          (
            c_str-NoNul node hn,
            c_str-NoNul svc hs,
            c_str-NoNul type (qualified-NoNul stem name p.stem_bytes p.name_bytes),
            m.topics,
            service_query node svc stem name,
            e0,
            e1,
            e2,
            e3,
            m.topics,
            c_str-NoNul node hn,
            c_str-NoNul svc hs,
            c_str-NoNul type (qualified-NoNul stem name p.stem_bytes p.name_bytes),
            second,
            topic_string topic topic_prefix_request _ p.topic_bytes prefix_bytes,
            topic_string topic topic_prefix_response _ p.topic_bytes prefix_bytes',
            string_of-append reply rest
                (written-NoNul stem type_suffix_response p.stem_bytes suffix_bytes),
          )
          (elim (Option-cases (string_of rest)) [ inl g ↦ rw g | inr (left, g) ↦ rw g ]),
    )
