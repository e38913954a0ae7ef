-- ===== src/Cpp/Names.antt =====
-- The naming functions of the C++ namespace `graph`, src/adapter_cpp/graph.cpp: each asks the C function
-- for the sizes, allocates the buffers, calls it again and makes std::strings of the buffers. `none` is
-- behaviour that is not defined: a std::string made from NULL or from bytes without NUL. A size that a
-- query tells is at least 1, so `len - 1` does not wrap. The release of the buffers leaves no trace.
use rticonnextdds_ros2_adapt.Common.{
  ℕ, ◌-◌, ◌==◌, CString, Bool, not, if◌then◌else◌, is_ok, ◌>>=◌, Option, none, some, List, [], ◌∷◌,
  ◌++◌, ReturnCode, ok, error,
}
use rticonnextdds_ros2_adapt.Types.{service}
use rticonnextdds_ros2_adapt.Names as C
use rticonnextdds_ros2_adapt.Names.{
  NameOut, Names, ServiceOut, compute_dds_reader_topic_names, compute_dds_writer_topic_names,
}
use rticonnextdds_ros2_adapt.Names.Topic.{query}
use rticonnextdds_ros2_adapt.Cpp.{Outcome, returned, threw, dds_error}
use rticonnextdds_ros2_adapt.Cpp.Methods.{c_str}

-- DDS_String_alloc at each request of one call, given a length: NULL, or a buffer with what stands in it.
-- `topic_alloc` tells whether the C function for services gets its own buffer.
pub record Heap : Type 0 where
  pub string_alloc : ℕ → ℕ → Option (List ℕ)
  pub topic_alloc : ℕ → Bool

-- A std::string made from a `char *` that is not NULL.
unfoldable pub string_of : List ℕ → Option CString
string_of [] = none
string_of (c ∷ buf) =
    let rest = string_of buf in if c == 0 then some [] else (rest >>= λ s. some (c ∷ s))

unfoldable pub string_of_pointer : Option (List ℕ) → Option CString
string_of_pointer buffer = buffer >>= string_of

-- The two names of a publisher or of a subscription, by the C function for it. Where there is no buffer
-- for the type the code tests the buffer of the topic once more, and goes on.
unfoldable pub topic_names_by :
    (Option CString → Option CString → NameOut → NameOut → Names)
    → Heap
    → CString
    → CString
    → Option (Outcome (CString × CString))
topic_names_by compute h ros2_topic_name ros2_type_name =
    let topic = some (c_str ros2_topic_name) in
    let type = some (c_str ros2_type_name) in
    compute topic type query query >>= λ (rc, t, y).
    if not (is_ok rc) then some (threw dds_error) else elim (h.string_alloc 0 (t.len - 1)) [
      | none ↦ some (threw dds_error)
      | some topic_name_buf ↦
          compute topic type (record { buffer = some topic_name_buf; len = t.len })
            (record { buffer = h.string_alloc 1 (y.len - 1); len = y.len })
          >>= λ (rc', t', y').
              if not (is_ok rc')
              then some (threw dds_error)
              else (string_of_pointer t'.buffer >>= λ dds_topic_name.
                  string_of_pointer y'.buffer >>= λ dds_type_name.
                  some (returned (dds_topic_name, dds_type_name)))
    ]

unfoldable pub compute_publisher_topic_names :
    Heap → CString → CString → Option (Outcome (CString × CString))
compute_publisher_topic_names = topic_names_by C.compute_publisher_topic_names

unfoldable pub compute_subscription_topic_names :
    Heap → CString → CString → Option (Outcome (CString × CString))
compute_subscription_topic_names = topic_names_by C.compute_subscription_topic_names

-- RTIROS2_Graph_compute_service_topic_names where the two outputs for types share the buffer of
-- `req_type`: the reply's type is written over the request's.
unfoldable pub compute_into_shared :
    Bool → CString → CString → CString → ServiceOut → Option (ReturnCode × ServiceOut)
compute_into_shared allocated node_name service_name type_name out =
    if not allocated
    then some (error, out)
    else (let topic_name = node_name ++ b'/' ∷ service_name in
        compute_dds_reader_topic_names (some topic_name) (some type_name) service out.req_topic
          out.req_type
        >>= λ (rc, req_topic, req_type).
            let out1 = record out {
              req_topic = req_topic;
              req_type = req_type;
              rep_type = record out.rep_type { buffer = req_type.buffer };
            } in
            if not (is_ok rc)
            then some (error, out1)
            else (compute_dds_writer_topic_names (some topic_name) (some type_name) service
                  out1.rep_topic out1.rep_type
                >>= λ (rc', rep_topic, rep_type).
                    let out2 = record out1 {
                      req_type = record out1.req_type { buffer = rep_type.buffer };
                      rep_topic = rep_topic;
                      rep_type = rep_type;
                    } in
                    if is_ok rc' then some (ok, out2) else some (error, out2)))

-- The names of a service: the topic and the type of the requests, and those of the replies.
pub record ServiceNames : Type 0 where
  pub req_topic : CString
  pub req_type : CString
  pub rep_topic : CString
  pub rep_type : CString

-- The second call, with four buffers, of which that for the reply's type is not passed on, and the
-- strings.
unfoldable pub fill_service_names :
    Heap → CString → CString → CString → ServiceOut → List ℕ → Option (Outcome ServiceNames)
fill_service_names h node_name service_name type_name out rep_type_name_buf =
    compute_into_shared (h.topic_alloc 1) node_name service_name type_name out >>= λ (rc, out').
    if not (is_ok rc)
    then some (threw dds_error)
    else (string_of_pointer out'.req_topic.buffer >>= λ req_topic.
        string_of_pointer out'.req_type.buffer >>= λ req_type.
        string_of_pointer out'.rep_topic.buffer >>= λ rep_topic.
        string_of rep_type_name_buf >>= λ rep_type. some (
          returned (record {
            req_topic = req_topic;
            req_type = req_type;
            rep_topic = rep_topic;
            rep_type = rep_type;
          })))

unfoldable pub compute_service_topic_names :
    Heap → CString → CString → CString → Option (Outcome ServiceNames)
compute_service_topic_names h ros2_node_name ros2_service_name ros2_type_name =
    let node = c_str ros2_node_name in
    let svc = c_str ros2_service_name in
    let type = c_str ros2_type_name in
    let asked : ServiceOut = record {
      req_topic = query;
      req_type = query;
      rep_topic = query;
      rep_type = query;
    } in
    C.compute_service_topic_names (h.topic_alloc 0) node svc (some type) asked >>= λ (rc, q).
    if not (is_ok rc)
    then some (threw dds_error)
    else elim (h.string_alloc 0 (q.req_topic.len - 1)) [
      | none ↦ some (threw dds_error)
      | some req_topic_buf ↦ elim (h.string_alloc 1 (q.req_type.len - 1)) [
        | none ↦ some (threw dds_error)
        | some req_type_buf ↦ elim (h.string_alloc 2 (q.rep_topic.len - 1)) [
          | none ↦ some (threw dds_error)
          | some rep_topic_buf ↦ elim (h.string_alloc 3 (q.rep_type.len - 1)) [
            | none ↦ some (threw dds_error)
            | some rep_type_buf ↦
                let out : ServiceOut = record {
                  req_topic = record { buffer = some req_topic_buf; len = q.req_topic.len };
                  req_type = record { buffer = some req_type_buf; len = q.req_type.len };
                  rep_topic = record { buffer = some rep_topic_buf; len = q.rep_topic.len };
                  rep_type = record { buffer = some req_type_buf; len = q.rep_type.len };
                } in
                fill_service_names h node svc type out rep_type_buf
          ]
        ]
      ]
    ]
