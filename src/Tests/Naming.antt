-- ===== src/Tests/Naming.antt =====
-- The names at concrete inputs.
use rticonnextdds_ros2_adapt.Common.{
  ℕ, zero, suc, ◌+◌, false, CString, codes, starts_with, memcpy, length, true, none, some, List, [],
  ◌∷◌, ◌++◌, ◌≡◌, ◌≢◌, refl, arith, ok,
}
use rticonnextdds_ros2_adapt.Types.{client, service}
use rticonnextdds_ros2_adapt.Names.{
  NameOut, ServiceOut, detect_endpoint_type, scan_back, type_stem_len, copy_type_name,
  write_topic_name, write_type_name, make_dds_topic_and_type_names, writer_affixes, reader_affixes,
  compute_dds_writer_topic_names, compute_dds_reader_topic_names, compute_service_topic_names,
}
use rticonnextdds_ros2_adapt.Names.Topic.{
  room_for, query, IsNamed, compute_writer-detect, compute_reader-detect,
}
use rticonnextdds_ros2_adapt.Names.TypeName.{
  NoColon, written, conventional, write_type_name_not_conventional,
}
use rticonnextdds_ros2_adapt.Names.Sizes.{Fits, compute_writer_safe, compute_writer_query-fill}
use rticonnextdds_ros2_adapt.Names.Service.{compute_service-detect}

naming : Unit {0}
unfolding detect_endpoint_type compute_dds_writer_topic_names compute_dds_reader_topic_names
    make_dds_topic_and_type_names write_topic_name write_type_name copy_type_name type_stem_len
    scan_back memcpy starts_with writer_affixes reader_affixes compute_service_topic_names
naming = tt

abbrev topic : CString
topic = codes "add"

abbrev stem : CString
stem = codes "m::srv"

abbrev name : CString
name = codes "Add"

abbrev type : CString
type = stem ++ (codes "::" ++ name)

-- A buffer of n bytes.
abbrev bytes : ℕ → List ℕ
bytes zero = []
bytes (suc n) = 7 ∷ bytes n

-- The buffer of 12 bytes after "add" is written into it with a prefix.
abbrev filled : CString → NameOut
filled prefix = room_for ((prefix ++ topic) ++ 0 ∷ bytes 5) 7

name-NoColon : NoColon name
name-NoColon = (λ e. omega arith, (λ e. omega arith, (λ e. omega arith, tt)))

reader-detect_premise :
    compute_dds_reader_topic_names (some topic) (some type) client (room_for (bytes 12) 12) query
    ≡ some (ok, filled (codes "rr/"), record { buffer = none; len = length type + 4 + 10 + 2 + 1 })
unfolding naming
reader-detect_premise = refl

compute_reader-detect_example :
    (prefix : CString) × IsNamed (prefix ++ topic) 12 (filled (codes "rr/"))
    × (detect_endpoint_type (prefix ++ topic) false ≡ client)
compute_reader-detect_example =
    compute_reader-detect topic type client (bytes 12) 12 query (omega arith) reader-detect_premise

writer-detect_premise :
    compute_dds_writer_topic_names (some topic) (some type) client (room_for (bytes 12) 12) query
    ≡ some (ok, filled (codes "rq/"), record { buffer = none; len = length type + 4 + 9 + 2 + 1 })
unfolding naming
writer-detect_premise = refl

compute_writer-detect_example :
    (prefix : CString) × IsNamed (prefix ++ topic) 12 (filled (codes "rq/"))
    × (detect_endpoint_type (prefix ++ topic) true ≡ client)
compute_writer-detect_example =
    compute_writer-detect topic type client (bytes 12) 12 query (omega arith) writer-detect_premise

abbrev written_type : NameOut
written_type = room_for (written stem (codes "_") ++ bytes 17) 19

write_type_name_premise :
    write_type_name type (codes "_") (room_for (bytes 30) 30) ≡ some (ok, written_type)
unfolding naming
write_type_name_premise = refl

write_type_name_not_conventional_example :
    written_type.buffer ≢ some (conventional stem name (codes "_") ++ 0 ∷ [])
write_type_name_not_conventional_example =
    write_type_name_not_conventional stem name (codes "_") (bytes 30) 30 name-NoColon (omega arith)
      write_type_name_premise (0 ∷ [])

small-Fits : Fits (room_for (bytes 3) 3)
small-Fits buf e = ground arith

query-Fits : Fits query
query-Fits buf e = cc

compute_writer_safe_example :
    compute_dds_writer_topic_names (some topic) (some type) client (room_for (bytes 3) 3) query
    ≢ none
compute_writer_safe_example =
    compute_writer_safe (some topic) (some type) client (room_for (bytes 3) 3) query small-Fits
      query-Fits

query_premise :
    compute_dds_writer_topic_names (some topic) (some type) client query query
    ≡ some (ok, record { buffer = none; len = 7 }, record { buffer = none; len = 27 })
unfolding naming
query_premise = refl

compute_writer_query-fill_example :
    (x : NameOut) × (y : NameOut) × (compute_dds_writer_topic_names
        (some topic)
        (some type)
        client
        (room_for (bytes 7) 7)
        (room_for (bytes 30) 27)
      ≡ some (ok, x, y))
    × (x.len ≡ 7)
    × (y.len ≡ 27)
compute_writer_query-fill_example =
    compute_writer_query-fill topic stem name (bytes 7) (bytes 30) client name-NoColon query_premise
      (omega arith) (omega arith)

abbrev service_in : ServiceOut
service_in = record {
  req_topic = room_for (bytes 12) 12;
  req_type = query;
  rep_topic = room_for (bytes 12) 12;
  rep_type = query;
}

abbrev service_out : ServiceOut
service_out = record {
  req_topic = room_for (codes "rq/n/add" ++ 0 ∷ bytes 3) 9;
  req_type = record { buffer = none; len = 27 };
  rep_topic = room_for (codes "rr/n/add" ++ 0 ∷ bytes 3) 9;
  rep_type = record { buffer = none; len = 28 };
}

service_premise :
    compute_service_topic_names true (codes "n") topic (some type) service_in
    ≡ some (ok, service_out)
unfolding naming
service_premise = refl

compute_service-detect_example :
    (req : CString) × (rep : CString) × IsNamed (req ++ codes "n/add") 12 service_out.req_topic
    × IsNamed (rep ++ codes "n/add") 12 service_out.rep_topic
    × (detect_endpoint_type (req ++ codes "n/add") false ≡ service)
    × (detect_endpoint_type (rep ++ codes "n/add") true ≡ service)
compute_service-detect_example =
    compute_service-detect true (codes "n") topic type (bytes 12) (bytes 12) 12 12 query query
      (omega arith) (omega arith) service_premise
