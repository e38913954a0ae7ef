-- ===== src/Cpp/Named.antt =====
-- What the C++ naming functions of publishers and subscriptions return, allocation by allocation.
use rticonnextdds_ros2_adapt.Common.{
  ℕ, ◌+◌, ◌-◌, ◌≤◌, CString, codes, length, length-append, drop, ◌>>=◌, Option, Option-cases, inl,
  inr, none, some, List, ◌∷◌, ◌++◌, arith, ◌≡◌,
}
use rticonnextdds_ros2_adapt.Names as C
use rticonnextdds_ros2_adapt.Names.{
  NameOut, ServiceOut, is_empty, type_namespace, topic_prefix_default, type_suffix_default,
  topic_prefix_request, topic_prefix_response, type_suffix_request, type_suffix_response,
  write_topic_name, write_type_name, make_dds_topic_and_type_names, compute_dds_writer_topic_names,
  compute_dds_reader_topic_names, writer_affixes, reader_affixes,
}
use rticonnextdds_ros2_adapt.Names.TypeName.{NoColon, written}
use rticonnextdds_ros2_adapt.Cpp.{Outcome, returned, threw, dds_error}
use rticonnextdds_ros2_adapt.Cpp.Names.{
  Heap, string_of, string_of_pointer, topic_names_by, compute_publisher_topic_names,
  compute_subscription_topic_names,
}
use rticonnextdds_ros2_adapt.Cpp.Texts.{
  NoNul, c_str-NoNul, string_of-append, qualified, topic_room, type_room, make_names, make_query,
  make_no_type, qualified-NoNul, written-NoNul, topic_string, qualified-not_empty,
}

-- A buffer has room for as many bytes as were asked for, and a NUL.
abbrev pub GivesRoom : Heap → Type 0
GivesRoom h = (i n : ℕ) (buf : List ℕ) → h.string_alloc i n ≡ some buf → n + 1 ≤ length buf

-- What is expected of the names of a topic, given the two allocations: a string of the buffer for the
-- type goes on behind the name with what already stood there.
abbrev pub expected_names :
    Heap → CString → CString → CString → CString → CString → Option (Outcome (CString × CString))
expected_names h topic stem name prefix suffix =
    elim (h.string_alloc 0 (topic_room prefix topic - 1)) [
      | none ↦ some (threw dds_error)
      | some tb ↦ elim (h.string_alloc 1 (type_room (qualified stem name) suffix - 1)) [
        | none ↦ none
        | some yb ↦ string_of (drop (length (written stem suffix)) yb) >>= λ left.
            some (returned (prefix ++ topic, written stem suffix ++ left))
      ]
    ]

-- A text that a topic or a type is written with.
record IsPlain (topic stem name prefix suffix : CString) : Type 0 where
  topic_bytes : NoNul topic
  stem_bytes : NoNul stem
  name_bytes : NoNul name
  no_colon : NoColon name
  prefix_bytes : NoNul prefix
  suffix_bytes : NoNul suffix

topic_names_by_lem :
    (compute : Option CString → Option CString → NameOut → NameOut → C.Names) (h : Heap)
    (topic stem name prefix suffix : CString)
    → GivesRoom h
    → IsPlain topic stem name prefix suffix
    → ((x y : NameOut)
        → compute (some topic) (some (qualified stem name)) x y
          ≡ make_dds_topic_and_type_names topic (qualified stem name) x y prefix suffix)
    → topic_names_by compute h topic (qualified stem name)
      ≡ expected_names h topic stem name prefix suffix
unfolding topic_names_by string_of_pointer
topic_names_by_lem compute h topic stem name prefix suffix room p same =
    let type = qualified stem name in
    let asked = make_query topic type prefix suffix in
    let topic_text = c_str-NoNul topic p.topic_bytes in
    let type_text = c_str-NoNul type (qualified-NoNul stem name p.stem_bytes p.name_bytes) in
    let n0 = topic_room prefix topic - 1 in
    let n1 = type_room type suffix - 1 in
    elim (Option-cases (h.string_alloc 0 n0)) [
      | inl e ↦ rw (expected_names, topic_text, type_text, same, asked, e)
      | inr (tb, e) ↦ elim (Option-cases (h.string_alloc 1 n1)) [
        | inl f ↦ rw (
          expected_names,
          topic_text,
          type_text,
          same,
          asked,
          e,
          f,
          topic_text,
          type_text,
          same,
          make_no_type topic type prefix suffix tb (omega (arith, room 0 n0 tb e)),
          topic_string topic prefix _ p.topic_bytes p.prefix_bytes,
        )
        | inr (yb, f) ↦
            let small : length stem + length suffix + 6 ≤ length yb =
              omega (arith, room 1 n1 yb f, length-append stem (codes "::" ++ name)) in
            let rest = drop (length (written stem suffix)) yb in
            let bytes = written-NoNul stem suffix p.stem_bytes p.suffix_bytes in
            rw
              (
                expected_names,
                topic_text,
                type_text,
                same,
                asked,
                e,
                f,
                topic_text,
                type_text,
                same,
                make_names topic stem name prefix suffix tb yb p.no_colon
                    (omega (arith, room 0 n0 tb e)) small,
                topic_string topic prefix _ p.topic_bytes p.prefix_bytes,
                string_of-append (written stem suffix) rest bytes,
              )
              (elim (Option-cases (string_of rest)) [ inl g ↦ rw g | inr (left, g) ↦ rw g ])
      ]
    ]

-- The names of a topic: no byte is NUL, and `name` has no ':'.
pub record AreTexts (topic stem name : CString) : Type 0 where
  pub topic_bytes : NoNul topic
  pub stem_bytes : NoNul stem
  pub name_bytes : NoNul name
  pub no_colon : NoColon name

-- For a topic that is not empty and a type `stem::name`, of bytes other than NUL and with no ':' in
-- `name`, where a buffer has the room that was asked for: both the names of a publisher and those of
-- a subscription are as follows. Without a buffer for the topic the function throws; without one for
-- the type only, its behaviour is not defined; with both it returns "rt/" and the topic, and
-- `stem`, "dds_::_" and whatever stood behind that in the buffer, up to a NUL.
pub compute_publisher_topic_names_lem :
    (h : Heap) (c : ℕ) (topic stem name : CString)
    → GivesRoom h
    → AreTexts (c ∷ topic) stem name
    → (compute_publisher_topic_names h (c ∷ topic) (qualified stem name)
        ≡ expected_names h (c ∷ topic) stem name topic_prefix_default type_suffix_default)
      × (compute_subscription_topic_names h (c ∷ topic) (qualified stem name)
          ≡ expected_names h (c ∷ topic) stem name topic_prefix_default type_suffix_default)
unfolding compute_publisher_topic_names compute_subscription_topic_names
    C.compute_publisher_topic_names C.compute_subscription_topic_names
    compute_dds_writer_topic_names writer_affixes
compute_publisher_topic_names_lem h c topic stem name room p =
    let plain : IsPlain (c ∷ topic) stem name topic_prefix_default type_suffix_default = record {
      topic_bytes = p.topic_bytes;
      stem_bytes = p.stem_bytes;
      name_bytes = p.name_bytes;
      no_colon = p.no_colon;
      prefix_bytes = (λ e. omega arith, (λ e. omega arith, (λ e. omega arith, tt)));
      suffix_bytes = (λ e. omega arith, tt);
    } in
    let full = qualified-not_empty stem name in
    (
      topic_names_by_lem C.compute_publisher_topic_names h (c ∷ topic) stem name _ _ room plain
          λ x y. rw full,
      topic_names_by_lem C.compute_subscription_topic_names h (c ∷ topic) stem name _ _ room plain
          λ x y. rw full,
    )
