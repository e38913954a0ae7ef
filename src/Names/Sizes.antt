-- ===== src/Names/Sizes.antt =====
-- The protocol of the naming functions: a call with NULL buffers tells the room that is needed, and
-- a call with that room succeeds; no call writes past a buffer whose room is what its caller says.
use rticonnextdds_ros2_adapt.Common.{
  ℕ, ◌+◌, ◌≤◌, CString, codes, length, length-append, drop, false, ltb, le→not_ltb, Option,
  Option-cases, inl, inr, none, some, List, ◌++◌, ok, arith, ◌≡◌, ◌≢◌, refl,
}
use rticonnextdds_ros2_adapt.Types.{EndpointType}
use rticonnextdds_ros2_adapt.Names.{
  NameOut, type_namespace, type_stem_len, write_topic_name, write_type_name,
  make_dds_topic_and_type_names, compute_dds_writer_topic_names, writer_affixes,
}
use rticonnextdds_ros2_adapt.Names.Topic.{room_for, query, write_topic_name_cases}
use rticonnextdds_ros2_adapt.Names.TypeName.{
  NoColon, written, copy_type_name_ok, type_stem_len_sound, write_type_name_stem,
}

-- A buffer, where there is one, has the room that its caller says.
abbrev pub Fits : NameOut → Type 0
Fits out = (buf : List ℕ) → out.buffer ≡ some buf → out.len ≤ length buf

write_topic_name_safe :
    (prefix topic : CString) (len : ℕ) (b : Option (List ℕ))
    → Fits (record { buffer = b; len = len })
    → write_topic_name prefix topic (record { buffer = b; len = len }) ≢ none
unfolding write_topic_name
write_topic_name_safe prefix topic len none h e = cc
write_topic_name_safe prefix topic len (some buf) h e =
    ground (arith, write_topic_name_cases prefix topic buf len (h buf refl))

write_type_name_safe :
    (type suffix : CString) (len : ℕ) (b : Option (List ℕ))
    → Fits (record { buffer = b; len = len })
    → write_type_name type suffix (record { buffer = b; len = len }) ≢ none
unfolding write_type_name
write_type_name_safe type suffix len none h e = cc
write_type_name_safe type suffix len (some buf) h e = elim (Option-cases (type_stem_len type)) [
  | inl bad ↦ ground arith
  | inr (k, found) ↦
      let sound = type_stem_len_sound type k found in
      ground
        (arith, h buf refl, copy_type_name_ok buf type suffix k (omega (arith, sound.2)), sound.2)
]

make_safe :
    (topic type prefix suffix : CString) (x y : NameOut)
    → Fits x
    → Fits y
    → make_dds_topic_and_type_names topic type x y prefix suffix ≢ none
unfolding make_dds_topic_and_type_names
make_safe topic type prefix suffix x y hx hy e = ground (
  arith,
  write_topic_name_safe prefix topic x.len x.buffer hx,
  write_type_name_safe type suffix y.len y.buffer hy,
)

-- With buffers as large as their callers say, no call for a writer's names writes past one,
-- whatever the names and the type of the endpoint, NULL names included.
pub compute_writer_safe :
    (topic type : Option CString) (t : EndpointType) (x y : NameOut)
    → Fits x
    → Fits y
    → compute_dds_writer_topic_names topic type t x y ≢ none
unfolding compute_dds_writer_topic_names
compute_writer_safe none type t x y hx hy e = cc
compute_writer_safe (some topic) none t x y hx hy e = ground arith
compute_writer_safe (some topic) (some type) t x y hx hy e =
    elim (Option-cases (writer_affixes t)) [
      | inl unknown_type ↦ ground arith
      | inr ((prefix, suffix), found) ↦ ground (arith, make_safe topic type prefix suffix x y hx hy)
    ]

-- The room for the two names, NUL included.
topic_size : CString → CString → ℕ
topic_size prefix topic = length prefix + length topic + 1

type_size : CString → CString → ℕ
type_size type suffix = length type + length type_namespace + length suffix + 2 + 1

make_query :
    (topic type prefix suffix : CString)
    → make_dds_topic_and_type_names topic type query query prefix suffix
      ≡ some (
        ok,
        record { buffer = none; len = topic_size prefix topic },
        record { buffer = none; len = type_size type suffix },
      )
unfolding make_dds_topic_and_type_names write_topic_name write_type_name topic_size type_size
make_query topic type prefix suffix = refl

make_fill :
    (topic stem name prefix suffix bt by : List ℕ) (lt ly : ℕ)
    → NoColon name
    → lt ≡ topic_size prefix topic
    → ly ≡ type_size (stem ++ (codes "::" ++ name)) suffix
    → lt ≤ length bt
    → ly ≤ length by
    → (x : NameOut) × (y : NameOut) × (make_dds_topic_and_type_names topic
          (stem ++ (codes "::" ++ name))
          (room_for bt lt)
          (room_for by ly)
          prefix
          suffix
        ≡ some (ok, x, y))
      × (x.len ≡ lt)
      × (y.len ≡ ly)
unfolding make_dds_topic_and_type_names topic_size type_size
make_fill topic stem name prefix suffix bt by lt ly h et ey ft fy =
    elim (write_topic_name_cases prefix topic bt lt ft) [
      | inl (small, _) ↦ absurd (omega arith)
      | inr (x, e, named) ↦
          let size = length (stem ++ (codes "::" ++ name)) + 4 + length suffix + 2 + 1 in
          let w = write_type_name_stem stem name suffix by ly h fy in
          let large : ltb ly size ≡ false = le→not_ltb ly size (omega arith) in
          (
            x,
            record {
              buffer = some (written stem suffix ++ drop (length (written stem suffix)) by);
              len = size;
            },
            rw (e, w, large),
            omega (arith, named.2, length-append prefix topic),
            omega arith,
          )
    ]

-- After a query for a writer's names with NULL buffers, the call with buffers of the sizes that
-- the query told succeeds for every type name `stem::name` without a ':' in `name`, and tells the
-- same sizes.
pub compute_writer_query-fill :
    (topic stem name bt by : List ℕ) (t : EndpointType) {x y : NameOut}
    → NoColon name
    → compute_dds_writer_topic_names
        (some topic)
        (some (stem ++ (codes "::" ++ name)))
        t
        query
        query
      ≡ some (ok, x, y)
    → x.len ≤ length bt
    → y.len ≤ length by
    → (x' : NameOut) × (y' : NameOut) × (compute_dds_writer_topic_names
          (some topic)
          (some (stem ++ (codes "::" ++ name)))
          t
          (room_for bt x.len)
          (room_for by y.len)
        ≡ some (ok, x', y'))
      × (x'.len ≡ x.len)
      × (y'.len ≡ y.len)
unfolding compute_dds_writer_topic_names
compute_writer_query-fill topic stem name bt by t {x} {y} h r ft fy =
    elim (Option-cases (writer_affixes t)) [
      | inl unknown_type ↦ absurd (ground arith)
      | inr ((prefix, suffix), found) ↦
          let q = make_query topic (stem ++ (codes "::" ++ name)) prefix suffix in
          let lx : x.len ≡ topic_size prefix topic = ground (arith, q) in
          let ly : y.len ≡ type_size (stem ++ (codes "::" ++ name)) suffix = ground (arith, q) in
          let (x', y', filled, a, b) =
            make_fill topic stem name prefix suffix bt by x.len y.len h lx ly ft fy in
          (x', y', ground (arith, filled), a, b)
    ]
