-- ===== src/Names/Topic.antt =====
-- The topic names that RTIROS2_Graph_compute_dds_{writer,reader}_topic_names write, and what
-- RTIROS2_Graph_detect_endpoint_type finds in them.
use rticonnextdds_ros2_adapt.Common.{
  ℕ, ◌+◌, ◌≤◌, ◌<◌, CString, starts_with, memcpy_next, length, length-append, length-overwrite,
  drop, true, false, ltb, le→not_ltb, Bool-cases, inl, inr, ◌⊎◌, none, some, List, [], ◌∷◌, ◌++◌,
  append_assoc, ok, out_of_resources, arith, ◌≡◌, refl, subst,
}
use rticonnextdds_ros2_adapt.Types.{EndpointType, unknown, subscription, publisher, client, service}
use rticonnextdds_ros2_adapt.Names.{
  topic_prefix_default, type_suffix_default, topic_prefix_request, type_suffix_request,
  topic_prefix_response, type_suffix_response, compute_dds_writer_topic_names,
  compute_dds_reader_topic_names, make_dds_topic_and_type_names, NameOut, detect_endpoint_type,
  write_topic_name, writer_affixes, reader_affixes,
}

-- With the room that the code asks for, the buffer holds prefix, name and NUL, and what stood
-- behind them is kept.
pub write_topic_name_ok :
    (prefix topic buf : List ℕ) (len : ℕ)
    → len ≤ length buf
    → length prefix + length topic + 1 ≤ len
    → let text = prefix ++ (topic ++ 0 ∷ []) in
      write_topic_name prefix topic (record { buffer = some buf; len = len })
      ≡ some (
        ok,
        record {
          buffer = some (text ++ drop (length text) buf);
          len = length prefix + length topic + 1;
        },
      )
unfolding write_topic_name
write_topic_name_ok prefix topic buf len h k =
    let room : length prefix + length (topic ++ 0 ∷ []) ≤ length buf =
      omega (arith, length-append topic (0 ∷ [])) in
    rw (
      le→not_ltb len (length prefix + length topic + 1) k,
      memcpy_next buf [] prefix (omega arith),
      memcpy_next buf prefix (topic ++ 0 ∷ []) room,
    )

-- `strncmp` finds a prefix.
starts_with-append : (p s : CString) → starts_with p (p ++ s) ≡ true
unfolding starts_with
starts_with-append [] s = refl
starts_with-append (c ∷ p) s = ground (arith, starts_with-append p s)

-- The kind of endpoint that a writer's topic name shows: a subscription has no writer, and the
-- function that names topics for writers names its topic as a publisher's.
abbrev pub as_writer : EndpointType → EndpointType
as_writer subscription = publisher
as_writer t = t

abbrev pub as_reader : EndpointType → EndpointType
as_reader publisher = subscription
as_reader t = t

detect-writer :
    (t : EndpointType) (prefix suffix topic : CString)
    → writer_affixes t ≡ some (prefix, suffix)
    → detect_endpoint_type (prefix ++ topic) true ≡ as_writer t
unfolding writer_affixes detect_endpoint_type
detect-writer t prefix suffix topic h = ground arith

detect-reader :
    (t : EndpointType) (prefix suffix topic : CString)
    → reader_affixes t ≡ some (prefix, suffix)
    → detect_endpoint_type (prefix ++ topic) false ≡ as_reader t
unfolding reader_affixes detect_endpoint_type
detect-reader t prefix suffix topic h = ground arith

-- An output with a buffer, and one with NULL.
abbrev pub room_for : List ℕ → ℕ → NameOut
room_for buf len = record { buffer = some buf; len = len }

abbrev pub query : NameOut
query = record { buffer = none; len = 0 }

-- The buffer holds the name and a NUL, and has kept its size; the length counts the NUL.
abbrev pub IsNamed : CString → ℕ → NameOut → Type 0
IsNamed name size out =
    (rest : List ℕ) × (out.buffer ≡ some ((name ++ 0 ∷ []) ++ rest))
    × (out.len ≡ length name + 1)
    × (length ((name ++ 0 ∷ []) ++ rest) ≡ size)

-- The topic's half either refuses for want of room, and changes nothing, or writes the name.
pub write_topic_name_cases :
    (prefix topic buf : List ℕ) (len : ℕ)
    → len ≤ length buf
    → ((len < length prefix + length topic + 1)
        × (write_topic_name prefix topic (room_for buf len)
            ≡ some (out_of_resources, room_for buf len)))
      ⊎ ((out : NameOut) × (write_topic_name prefix topic (room_for buf len) ≡ some (ok, out))
          × IsNamed (prefix ++ topic) (length buf) out)
unfolding write_topic_name
write_topic_name_cases prefix topic buf len h =
    elim (Bool-cases (ltb len (length prefix + length topic + 1))) [
      | inl small ↦ inl (ground arith, rw small)
      | inr room ↦
          let text = prefix ++ (topic ++ 0 ∷ []) in
          let fits : length prefix + length topic + 1 ≤ len = ground arith in
          inr (
            record {
              buffer = some (text ++ drop (length text) buf);
              len = length prefix + length topic + 1;
            },
            write_topic_name_ok prefix topic buf len h fits,
            (
              drop (length text) buf,
              rw (append_assoc prefix topic (0 ∷ [])),
              omega (arith, length-append prefix topic),
              rw (append_assoc prefix topic (0 ∷ [])) (
                  length-overwrite text buf (
                    omega (
                      arith,
                      length-append prefix (topic ++ 0 ∷ []),
                      length-append topic (0 ∷ []),
                    ))),
            ),
          )
    ]

make_topic_full :
    (topic type prefix suffix : CString) (buf : List ℕ) (len : ℕ) (y : NameOut) {out' y' : NameOut}
    → len ≤ length buf
    → make_dds_topic_and_type_names topic type (room_for buf len) y prefix suffix
      ≡ some (ok, out', y')
    → IsNamed (prefix ++ topic) (length buf) out'
unfolding make_dds_topic_and_type_names
make_topic_full topic type prefix suffix buf len y {out'} {y'} h r =
    elim (write_topic_name_cases prefix topic buf len h) [
      | inl (small, e) ↦ absurd (ground arith)
      | inr (out, e, named) ↦
          let same : out ≡ out' = ground arith in
          subst (IsNamed (prefix ++ topic) (length buf)) same named
    ]

-- An OK of the two functions is an OK of the common part, with the affixes of the endpoint's type.
writer_make :
    (topic type : CString) (t : EndpointType) (x y : NameOut) {x' y' : NameOut}
    → compute_dds_writer_topic_names (some topic) (some type) t x y ≡ some (ok, x', y')
    → (prefix : CString) × (suffix : CString) × (writer_affixes t ≡ some (prefix, suffix))
      × (make_dds_topic_and_type_names topic type x y prefix suffix ≡ some (ok, x', y'))
unfolding compute_dds_writer_topic_names writer_affixes
writer_make topic type subscription x y h =
    (topic_prefix_default, type_suffix_default, refl, ground arith)
writer_make topic type publisher x y h =
    (topic_prefix_default, type_suffix_default, refl, ground arith)
writer_make topic type client x y h =
    (topic_prefix_request, type_suffix_request, refl, ground arith)
writer_make topic type service x y h =
    (topic_prefix_response, type_suffix_response, refl, ground arith)
writer_make topic type unknown x y h = absurd (ground arith)

reader_make :
    (topic type : CString) (t : EndpointType) (x y : NameOut) {x' y' : NameOut}
    → compute_dds_reader_topic_names (some topic) (some type) t x y ≡ some (ok, x', y')
    → (prefix : CString) × (suffix : CString) × (reader_affixes t ≡ some (prefix, suffix))
      × (make_dds_topic_and_type_names topic type x y prefix suffix ≡ some (ok, x', y'))
unfolding compute_dds_reader_topic_names reader_affixes
reader_make topic type subscription x y h =
    (topic_prefix_default, type_suffix_default, refl, ground arith)
reader_make topic type publisher x y h =
    (topic_prefix_default, type_suffix_default, refl, ground arith)
reader_make topic type client x y h =
    (topic_prefix_response, type_suffix_response, refl, ground arith)
reader_make topic type service x y h =
    (topic_prefix_request, type_suffix_request, refl, ground arith)
reader_make topic type unknown x y h = absurd (ground arith)

-- Whenever the names for a writer are computed into a buffer as large as its caller says, the buffer
-- holds a NUL-terminated name that ends in the ROS 2 name, and from that name the adapter detects the endpoint type
-- that was asked for (a subscription is named as a publisher).
pub compute_writer-detect :
    (topic type : CString) (t : EndpointType) (buf : List ℕ) (len : ℕ) (y : NameOut)
    {x' y' : NameOut}
    → len ≤ length buf
    → compute_dds_writer_topic_names (some topic) (some type) t (room_for buf len) y
      ≡ some (ok, x', y')
    → (prefix : CString) × IsNamed (prefix ++ topic) (length buf) x'
      × (detect_endpoint_type (prefix ++ topic) true ≡ as_writer t)
compute_writer-detect topic type t buf len y h r =
    let (prefix, suffix, a, m) = writer_make topic type t _ y r in
    (
      prefix,
      make_topic_full topic type prefix suffix buf len y h m,
      detect-writer t prefix suffix topic a,
    )

-- Whenever the names for a reader are computed into a buffer as large as its caller says, the buffer
-- holds a NUL-terminated name that ends in the ROS 2 name, and from that name the adapter detects
-- the endpoint type that was asked for (a publisher is named as a subscription).
pub compute_reader-detect :
    (topic type : CString) (t : EndpointType) (buf : List ℕ) (len : ℕ) (y : NameOut)
    {x' y' : NameOut}
    → len ≤ length buf
    → compute_dds_reader_topic_names (some topic) (some type) t (room_for buf len) y
      ≡ some (ok, x', y')
    → (prefix : CString) × IsNamed (prefix ++ topic) (length buf) x'
      × (detect_endpoint_type (prefix ++ topic) false ≡ as_reader t)
compute_reader-detect topic type t buf len y h r =
    let (prefix, suffix, a, m) = reader_make topic type t _ y r in
    (
      prefix,
      make_topic_full topic type prefix suffix buf len y h m,
      detect-reader t prefix suffix topic a,
    )
