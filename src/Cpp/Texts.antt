-- ===== src/Cpp/Texts.antt =====
-- The texts in the buffers of the naming functions, read as std::strings.
use rticonnextdds_ros2_adapt.Common.{
  ℕ, ◌+◌, ◌≤◌, ◌==◌, CString, codes, length, length-append, take-append, drop, All, All-append,
  le→not_ltb, false, ◌>>=◌, Option-cases, inl, inr, none, some, [], ◌∷◌, ◌++◌, append_assoc, ok,
  arith, ◌≡◌, ◌≢◌, refl,
}
use rticonnextdds_ros2_adapt.Names.{
  is_empty, type_namespace, write_topic_name, write_type_name, make_dds_topic_and_type_names,
}
use rticonnextdds_ros2_adapt.Names.Topic.{room_for, query, write_topic_name_ok}
use rticonnextdds_ros2_adapt.Names.TypeName.{
  NoColon, written, type_stem_len-stem, copy_type_name_ok,
}
use rticonnextdds_ros2_adapt.Cpp.Methods.{c_str}
use rticonnextdds_ros2_adapt.Cpp.Names.{string_of}

-- A text without NUL.
abbrev pub NoNul : CString → Type 0
NoNul s = All (λ c. c ≢ 0) s

pub c_str-NoNul : (s : CString) → NoNul s → c_str s ≡ s
unfolding c_str
c_str-NoNul [] h = refl
c_str-NoNul (c ∷ s) h = ground (arith, c_str-NoNul s h.1)

-- A text, and what stands behind it in the buffer.
pub string_of-append :
    (s buf : CString)
    → NoNul s
    → string_of (s ++ buf) ≡ (string_of buf >>= λ rest. some (s ++ rest))
unfolding string_of
string_of-append [] buf h = elim (Option-cases (string_of buf)) [ inl e ↦ rw e | inr (r, e) ↦ rw e ]
string_of-append (c ∷ s) buf h =
    let differs : (c == 0) ≡ false = ground arith in
    elim (Option-cases (string_of buf)) [
      | inl e ↦ rw (differs, string_of-append s buf h.1, e)
      | inr (r, e) ↦ rw (differs, string_of-append s buf h.1, e)
    ]

pub string_of-nul : (s buf : CString) → NoNul s → string_of ((s ++ 0 ∷ []) ++ buf) ≡ some s
unfolding string_of
string_of-nul [] buf h = refl
string_of-nul (c ∷ s) buf h = ground (arith, string_of-nul s buf h.1)

-- The type name `stem::name`.
abbrev pub qualified : CString → CString → CString
qualified stem name = stem ++ (codes "::" ++ name)

-- The room that the code asks for.
abbrev pub topic_room : CString → CString → ℕ
topic_room prefix topic = length prefix + length topic + 1

abbrev pub type_room : CString → CString → ℕ
type_room type suffix = length type + length type_namespace + length suffix + 2 + 1

-- A type name is written where the buffer has room for what is written, whatever its caller says.
pub write_type_name_over :
    (stem name suffix buf : CString)
    → NoColon name
    → length stem + length suffix + 6 ≤ length buf
    → write_type_name
        (qualified stem name)
        suffix
        (room_for buf (type_room (qualified stem name) suffix))
      ≡ some (
        ok,
        record {
          buffer = some (written stem suffix ++ drop (length (written stem suffix)) buf);
          len = type_room (qualified stem name) suffix;
        },
      )
unfolding write_type_name
write_type_name_over stem name suffix buf h room =
    let s = qualified stem name in
    let size = type_room s suffix in
    rw (
      le→not_ltb size size (omega arith),
      type_stem_len-stem stem name h,
      copy_type_name_ok buf s suffix (length stem)
          (omega (arith, length-append stem (codes "::" ++ name))) room,
      take-append stem (codes "::" ++ name),
    )

-- The two names in buffers with the room that the code asks for.
pub make_names :
    (topic stem name prefix suffix tb yb : CString)
    → NoColon name
    → topic_room prefix topic ≤ length tb
    → length stem + length suffix + 6 ≤ length yb
    → make_dds_topic_and_type_names topic
        (qualified stem name)
        (room_for tb (topic_room prefix topic))
        (room_for yb (type_room (qualified stem name) suffix))
        prefix
        suffix
      ≡ some (
        ok,
        record {
          buffer =
              some
                ((prefix ++ (topic ++ 0 ∷ [])) ++ drop (length (prefix ++ (topic ++ 0 ∷ []))) tb);
          len = topic_room prefix topic;
        },
        record {
          buffer = some (written stem suffix ++ drop (length (written stem suffix)) yb);
          len = type_room (qualified stem name) suffix;
        },
      )
unfolding make_dds_topic_and_type_names
make_names topic stem name prefix suffix tb yb h ht hy = rw (
  write_topic_name_ok prefix topic tb _ ht (omega arith),
  write_type_name_over stem name suffix yb h hy,
)

pub make_query :
    (topic type prefix suffix : CString)
    → make_dds_topic_and_type_names topic type query query prefix suffix
      ≡ some (
        ok,
        record { buffer = none; len = topic_room prefix topic },
        record { buffer = none; len = type_room type suffix },
      )
unfolding make_dds_topic_and_type_names write_topic_name write_type_name
make_query topic type prefix suffix = refl

pub make_no_type :
    (topic type prefix suffix tb : CString)
    → topic_room prefix topic ≤ length tb
    → make_dds_topic_and_type_names topic type
        (room_for tb (topic_room prefix topic))
        (record { buffer = none; len = type_room type suffix })
        prefix
        suffix
      ≡ some (
        ok,
        record {
          buffer =
              some
                ((prefix ++ (topic ++ 0 ∷ [])) ++ drop (length (prefix ++ (topic ++ 0 ∷ []))) tb);
          len = topic_room prefix topic;
        },
        record { buffer = none; len = type_room type suffix },
      )
unfolding make_dds_topic_and_type_names write_type_name
make_no_type topic type prefix suffix tb h =
    rw (write_topic_name_ok prefix topic tb _ h (omega arith))

pub qualified-NoNul : (stem name : CString) → NoNul stem → NoNul name → NoNul (qualified stem name)
qualified-NoNul stem name h k =
    All-append (λ c. c ≢ 0) stem (codes "::" ++ name) h (λ e. omega arith, (λ e. omega arith, k))

pub written-NoNul :
    (stem suffix : CString) → NoNul stem → NoNul suffix → NoNul (written stem suffix)
written-NoNul stem suffix h k =
    All-append (λ c. c ≢ 0) stem (type_namespace ++ (codes "::" ++ suffix)) h
      (
        λ e. omega arith,
        (
          λ e. omega arith,
          (λ e. omega arith, (λ e. omega arith, (λ e. omega arith, (λ e. omega arith, k)))),
        ),
      )

pub topic_string :
    (topic prefix tb : CString)
    → NoNul topic
    → NoNul prefix
    → string_of ((prefix ++ (topic ++ 0 ∷ [])) ++ tb) ≡ some (prefix ++ topic)
topic_string topic prefix tb h k =
    rw (← append_assoc prefix topic (0 ∷ []))
      (string_of-nul (prefix ++ topic) tb (All-append (λ c. c ≢ 0) prefix topic k h))

pub qualified-not_empty : (stem name : CString) → is_empty (some (qualified stem name)) ≡ false
qualified-not_empty [] name = refl
qualified-not_empty (c ∷ stem) name = refl

pub slash-not_empty : (node svc : CString) → is_empty (some (node ++ b'/' ∷ svc)) ≡ false
slash-not_empty [] svc = refl
slash-not_empty (c ∷ node) svc = refl
