-- ===== src/Names.antt =====
-- src/adapter_c/graph.c, lines 18 to 35 and 891 to 1215, and RTIROS2_Graph_detect_endpoint_type of
-- src/adapter_c/graph_impl.c: how ROS 2 names are turned into DDS topic and type names, and how a
-- DDS topic name tells the kind of its endpoint.
pub mod Topic
pub mod TypeName
pub mod Sizes
pub mod Service
use rticonnextdds_ros2_adapt.Common.{
  ℕ, zero, suc, ◌+◌, ◌-◌, CString, codes, starts_with, memcpy, length, get_or, take, Bool, true,
  false, not, ◌||◌, ◌==◌, ltb, if◌then◌else◌, ◌>>=◌, Option, none, some, List, [], ◌∷◌, ◌++◌,
  ReturnCode, ok, error, bad_parameter, out_of_resources, is_ok,
}
use rticonnextdds_ros2_adapt.Types.{EndpointType, unknown, subscription, publisher, client, service}

abbrev pub topic_prefix_default : CString
topic_prefix_default = codes "rt/"

abbrev pub topic_prefix_request : CString
topic_prefix_request = codes "rq/"

abbrev pub topic_prefix_response : CString
topic_prefix_response = codes "rr/"

abbrev pub type_namespace : CString
type_namespace = codes "dds_"

abbrev pub type_suffix_default : CString
type_suffix_default = codes "_"

abbrev pub type_suffix_request : CString
type_suffix_request = codes "_Request_"

abbrev pub type_suffix_response : CString
type_suffix_response = codes "_Response_"

unfoldable pub detect_endpoint_type : CString → Bool → EndpointType
unfolding starts_with
detect_endpoint_type topic_name writer =
    if starts_with topic_prefix_default topic_name
    then (if writer then publisher else subscription)
    else if starts_with topic_prefix_response topic_name
    then (if writer then service else client)
    else if starts_with topic_prefix_request topic_name
    then (if writer then client else service)
    else unknown

-- An output argument of the naming functions: a buffer or NULL, and the `size_t` beside it, which
-- holds the room in the buffer before the call and the size needed, NUL included, after it.
pub record NameOut : Type 0 where
  pub buffer : Option (List ℕ)
  pub len : ℕ

-- The loop that walks back from the end of the type name to a ':' or to its first byte; `i` is
-- the offset of `type_stem`.
unfoldable pub scan_back : CString → ℕ → ℕ
scan_back s zero = zero
scan_back s (suc i) = if get_or s (suc i) 0 == b':' then suc i else scan_back s i

-- The offset of "::" in a type name, or `none` where the code answers BAD_PARAMETER.
unfoldable pub type_stem_len : CString → Option ℕ
unfolding scan_back
type_stem_len s =
    let i = scan_back s (length s) in
    if not (get_or s i 0 == b':') || (i == 0 || not (get_or s (i - 1) 0 == b':'))
    then none
    else some (i - 1)

-- The four copies into the buffer of the type name, given the length of the stem.
unfoldable pub copy_type_name : List ℕ → CString → ℕ → CString → Option (List ℕ)
copy_type_name buf ros2_type_name stem_len type_suffix = do
  b1 ← memcpy buf 0 (take stem_len ros2_type_name)
  b2 ← memcpy b1 stem_len type_namespace
  b3 ← memcpy b2 (stem_len + length type_namespace) (codes "::")
  memcpy b3 (stem_len + length type_namespace + 2) type_suffix

-- RTIROS2_Graph_make_dds_topic_and_type_names, in its two halves. `none` is a write past the end
-- of a buffer, which has no defined result.
unfoldable pub write_topic_name : CString → CString → NameOut → Option (ReturnCode × NameOut)
write_topic_name topic_prefix ros2_topic_name out =
    let size = length topic_prefix + length ros2_topic_name + 1 in
    elim out.buffer [
      | none ↦ some (ok, record out { len = size })
      | some buf ↦ if ltb out.len size then some (out_of_resources, out) else (do
        b1 ← memcpy buf 0 topic_prefix
        b2 ← memcpy b1 (length topic_prefix) (ros2_topic_name ++ 0 ∷ [])
        some (ok, record { buffer = some b2; len = size }))
    ]

unfoldable pub write_type_name : CString → CString → NameOut → Option (ReturnCode × NameOut)
write_type_name ros2_type_name type_suffix out =
    let size = length ros2_type_name + length type_namespace + length type_suffix + 2 + 1 in
    elim out.buffer [
      | none ↦ some (ok, record out { len = size })
      | some buf ↦
          if ltb out.len size
          then some (out_of_resources, out)
          else elim (type_stem_len ros2_type_name) [
            | none ↦ some (bad_parameter, out)
            | some stem ↦ do
              b ← copy_type_name buf ros2_type_name stem type_suffix
              some (ok, record { buffer = some b; len = size })
          ]
    ]

-- The return code, and the outputs for the topic name and the type name.
abbrev pub Names : Type 0
Names = Option (ReturnCode × NameOut × NameOut)

unfoldable pub make_dds_topic_and_type_names :
    CString → CString → NameOut → NameOut → CString → CString → Names
make_dds_topic_and_type_names ros2_topic_name ros2_type_name topic type topic_prefix type_suffix =
    write_topic_name topic_prefix ros2_topic_name topic >>= λ (rc, topic').
    if is_ok rc
    then (write_type_name ros2_type_name type_suffix type >>= λ (rc', type').
        some (rc', topic', type'))
    else some (rc, topic', type)

-- `NULL == s || s[0] == '\0'`.
abbrev pub is_empty : Option CString → Bool
is_empty none = true
is_empty (some []) = true
is_empty (some (c ∷ s)) = false

-- The `switch` of the two functions below: the prefix and the suffix for an endpoint that writes,
-- and for one that reads.
unfoldable pub writer_affixes : EndpointType → Option (CString × CString)
writer_affixes subscription = some (topic_prefix_default, type_suffix_default)
writer_affixes publisher = some (topic_prefix_default, type_suffix_default)
writer_affixes client = some (topic_prefix_request, type_suffix_request)
writer_affixes service = some (topic_prefix_response, type_suffix_response)
writer_affixes unknown = none

unfoldable pub reader_affixes : EndpointType → Option (CString × CString)
reader_affixes subscription = some (topic_prefix_default, type_suffix_default)
reader_affixes publisher = some (topic_prefix_default, type_suffix_default)
reader_affixes client = some (topic_prefix_response, type_suffix_response)
reader_affixes service = some (topic_prefix_request, type_suffix_request)
reader_affixes unknown = none

make_with_affixes :
    Option (CString × CString) → Option CString → Option CString → NameOut → NameOut → Names
make_with_affixes none topic_name type_name topic type = some (error, topic, type)
make_with_affixes (some (prefix, suffix)) topic_name type_name topic type = do
  -- strlen of NULL has no defined result
  t ← topic_name
  y ← type_name
  make_dds_topic_and_type_names t y topic type prefix suffix

unfoldable pub compute_dds_writer_topic_names :
    Option CString → Option CString → EndpointType → NameOut → NameOut → Names
unfolding make_with_affixes
compute_dds_writer_topic_names topic_name type_name endp_type topic type =
    if is_empty topic_name || is_empty type_name
    then some (bad_parameter, topic, type)
    else make_with_affixes (writer_affixes endp_type) topic_name type_name topic type

-- The check of the two names is commented out in the source.
unfoldable pub compute_dds_reader_topic_names :
    Option CString → Option CString → EndpointType → NameOut → NameOut → Names
unfolding make_with_affixes
compute_dds_reader_topic_names topic_name type_name endp_type topic type =
    make_with_affixes (reader_affixes endp_type) topic_name type_name topic type

unfoldable pub compute_publisher_topic_names :
    Option CString → Option CString → NameOut → NameOut → Names
compute_publisher_topic_names topic_name type_name topic type =
    compute_dds_writer_topic_names topic_name type_name publisher topic type

unfoldable pub compute_subscription_topic_names :
    Option CString → Option CString → NameOut → NameOut → Names
compute_subscription_topic_names topic_name type_name topic type =
    compute_dds_writer_topic_names topic_name type_name subscription topic type

-- The four outputs of the names of a service.
pub record ServiceOut : Type 0 where
  pub req_topic : NameOut
  pub req_type : NameOut
  pub rep_topic : NameOut
  pub rep_type : NameOut

-- `allocated` says whether DDS_String_alloc succeeds. The call for the replies is made only after
-- a request that answers OK, and any failure of the two is ERROR.
unfoldable pub compute_service_topic_names :
    Bool → CString → CString → Option CString → ServiceOut → Option (ReturnCode × ServiceOut)
compute_service_topic_names allocated node_name service_name type_name out =
    if not allocated
    then some (error, out)
    else (let topic_name = node_name ++ b'/' ∷ service_name in
        compute_dds_reader_topic_names (some topic_name) type_name service out.req_topic
          out.req_type
        >>= λ (rc, req_topic, req_type).
            let out1 = record out { req_topic = req_topic; req_type = req_type } in
            if not (is_ok rc)
            then some (error, out1)
            else (compute_dds_writer_topic_names (some topic_name) type_name service out.rep_topic
                  out.rep_type
                >>= λ (rc', rep_topic, rep_type).
                    let out2 = record out1 { rep_topic = rep_topic; rep_type = rep_type } in
                    if is_ok rc' then some (ok, out2) else some (error, out2)))
