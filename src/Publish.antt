-- ===== src/Publish.antt =====
-- The sample that announces the nodes of a participant: RTIROS2_Graph_ih_to_gid,
-- RTIROS2_Graph_node_to_sample, RTIROS2_CGraphSampleAdapter_convert_to_sample,
-- DDS_DomainParticipantSeq_append_participant, RTIROS2_Graph_gather_domain_participants and
-- RTIROS2_Graph_publish_update of src/adapter_c/graph_impl.c. `none` stands for a write through
-- NULL, which RTIROS2_GidSeq_get_reference answers for an index out of range.
pub mod Convert
pub mod Gather
pub mod Sample
use rticonnextdds_ros2_adapt.Common.{
  ℕ, zero, suc, ◌&&◌, ℤ, pos, negsuc, eq_ℤ, inc32, long_of_size, length, take, CString, Bool, true,
  false, not, if◌then◌else◌, ◌>>=◌, Option, none, some, List, [], ◌∷◌, ◌++◌, ReturnCode, ok, error,
  is_ok,
}
use rticonnextdds_ros2_adapt.Types.{Ptr, ptr_eq, Endpoint, Node, Graph}

-- RTIROS2_Gid: 24 octets.
abbrev pub Gid : Type 0
Gid = List ℕ

-- RTIROS2_NodeEntitiesInfo and RTIROS2_ParticipantEntitiesInfo.
pub record NodeInfo : Type 0 where
  pub node_name : CString
  pub node_namespace : CString
  pub reader_gid_seq : List Gid
  pub writer_gid_seq : List Gid

pub record ParticipantInfo : Type 0 where
  pub gid : Gid
  pub node_entities_info_seq : List NodeInfo

-- What publication asks of Connext: the 16 octets of the instance handle of an entity, whether a
-- string is copied, and the sequences, which are resized to a length, a
-- `DDS_Long`, or refuse.
pub record Entities : Type 0 where
  pub participant_ih : Ptr → List ℕ
  pub reader_ih : ℕ → List ℕ
  pub writer_ih : ℕ → List ℕ
  pub string_dup : NodeInfo → CString → Bool
  pub gid_ensure_length : List Gid → ℤ → Option (List Gid)
  pub info_ensure_length : List NodeInfo → ℤ → Option (List NodeInfo)
  pub info_set_length : List NodeInfo → ℤ → Option (List NodeInfo)
  pub participants_set_length : List Ptr → ℤ → Option (List Ptr)
  pub participants_ensure_length : List Ptr → ℤ → Option (List Ptr)

-- Zeroes behind the key hash fill the 24 octets.
unfoldable pub ih_to_gid : List ℕ → Gid
ih_to_gid ih = take 16 ih ++ (0 ∷ 0 ∷ 0 ∷ 0 ∷ 0 ∷ 0 ∷ 0 ∷ 0 ∷ [])

-- A write at an index of a list.
unfoldable pub put {ℓ} : {A : Type ℓ} → List A → ℕ → A → Option (List A)
put [] i v = none
put (x ∷ xs) zero v = some (v ∷ xs)
put (x ∷ xs) (suc i) v = put xs i v >>= λ ys. some (x ∷ ys)

-- A write through the reference that a sequence gives for an index, a `DDS_Long`; out of range, below
-- zero too, the reference is NULL.
unfoldable pub put_at {ℓ} : {A : Type ℓ} → List A → ℤ → A → Option (List A)
put_at xs (pos i) v = put xs i v
put_at xs (negsuc i) v = none

-- The two sequences of a node's sample, and the next index of each.
pub record Filling : Type 0 where
  pub readers : List Gid
  pub writers : List Gid
  pub reader_i : ℤ
  pub writer_i : ℤ

-- One round of the loop over the endpoints. With a writer the variables for the handle, the sequence
-- and the index are set once more, so the octets go to the writers alone. With neither they are
-- those of the round before, which repeats its write, or NULL in the first round, where both indices
-- are zero; a write at an index that has wrapped around fails, so they are not zero again.
unfoldable pub put_endpoint : Entities → Ptr → Ptr → Filling → Option Filling
put_endpoint s none none f =
    if eq_ℤ f.reader_i (pos 0) && eq_ℤ f.writer_i (pos 0) then none else some f
put_endpoint s (some r) none f = put_at f.readers f.reader_i (ih_to_gid (s.reader_ih r)) >>= λ gids.
    some (record f { readers = gids; reader_i = inc32 f.reader_i })
put_endpoint s none (some w) f = put_at f.writers f.writer_i (ih_to_gid (s.writer_ih w)) >>= λ gids.
    some (record f { writers = gids; writer_i = inc32 f.writer_i })
put_endpoint s (some r) (some w) f =
    put_at f.writers f.writer_i (ih_to_gid (s.writer_ih w)) >>= λ gids.
    some (record f { writers = gids; reader_i = inc32 f.reader_i; writer_i = inc32 f.writer_i })

unfoldable pub put_endpoints : Entities → List Endpoint → Filling → Option Filling
put_endpoints s [] f = some f
put_endpoints s (e ∷ es) f =
    put_endpoint s e.dds_reader e.dds_writer f >>= λ f'. put_endpoints s es f'

-- The part behind the copies of the strings.
unfoldable pub fill_gids : Entities → Node → NodeInfo → Option (ReturnCode × NodeInfo)
fill_gids s n sample =
    elim (s.gid_ensure_length sample.reader_gid_seq (long_of_size n.readers_len)) [
      | none ↦ some (error, sample)
      | some readers ↦
          elim (s.gid_ensure_length sample.writer_gid_seq (long_of_size n.writers_len)) [
            | none ↦ some (error, record sample { reader_gid_seq = readers })
            | some writers ↦
                put_endpoints s n.endpoints (record {
                  readers = readers;
                  writers = writers;
                  reader_i = pos 0;
                  writer_i = pos 0;
                })
                >>= λ f.
                    some
                      (ok, record sample { reader_gid_seq = f.readers; writer_gid_seq = f.writers })
          ]
    ]

-- A string that could not be copied is NULL in the sample, which is the empty string here.
unfoldable pub node_to_sample : Entities → Node → NodeInfo → Option (ReturnCode × NodeInfo)
node_to_sample s n sample =
    if not (s.string_dup sample n.node_name)
    then some (error, record sample { node_name = [] })
    else (let sample1 = record sample { node_name = n.node_name } in
        if not (s.string_dup sample1 n.node_namespace)
        then some (error, record sample1 { node_namespace = [] })
        else fill_gids s n (record sample1 { node_namespace = n.node_namespace }))

-- An element of a list, and the reference that a sequence gives for an index; `none` is NULL.
unfoldable pub get_elem? {ℓ} : {A : Type ℓ} → List A → ℕ → Option A
get_elem? [] i = none
get_elem? (x ∷ xs) zero = some x
get_elem? (x ∷ xs) (suc i) = get_elem? xs i

unfoldable pub get_reference {ℓ} : {A : Type ℓ} → List A → ℤ → Option A
get_reference xs (pos i) = get_elem? xs i
get_reference xs (negsuc i) = none

-- The loop of RTIROS2_CGraphSampleAdapter_convert_to_sample over the nodes: the return code, the
-- sequence and `node_i`.
unfoldable pub fill_nodes :
    Entities → Ptr → List Node → List NodeInfo → ℤ → Option (ReturnCode × List NodeInfo × ℤ)
fill_nodes s participant [] seq node_i = some (ok, seq, node_i)
fill_nodes s participant (n ∷ ns) seq node_i =
    let skipped = fill_nodes s participant ns seq node_i in
    let filled = get_reference seq node_i >>= λ nsample.
    node_to_sample s n nsample >>= λ (rc, nsample'). put_at seq node_i nsample' >>= λ seq'.
    let rest = fill_nodes s participant ns seq' (inc32 node_i) in
    if is_ok rc then rest else some (error, seq', node_i) in
    if ptr_eq participant n.dds_participant then filled else skipped

unfoldable pub convert_to_sample :
    Entities → Graph → Ptr → ParticipantInfo → Option (ReturnCode × ParticipantInfo)
convert_to_sample s g participant sample =
    let gid = ih_to_gid (s.participant_ih participant) in
    let seq = sample.node_entities_info_seq in
    elim (s.info_ensure_length seq (long_of_size g.nodes_len)) [
      | none ↦ some (error, record { gid = gid; node_entities_info_seq = seq })
      | some seq1 ↦ fill_nodes s participant g.nodes seq1 (pos 0) >>= λ (rc, seq2, node_i).
          let set = s.info_set_length seq2 node_i in
          if not (is_ok rc)
          then some (error, record { gid = gid; node_entities_info_seq = seq2 })
          else elim set [
            | none ↦ some (error, record { gid = gid; node_entities_info_seq = seq2 })
            | some seq3 ↦ some (ok, record { gid = gid; node_entities_info_seq = seq3 })
          ]
    ]

-- The loop that looks for a participant in the sequence.
unfoldable pub contains : Ptr → List Ptr → Bool
contains p [] = false
contains p (q ∷ qs) = if ptr_eq p q then true else contains p qs

unfoldable pub append_participant : Entities → List Ptr → Ptr → Option (ReturnCode × List Ptr)
append_participant s seq p =
    let seq_len : ℤ = pos (length seq) in
    if contains p seq
    then some (ok, seq)
    else elim (s.participants_ensure_length seq (inc32 seq_len)) [
      | none ↦ some (error, seq)
      | some seq1 ↦ put_at seq1 seq_len p >>= λ seq2. some (ok, seq2)
    ]

unfoldable pub gather_nodes : Entities → List Node → List Ptr → Option (ReturnCode × List Ptr)
gather_nodes s [] seq = some (ok, seq)
gather_nodes s (n ∷ ns) seq = append_participant s seq n.dds_participant >>= λ (rc, seq').
    let rest = gather_nodes s ns seq' in if is_ok rc then rest else some (error, seq')

unfoldable pub gather_domain_participants :
    Entities → Graph → List Ptr → Option (ReturnCode × List Ptr)
gather_domain_participants s g seq = elim (s.participants_set_length seq (pos 0)) [
  | none ↦ some (error, seq)
  | some seq1 ↦ gather_nodes s g.nodes seq1
]
