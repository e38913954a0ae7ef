-- ===== src/Publish/Convert.antt =====
-- The sample of a participant that RTIROS2_CGraphSampleAdapter_convert_to_sample makes.
use rticonnextdds_ros2_adapt.Common.{
  ℕ, ◌+◌, ◌≤◌, int_max, pos, long_of_size, long_of_size-pos, ap, ◌∙◌, ◌≡◌, refl, length, All,
  Bool-cases, true, false, if◌then◌else◌, some, List, [], ◌∷◌, ◌++◌, append_assoc, append-nil, inl,
  inr, arith, ok,
}
use rticonnextdds_ros2_adapt.Types.{Ptr, ptr_eq, Node, Graph}
use rticonnextdds_ros2_adapt.Invariant.{GraphOk}
use rticonnextdds_ros2_adapt.Invariant.Counts.{CountsOk}
use rticonnextdds_ros2_adapt.Publish.{
  NodeInfo, ParticipantInfo, Entities, ih_to_gid, get_elem?, get_reference, fill_nodes,
  convert_to_sample,
}
use rticonnextdds_ros2_adapt.Publish.Sample.{
  gids, IsSingle, HasMemory, put_at-next, node_to_sample_single,
}

-- What the sample says of a node.
abbrev pub info_of : Entities → Node → NodeInfo
info_of s n = record {
  node_name = n.node_name;
  node_namespace = n.node_namespace;
  reader_gid_seq = gids s false n.endpoints;
  writer_gid_seq = gids s true n.endpoints;
}

-- What it says of the nodes of a participant, in their order.
unfoldable pub infos : Entities → Ptr → List Node → List NodeInfo
infos s p [] = []
infos s p (n ∷ ns) = if ptr_eq p n.dds_participant then info_of s n ∷ infos s p ns else infos s p ns

length-infos : (s : Entities) (p : Ptr) (ns : List Node) → length (infos s p ns) ≤ length ns
unfolding infos
length-infos s p [] = omega arith
length-infos s p (n ∷ ns) = ground (arith, length-infos s p ns)

-- A node whose sample is complete.
pub record IsPlain (n : Node) : Type 0 where
  pub counts : CountsOk n
  pub bound : length n.endpoints ≤ int_max
  pub single : All IsSingle n.endpoints

-- The sequence of nodes takes every length from zero to 2^31 - 1, and is cut behind the elements that
-- remain.
pub record HasRoom (s : Entities) : Type 0 where
  pub memory : HasMemory s
  pub resizes :
      (seq : List NodeInfo) (n : ℕ)
      → n ≤ int_max
      → (seq' : List NodeInfo) × (s.info_ensure_length seq (pos n) ≡ some seq') × (length seq' ≡ n)
  pub cuts :
      (xs ys : List NodeInfo)
      → length xs ≤ int_max
      → s.info_set_length (xs ++ ys) (pos (length xs)) ≡ some xs

pub get_elem?-append {ℓ} :
    {A : Type ℓ} (done : List A) (x : A) (todo : List A)
    → get_elem? (done ++ x ∷ todo) (length done) ≡ some x
unfolding get_elem?
get_elem?-append [] x todo = refl
get_elem?-append (y ∷ done) x todo = get_elem?-append done x todo

fill_nodes_lem :
    (s : Entities) (p : Ptr) (ns : List Node) (done todo : List NodeInfo)
    → HasMemory s
    → All IsPlain ns
    → length ns ≤ length todo
    → length done + length todo ≤ int_max
    → (rest : List NodeInfo) × (fill_nodes s p ns (done ++ todo) (pos (length done))
        ≡ some (ok, (done ++ infos s p ns) ++ rest, pos (length (done ++ infos s p ns))))
unfolding fill_nodes infos get_reference
fill_nodes_lem s p [] done todo m h l b = (todo, rw (append-nil done))
fill_nodes_lem s p (n ∷ ns) done [] m h l b = absurd (omega arith)
fill_nodes_lem s p (n ∷ ns) done (x ∷ todo) m (v, h) l b =
    elim (Bool-cases (ptr_eq p n.dds_participant)) [
      | inr other ↦
          let (rest, e) = fill_nodes_lem s p ns done (x ∷ todo) m h (omega arith) b in
          (rest, rw other e)
      | inl own ↦
          let info = info_of s n in
          let (todo', q, l', i, b') =
            put_at-next done (x ∷ todo) info (length todo) (omega arith) b in
          let (rest, e) =
            fill_nodes_lem s p ns (done ++ info ∷ []) todo' m h (omega (arith, l')) b' in
          let same : (done ++ info ∷ []) ++ infos s p ns ≡ done ++ info ∷ infos s p ns =
            append_assoc done (info ∷ []) (infos s p ns) in
          (
            rest,
            rw
                (
                  own,
                  get_elem?-append done x todo,
                  node_to_sample_single s n x m v.counts v.bound v.single,
                  q,
                  i,
                  ← same,
                )
                e,
          )
    ]

-- With enough memory, in a well-formed graph of at most 2^31 - 1 nodes, each with right counters and
-- at most 2^31 - 1 endpoints that have a reader or a writer and not both, the sample of a participant
-- succeeds: it has the participant's gid and one entry for each node of the participant, in the order
-- of the nodes, with the node's names and the gids of its readers and of its writers.
pub convert_to_sample_lem :
    (s : Entities) (g : Graph) (p : Ptr) (sample : ParticipantInfo)
    → HasRoom s
    → GraphOk g
    → length g.nodes ≤ int_max
    → All IsPlain g.nodes
    → convert_to_sample s g p sample
      ≡ some (
        ok,
        record { gid = ih_to_gid (s.participant_ih p); node_entities_info_seq = infos s p g.nodes },
      )
unfolding convert_to_sample
convert_to_sample_lem s g p sample room v bound h =
    let same : g.nodes_len ≡ length g.nodes = omega (arith, v.counted) in
    let len = ap long_of_size same ∙ long_of_size-pos (length g.nodes) bound in
    let (seq, e, l) = room.resizes sample.node_entities_info_seq (length g.nodes) bound in
    let (rest, f) =
      fill_nodes_lem s p g.nodes [] seq room.memory h (omega (arith, l)) (omega (arith, l)) in
    let fits : length (infos s p g.nodes) ≤ int_max = omega (arith, length-infos s p g.nodes) in
    rw (convert_to_sample, len, e, f, room.cuts (infos s p g.nodes) rest fits)
