-- ===== src/Update/OneRound.antt =====
-- What the samples of a round of the update thread tell.
use mathlib.Core.List.{Memᴰ}
use mathlib.Core.Path.{fun_ext}
use rticonnextdds_ros2_adapt.Common.{
  ℕ, suc, CString, ℤ, Bool, true, false, if◌then◌else◌, some, List, ◌≡◌, refl, sym, subst, ◌∙◌,
}
use rticonnextdds_ros2_adapt.Types.{Ptr, Endpoint, Node, Graph}
use rticonnextdds_ros2_adapt.InlineList.{find_key}
use rticonnextdds_ros2_adapt.Lookup.{
  node_key, lookup_local_endpoint_by_handle, lookup_local_node_by_handle,
}
use rticonnextdds_ros2_adapt.Inspect.{side}
use rticonnextdds_ros2_adapt.Publish.{Gid, NodeInfo, ParticipantInfo, Entities, ih_to_gid, contains}
use rticonnextdds_ros2_adapt.Publish.Convert.{HasRoom, info_of}
use rticonnextdds_ros2_adapt.Publish.Gather.{CanGrow, participants_of}
use rticonnextdds_ros2_adapt.Publish.Sample.{gid_of, gids}
use rticonnextdds_ros2_adapt.Update.{Round, update_round}
use rticonnextdds_ros2_adapt.Update.Polling.{thread_round_signalled}
use rticonnextdds_ros2_adapt.Update.Sent.{IsPublishable, sample_of, samples_of, publish_update_lem}
use rticonnextdds_ros2_adapt.Update.Told.{
  ptr_eq_refl, gids-listed, infos-listed, participant-gathered, samples_of-listed,
}

-- No other thread changes the graph while the update is published, every sample is written, and there
-- is enough memory.
pub record IsQuiet (r : Round) : Type 0 where
  pub room : HasRoom r.entities
  pub grow : CanGrow r.entities
  pub still : (i : ℕ) (g : Graph) → r.publishing i g ≡ g
  pub written : (x : ParticipantInfo) → r.write x ≡ true

-- Among the samples there is one with the gid of a participant, in which a node with these names has
-- the gid of a writer, or of a reader.
abbrev pub Tells : Entities → CString → CString → Ptr → Bool → ℕ → List ParticipantInfo → Type 0
Tells s name ns owner b p sent =
    (x : ParticipantInfo) × (i : NodeInfo) × Memᴰ x sent
    × (x.gid ≡ ih_to_gid (s.participant_ih owner))
    × Memᴰ i x.node_entities_info_seq
    × (i.node_name ≡ name)
    × (i.node_namespace ≡ ns)
    × Memᴰ (gid_of s b p) (if b then i.writer_gid_seq else i.reader_gid_seq)

entry_gids :
    (s : Entities) (b : Bool) (es : List Endpoint) (gid : Gid)
    → Memᴰ gid (gids s b es)
    → Memᴰ gid (if b then gids s true es else gids s false es)
entry_gids s true es gid m = m
entry_gids s false es gid m = m

-- The samples tell every reader and every writer of every endpoint of every node.
abbrev pub TellsAll : Entities → Graph → List ParticipantInfo → Type 0
TellsAll s g sent =
    (h k : ℤ) (m : Node) (e : Endpoint) (b : Bool) (p : ℕ)
    → lookup_local_node_by_handle g h ≡ some m
    → lookup_local_endpoint_by_handle m k ≡ some e
    → side b e ≡ some p
    → Tells s m.node_name m.node_namespace m.dds_participant b p sent

samples-TellsAll :
    (s : Entities) (g g1 : Graph) (ps : List Ptr)
    → g1.nodes ≡ g.nodes
    → ((p : Ptr) → contains p ps ≡ contains p (participants_of g1.nodes))
    → TellsAll s g (samples_of s (λ _. g1) ps 1)
unfolding lookup_local_node_by_handle lookup_local_endpoint_by_handle
samples-TellsAll s g g1 ps same all h k m e b p found listed has =
    let own = ptr_eq_refl m.dds_participant in
    let found1 : find_key node_key h g1.nodes ≡ some m = rw same found in
    let there =
      all m.dds_participant ∙ participant-gathered m.dds_participant h g1.nodes own found1 in
    (
      sample_of s g1 m.dds_participant,
      info_of s m,
      samples_of-listed s g1 ps 1 m.dds_participant there,
      refl,
      infos-listed s m.dds_participant h g1.nodes own found1,
      refl,
      refl,
      entry_gids s b m.endpoints _ (gids-listed s b k m.endpoints p listed has),
    )

pub cleared-IsPublishable :
    (g : Graph) (n : ℕ) → IsPublishable g → IsPublishable (record g { sem_pinfo = n })
cleared-IsPublishable g n v = record {
  valid = record {
    unique = v.valid.unique;
    valid = v.valid.valid;
    counted = v.valid.counted;
    counter = v.valid.counter;
    each = v.valid.each;
  };
  bound = v.bound;
  plain = v.plain;
}

-- A round in which an update is signalled tells every entity of the graph.
pub update_round-TellsAll :
    (r : Round) (g : Graph) (pinfo : ParticipantInfo) (k : ℕ)
    → IsQuiet r
    → IsPublishable g
    → g.sem_pinfo ≡ suc k
    → (g' : Graph) × (pinfo' : ParticipantInfo) × (sent : List ParticipantInfo) × (update_round r g
          pinfo
        ≡ some (g', pinfo', sent))
      × (g'.sem_pinfo ≡ 0)
      × TellsAll r.entities g sent
unfolding update_round
update_round-TellsAll r g pinfo k q v signalled =
    let g1 : Graph = record g { sem_pinfo = 0 } in
    let round = thread_round_signalled r.dds r.polling g k signalled in
    let still : (λ i. r.publishing i g1) ≡ (λ _. g1) = fun_ext λ i. q.still i g1 in
    let (u, ps, done, rc, sent, distinct, all) =
      publish_update_lem r.entities (λ _. g1) r.write g1.participants pinfo q.grow q.room
        (λ _. cleared-IsPublishable g 0 v) q.written in
    (
      record g1 { participants = u.participants },
      u.pinfo,
      u.sent,
      rw (round, still, done),
      refl,
      subst (TellsAll r.entities g) (sym sent) (samples-TellsAll r.entities g g1 ps refl all),
    )
