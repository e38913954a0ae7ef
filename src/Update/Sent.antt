-- ===== src/Update/Sent.antt =====
-- What RTIROS2_Graph_publish_update writes.
use rticonnextdds_ros2_adapt.Common.{
  ℕ, ◌+◌, ◌≤◌, int_max, ◌≡◌, refl, length, All, Bool, true, some, List, [], ◌∷◌, ok,
}
use rticonnextdds_ros2_adapt.Types.{Ptr, Graph}
use rticonnextdds_ros2_adapt.Invariant.{GraphOk}
use rticonnextdds_ros2_adapt.Publish.{ParticipantInfo, Entities, ih_to_gid, contains}
use rticonnextdds_ros2_adapt.Publish.Convert.{IsPlain, HasRoom, infos, convert_to_sample_lem}
use rticonnextdds_ros2_adapt.Publish.Gather.{
  CanGrow, Distinct, participants_of, gather_domain_participants_lem,
}
use rticonnextdds_ros2_adapt.Update.{Published, publish_each, publish_update}

-- The sample of a participant in a graph.
abbrev pub sample_of : Entities → Graph → Ptr → ParticipantInfo
sample_of s g p = record {
  gid = ih_to_gid (s.participant_ih p);
  node_entities_info_seq = infos s p g.nodes;
}

-- The samples of participants, each in the graph of its own turn.
unfoldable pub samples_of : Entities → (ℕ → Graph) → List Ptr → ℕ → List ParticipantInfo
samples_of s graphs [] i = []
samples_of s graphs (p ∷ ps) i = sample_of s (graphs i) p ∷ samples_of s graphs ps (i + 1)

-- A graph of which every sample is complete.
pub record IsPublishable (g : Graph) : Type 0 where
  pub valid : GraphOk g
  pub bound : length g.nodes ≤ int_max
  pub plain : All IsPlain g.nodes

publish_each_lem :
    (s : Entities) (graphs : ℕ → Graph) (write : ParticipantInfo → Bool) (ps : List Ptr) (i : ℕ)
    (pinfo : ParticipantInfo)
    → HasRoom s
    → ((j : ℕ) → IsPublishable (graphs j))
    → ((x : ParticipantInfo) → write x ≡ true)
    → (pinfo' : ParticipantInfo) × (publish_each s graphs write ps i pinfo
        ≡ some (ok, pinfo', samples_of s graphs ps i))
unfolding publish_each samples_of
publish_each_lem s graphs write [] i pinfo room v w = (pinfo, refl)
publish_each_lem s graphs write (p ∷ ps) i pinfo room v w =
    let g = v i in
    let x = sample_of s (graphs i) p in
    let (pinfo', e) = publish_each_lem s graphs write ps (i + 1) x room v w in
    (pinfo', rw (convert_to_sample_lem s (graphs i) p pinfo room g.valid g.bound g.plain, w x, e))

-- With enough memory and a writer that takes every sample, while other threads change the graph
-- between the steps, as long as every graph on the way is well-formed, has at most 2^31 - 1 nodes, and
-- its nodes have right counters and at most 2^31 - 1 endpoints that have a reader or a writer and not
-- both: an update succeeds. It writes one sample for each participant that a node had in the first
-- graph, each participant once, and each sample tells the nodes of the participant in the graph of
-- its own turn.
pub publish_update_lem :
    (s : Entities) (graphs : ℕ → Graph) (write : ParticipantInfo → Bool) (seq : List Ptr)
    (pinfo : ParticipantInfo)
    → CanGrow s
    → HasRoom s
    → ((j : ℕ) → IsPublishable (graphs j))
    → ((x : ParticipantInfo) → write x ≡ true)
    → (u : Published) × (ps : List Ptr) × (publish_update s graphs write seq pinfo ≡ some u)
      × (u.rc ≡ ok)
      × (u.sent ≡ samples_of s graphs ps 1)
      × Distinct ps
      × ((p : Ptr) → contains p ps ≡ contains p (participants_of (graphs 0).nodes))
unfolding publish_update
publish_update_lem s graphs write seq pinfo grow room v w =
    let (ps, e, d, t) = gather_domain_participants_lem s (graphs 0) seq grow (v 0).bound in
    let (pinfo', f) = publish_each_lem s graphs write ps 1 pinfo room v w in
    (
      record { rc = ok; participants = ps; pinfo = pinfo'; sent = samples_of s graphs ps 1 },
      ps,
      rw (e, f),
      refl,
      refl,
      d,
      t,
    )
