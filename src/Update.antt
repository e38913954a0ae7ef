-- ===== src/Update.antt =====
-- The update thread of a graph: RTIROS2_Graph_publish_update and one round, while it is active, of
-- RTIROS2_Graph_update_thread (src/adapter_c/graph_impl.c), with the sample adapter of the C
-- library. The mutex is given back between the steps, so other threads may change the graph there.
pub mod Sent
pub mod Polling
pub mod Told
pub mod OneRound
pub mod Counted
pub mod Sessions
use rticonnextdds_ros2_adapt.Common.{
  ℕ, zero, suc, ◌+◌, ℤ, Bool, true, false, not, if◌then◌else◌, ◌>>=◌, Option, none, some, List, [],
  ◌∷◌, map, ReturnCode, ok, error, is_ok,
}
use rticonnextdds_ros2_adapt.Types.{Ptr, Node, Graph, Dds}
use rticonnextdds_ros2_adapt.Lookup.{node_key, lookup_local_node_by_handle}
use rticonnextdds_ros2_adapt.Inspect.{inspect_local_node_ea}
use rticonnextdds_ros2_adapt.Nodes.{is_polling_enabled}
use rticonnextdds_ros2_adapt.Publish.{
  ParticipantInfo, Entities, convert_to_sample, gather_domain_participants,
}

-- The return code, the sequence of participants, the sample that the graph holds, and the samples
-- that were written.
pub record Published : Type 0 where
  pub rc : ReturnCode
  pub participants : List Ptr
  pub pinfo : ParticipantInfo
  pub sent : List ParticipantInfo

-- RTIROS2_CGraphSampleAdapter_publish_sample, where `write` says whether the writer takes the sample.
abbrev pub publish_sample : (ParticipantInfo → Bool) → ParticipantInfo → ReturnCode
publish_sample write sample = if not (write sample) then error else ok

-- The loop over the participants from index `i` on. `graphs i` is the graph as it is when the mutex is
-- taken for the i-th time, and `write` says whether a sample is written.
unfoldable pub publish_each :
    Entities
    → (ℕ → Graph)
    → (ParticipantInfo → Bool)
    → List Ptr
    → ℕ
    → ParticipantInfo
    → Option (ReturnCode × ParticipantInfo × List ParticipantInfo)
publish_each s graphs write [] i pinfo = some (ok, pinfo, [])
publish_each s graphs write (p ∷ ps) i pinfo =
    convert_to_sample s (graphs i) p pinfo >>= λ (rc, pinfo').
    let rest = publish_each s graphs write ps (i + 1) pinfo' in
    if not (is_ok rc)
    then some (error, pinfo', [])
    else if not (is_ok (publish_sample write pinfo'))
    then some (error, pinfo', [])
    else (rest >>= λ (rc', pinfo'', sent). some (rc', pinfo'', pinfo' ∷ sent))

unfoldable pub publish_update :
    Entities
    → (ℕ → Graph)
    → (ParticipantInfo → Bool)
    → List Ptr
    → ParticipantInfo
    → Option Published
publish_update s graphs write participants pinfo =
    gather_domain_participants s (graphs 0) participants >>= λ (rc, ps).
    let loop = publish_each s graphs write ps 1 pinfo in
    if not (is_ok rc)
    then some (record { rc = error; participants = ps; pinfo = pinfo; sent = [] })
    else (loop >>= λ (rc', pinfo', sent).
        some (record { rc = rc'; participants = ps; pinfo = pinfo'; sent = sent }))

-- The loop that inspects the nodes; an inspection that fails is passed over.
unfoldable pub poll_nodes : Dds → List ℤ → Graph → Graph
poll_nodes d [] g = g
poll_nodes d (h ∷ hs) g = elim (lookup_local_node_by_handle g h) [
  | none ↦ poll_nodes d hs g
  | some n ↦ poll_nodes d hs (inspect_local_node_ea d g n).0
]

-- A take that does not wait: whether it succeeds, and the value of the semaphore.
unfoldable pub take_now : ℕ → Bool × ℕ
take_now zero = (false, zero)
take_now (suc n) = (true, n)

-- The loop that consumes the semaphore.
unfoldable pub consume : ℕ → ℕ
consume zero = zero
consume (suc n) = consume n

-- The end of a round: the graph, and whether the thread goes on to publish an update.
unfoldable pub end_round : Graph → Bool → Graph × Bool
end_round g taken =
    if taken then (record g { sem_pinfo = consume g.sem_pinfo }, true) else (g, false)

-- One round. The first take succeeds at once, or times out where polling is enabled, or waits on,
-- which leaves the graph. `other` is what other threads do between the polling and the second take.
unfoldable pub thread_round : Dds → (Graph → Graph) → Graph → Graph × Bool
thread_round d other g = elim g.sem_pinfo [
  | suc n ↦ end_round (record g { sem_pinfo = n }) true
  | zero ↦
      if is_polling_enabled d g
      then (let g1 = other (poll_nodes d (map node_key g.nodes) g) in
          let (taken, n) = take_now g1.sem_pinfo in end_round (record g1 { sem_pinfo = n }) taken)
      else (g, false)
]

-- What the environment does in a round: the DDS library, what other threads do to the graph between
-- the polling and the second take and before each take of the mutex while the update is published,
-- and whether each sample is written.
pub record Round : Type 0 where
  pub dds : Dds
  pub entities : Entities
  pub polling : Graph → Graph
  pub publishing : ℕ → Graph → Graph
  pub write : ParticipantInfo → Bool

-- The whole round, with the update at its end: the graph and the sample that it holds, and the
-- samples that were written; an update that fails is passed over.
unfoldable pub update_round :
    Round → Graph → ParticipantInfo → Option (Graph × ParticipantInfo × List ParticipantInfo)
update_round r g pinfo =
    let (g1, active) = thread_round r.dds r.polling g in
    let u = publish_update r.entities (λ i. r.publishing i g1) r.write g1.participants pinfo in
    if active
    then (u >>= λ p. some (record g1 { participants = p.participants }, p.pinfo, p.sent))
    else some (g1, pinfo, [])
