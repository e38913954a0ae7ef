-- ===== src/Update/Polling.antt =====
-- When the update thread publishes.
use rticonnextdds_ros2_adapt.Common.{
  ℕ, zero, suc, ℤ, true, false, Option-cases, List, [], ◌∷◌, map, inl, inr, ◌≡◌, refl, ◌∙◌,
}
use rticonnextdds_ros2_adapt.Types.{Graph, Dds}
use rticonnextdds_ros2_adapt.Lookup.{node_key, lookup_local_node_by_handle}
use rticonnextdds_ros2_adapt.Inspect.{inspect_local_node_ea}
use rticonnextdds_ros2_adapt.Nodes.{is_polling_enabled}
use rticonnextdds_ros2_adapt.Nodes.Own.{inspect-sem_pinfo}
use rticonnextdds_ros2_adapt.Invariant.{GraphOk}
use rticonnextdds_ros2_adapt.Invariant.OfInspection.{inspect_local_node_ea-GraphOk}
use rticonnextdds_ros2_adapt.Update.{poll_nodes, take_now, consume, end_round, thread_round}

poll_nodes-sem_pinfo :
    (d : Dds) (hs : List ℤ) (g : Graph) → (poll_nodes d hs g).sem_pinfo ≡ g.sem_pinfo
unfolding poll_nodes
poll_nodes-sem_pinfo d [] g = refl
poll_nodes-sem_pinfo d (h ∷ hs) g = elim (Option-cases (lookup_local_node_by_handle g h)) [
  | inl missing ↦ rw (missing, poll_nodes) (poll_nodes-sem_pinfo d hs g)
  | inr (n, found) ↦
      rw (found, poll_nodes)
        (poll_nodes-sem_pinfo d hs (inspect_local_node_ea d g n).0 ∙ inspect-sem_pinfo d g n)
]

-- Polling the nodes keeps a well-formed graph well-formed, also where inspections fail.
pub poll_nodes-GraphOk :
    (d : Dds) (hs : List ℤ) (g : Graph) → GraphOk g → GraphOk (poll_nodes d hs g)
unfolding poll_nodes
poll_nodes-GraphOk d [] g v = v
poll_nodes-GraphOk d (h ∷ hs) g v = elim (Option-cases (lookup_local_node_by_handle g h)) [
  | inl missing ↦ rw (missing, poll_nodes) (poll_nodes-GraphOk d hs g v)
  | inr (n, found) ↦
      rw (found, poll_nodes)
        (poll_nodes-GraphOk d hs (inspect_local_node_ea d g n).0
          (inspect_local_node_ea-GraphOk d g n v))
]

consume-zero : (n : ℕ) → consume n ≡ 0
unfolding consume
consume-zero zero = refl
consume-zero (suc n) = consume-zero n

-- Where an update is signalled, however often, the round publishes once: it consumes the semaphore
-- and leaves the rest of the graph.
pub thread_round_signalled :
    (d : Dds) (other : Graph → Graph) (g : Graph) (n : ℕ)
    → g.sem_pinfo ≡ suc n
    → thread_round d other g ≡ (record g { sem_pinfo = 0 }, true)
unfolding thread_round end_round
thread_round_signalled d other g n h = rw (h, thread_round, consume-zero n)

-- Where no update is signalled and polling is enabled, a round polls the nodes and, unless another
-- thread signals an update behind it, publishes nothing, whatever endpoints the polling has found.
pub thread_round_polled :
    (d : Dds) (other : Graph → Graph) (g : Graph)
    → g.sem_pinfo ≡ 0
    → is_polling_enabled d g ≡ true
    → ((g' : Graph) → (other g').sem_pinfo ≡ g'.sem_pinfo)
    → (thread_round d other g).1 ≡ false
unfolding thread_round end_round take_now
thread_round_polled d other g h enabled quiet =
    let g1 = poll_nodes d (map node_key g.nodes) g in
    let silent : (other g1).sem_pinfo ≡ 0 =
      quiet g1 ∙ poll_nodes-sem_pinfo d (map node_key g.nodes) g ∙ h in
    rw (h, thread_round, enabled, silent)
