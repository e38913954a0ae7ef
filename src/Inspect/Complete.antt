-- ===== src/Inspect/Complete.antt =====
-- An inspection that succeeds has found every DDS endpoint of the participant whose topic name has a
-- ROS 2 type.
use mathlib.Core.List.{Memᴰ}
use rticonnextdds_ros2_adapt.Common.{
  ℕ, ℤ, Bool, Bool-cases, true, false, Option, Option-cases, some, List, inl, inr, ◌≡◌, ReturnCode,
  ok,
}
use rticonnextdds_ros2_adapt.Types.{Ptr, invalid_handle, Node, Graph, Dds}
use rticonnextdds_ros2_adapt.Inspect.{
  get_all, inspect_parents, inspect_subscribers, inspect_local_node_ea,
}
use rticonnextdds_ros2_adapt.Inspect.Rule.{subscribers-keep}
use rticonnextdds_ros2_adapt.Inspect.Entities.{HasEntity, Has, register-Has, attach-Has}
use rticonnextdds_ros2_adapt.Invariant.{GraphOk}
use rticonnextdds_ros2_adapt.Inspect.Loops.{IsRos, parents-GraphOk, parents-Result}

abbrev get_parents : Dds → Bool → Ptr → Option (List ℕ)
get_parents d true p = d.get_publishers p
get_parents d false p = d.get_subscribers p

-- A writer, or a reader, that the DDS library lists under a participant.
abbrev pub IsListed : Dds → Ptr → Bool → ℕ → Type 0
IsListed d owner writer p =
    (qs : List ℕ) × (q : ℕ) × (ps : List ℕ) × (get_parents d writer owner ≡ some qs)
    × Memᴰ q qs
    × (get_all d writer q ≡ some ps)
    × Memᴰ p ps

abbrev Complete : Node → Bool → ℕ → Graph × ReturnCode → Type 0
Complete n writer p q = q.1 ≡ ok → Has n.handle writer p q.0

-- The half for the subscribers keeps what was found, and finds the readers.
subscribers-Has :
    (d : Dds) (g : Graph) (n : Node) (k : ℤ) (p : ℕ)
    → Has n.handle true p g
    → Has n.handle true p (inspect_subscribers d g n k).0
subscribers-Has d g n k p v =
    subscribers-keep (Has n.handle true p) d n (λ g t r w. register-Has n.handle true p d g t r w)
      (λ g m topic writer' p' e. attach-Has n.handle true p d g m topic writer' p' e) g k v

subscribers-Complete :
    (d : Dds) (g : Graph) (n : Node) (k : ℤ) (p : ℕ)
    → GraphOk g
    → IsListed d n.dds_participant false p
    → IsRos d false p
    → Complete n false p (inspect_subscribers d g n k)
unfolding inspect_subscribers
subscribers-Complete d g n k p v (qs, q, ps, parents, parent, all, there) ros =
    elim (Bool-cases (inspect_parents d false n.handle qs g k).2) [
      | inl failed ↦ rw (parents, inspect_subscribers, failed) (λ fine. absurd (cc fine))
      | inr through ↦
          rw (parents, inspect_subscribers, through)
            (λ _. parents-Result d n.handle false p qs g k q ps v ros parent all there through)
    ]

inspect-Complete :
    (d : Dds) (g : Graph) (n : Node) (writer : Bool) (p : ℕ)
    → GraphOk g
    → IsListed d n.dds_participant writer p
    → IsRos d writer p
    → Complete n writer p (inspect_local_node_ea d g n)
unfolding inspect_local_node_ea
inspect-Complete d g n true p v (qs, q, ps, parents, parent, all, there) ros =
    let s = inspect_parents d true n.handle qs g invalid_handle in
    elim (Bool-cases s.2) [
      | inl failed ↦ rw (parents, inspect_local_node_ea, failed) (λ fine. absurd (cc fine))
      | inr through ↦
          let now =
            parents-Result d n.handle true p qs g invalid_handle q ps v ros parent all there
              through in
          rw (parents, inspect_local_node_ea, through) (λ _. subscribers-Has d s.0 n s.1 p now)
    ]
inspect-Complete d g n false p v listed ros =
    elim (Option-cases (d.get_publishers n.dds_participant)) [
      | inl refused ↦ rw (refused, inspect_local_node_ea) (λ fine. absurd (cc fine))
      | inr (pubs, e) ↦
          let s = inspect_parents d true n.handle pubs g invalid_handle in
          elim (Bool-cases s.2) [
            | inl failed ↦ rw (e, inspect_local_node_ea, failed) (λ fine. absurd (cc fine))
            | inr through ↦
                rw (e, inspect_local_node_ea, through)
                  (subscribers-Complete d s.0 n s.1 p
                    (parents-GraphOk d n.handle true pubs g invalid_handle v) listed ros)
          ]
    ]

-- Where the inspection of a node in a well-formed graph answers OK, every DataWriter and every
-- DataReader that the DDS library lists under the node's participant and whose topic name has a
-- ROS 2 type is that of some endpoint of the node, also where other nodes with the same participant have
-- been inspected before.
pub inspect_local_node_ea_complete :
    (d : Dds) (g : Graph) (n : Node) (writer : Bool) (p : ℕ)
    → GraphOk g
    → IsListed d n.dds_participant writer p
    → IsRos d writer p
    → (inspect_local_node_ea d g n).1 ≡ ok
    → HasEntity n.handle writer p (inspect_local_node_ea d g n).0
inspect_local_node_ea_complete d g n writer p v listed ros fine =
    (inspect-Complete d g n writer p v listed ros fine).has
