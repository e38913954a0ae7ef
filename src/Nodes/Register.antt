-- ===== src/Nodes/Register.antt =====
-- The outcome of RTIROS2_Graph_register_local_node: all or nothing.
use rticonnextdds_ros2_adapt.Common.{
  ℕ, ◌+◌, ℤ, eq_ℤ, eq_ℤ_iff, CString, Bool-cases, ◌||◌, is_some, Option, some, List, inl, inr, ◌⊎◌,
  ◌≡◌, refl, ◌∙◌, arith, is_ok,
}
use rticonnextdds_ros2_adapt.Types.{Ptr, invalid_handle, Node, def_node, Graph, Dds}
use rticonnextdds_ros2_adapt.InlineList.{Fresh, remove-append-Fresh, find_key-append}
use rticonnextdds_ros2_adapt.Handles.Fresh.{IsHandle}
use rticonnextdds_ros2_adapt.Lookup.{
  node_key, lookup_local_node_by_handle, lookup_local_node_by_name,
}
use rticonnextdds_ros2_adapt.Endpoints.{set_node, queue_update}
use rticonnextdds_ros2_adapt.Inspect.{inspect_local_node_ea}
use rticonnextdds_ros2_adapt.Nodes.{
  next_node_handle, finalize_node, add_node, or_default, namespace_or_default, undo,
  is_polling_enabled, poll_node, fill_node, register_checked, bad_name, bad_namespace,
  register_local_node,
}
use rticonnextdds_ros2_adapt.Nodes.Own.{
  others, others-set_node, lookup-set_node, IsNamed, inspect-others, inspect-IsNamed,
  inspect-sem_pinfo,
}
use rticonnextdds_ros2_adapt.Invariant.{GraphOk}
use rticonnextdds_ros2_adapt.Invariant.OfNodes.{next_node_handle-Fresh}

-- Nothing is left of a registration that fails; one that succeeds has added one node under the
-- handle `h`, and one update.
abbrev pub Outcome : List Node → ℕ → ℤ → CString → CString → Ptr → Graph × ℤ → Type 0
Outcome nodes updates h name ns p q =
    ((q.1 ≡ invalid_handle) × (q.0.nodes ≡ nodes))
    ⊎ ((q.1 ≡ h) × (others h q.0 ≡ nodes) × IsNamed h name ns p q.0 × (q.0.sem_pinfo ≡ updates + 1))

undo-nodes : (g : Graph) (n : Node) → (undo g n).0.nodes ≡ others n.handle g
unfolding finalize_node
undo-nodes g n = refl

poll_node-Outcome :
    (d : Dds) (g : Graph) (n : Node) (nodes : List Node) (s : ℕ) (name ns : CString) (p : Ptr)
    → others n.handle g ≡ nodes
    → IsNamed n.handle name ns p g
    → g.sem_pinfo ≡ s + 1
    → Outcome nodes s n.handle name ns p (poll_node d g n)
unfolding poll_node
poll_node-Outcome d g n nodes s name ns p o named sem =
    let (g', rc) = inspect_local_node_ea d g n in
    let o' : others n.handle g' ≡ nodes = inspect-others d g n ∙ o in
    elim (Bool-cases (is_polling_enabled d g)) [
      | inr still ↦ rw still (inr (refl, o, named, sem))
      | inl polling ↦ elim (Bool-cases (is_ok rc)) [
        | inl done ↦
            rw (polling, done)
              (inr (refl, o', inspect-IsNamed name ns p d g n named, inspect-sem_pinfo d g n ∙ sem))
        | inr failed ↦ rw (polling, failed) (inl (refl, undo-nodes g' n ∙ o'))
      ]
    ]

fill_node-Outcome :
    (d : Dds) (g : Graph) (n : Node) (nodes : List Node) (name : CString) (ns : Option CString)
    → others n.handle g ≡ nodes
    → lookup_local_node_by_handle g n.handle ≡ some n
    → Outcome nodes g.sem_pinfo n.handle name
        (namespace_or_default ns)
        n.dds_participant
        (fill_node d g n name ns)
unfolding fill_node queue_update set_node lookup_local_node_by_handle
fill_node-Outcome d g n nodes name ns o there =
    let n1 : Node = record n { node_name = name } in
    let n2 : Node = record n1 { node_namespace = namespace_or_default ns } in
    let g1 = set_node g n1 in
    let o1 : others n.handle g1 ≡ nodes = others-set_node n.handle g n1 refl ∙ o in
    let there1 = lookup-set_node n.handle g n n1 there refl in
    let o2 : others n.handle (set_node g1 n2) ≡ nodes = others-set_node n.handle g1 n2 refl ∙ o1 in
    let there2 = lookup-set_node n.handle g1 n1 n2 there1 refl in
    elim (Bool-cases (d.string_dup g name)) [
      | inr no_name ↦ rw no_name (inl (refl, undo-nodes g n ∙ o))
      | inl name_copied ↦ elim (Bool-cases (d.string_dup g1 (namespace_or_default ns))) [
        | inr no_namespace ↦ rw (name_copied, no_namespace) (inl (refl, undo-nodes g1 n1 ∙ o1))
        | inl copied ↦
            rw (name_copied, copied)
              (poll_node-Outcome d (queue_update (set_node g1 n2)) n2 nodes g.sem_pinfo name
                (namespace_or_default ns) n.dds_participant o2 (n2, there2, refl, refl, refl) refl)
      ]
    ]

-- Under the handle that is returned, a valid one that no node had, there is now a node with the
-- names and the participant; the other nodes are those of before, and an update is signalled.
pub record Registered (g : Graph) (name ns : CString) (p : Ptr) (q : Graph × ℤ) : Type 0 where
  pub valid : IsHandle q.1
  pub fresh : Fresh node_key q.1 g.nodes
  pub rest : others q.1 q.0 ≡ g.nodes
  pub named : IsNamed q.1 name ns p q.0
  pub update : q.0.sem_pinfo ≡ g.sem_pinfo + 1

abbrev pub AllOrNothing : Graph → CString → CString → Ptr → Graph × ℤ → Type 0
AllOrNothing g name ns p q =
    ((q.1 ≡ invalid_handle) × (q.0.nodes ≡ g.nodes)) ⊎ Registered g name ns p q

AllOrNothing-of_Outcome :
    (g : Graph) (h : ℤ) (name ns : CString) (p : Ptr) (q : Graph × ℤ)
    → IsHandle h
    → Fresh node_key h g.nodes
    → Outcome g.nodes g.sem_pinfo h name ns p q
    → AllOrNothing g name ns p q
AllOrNothing-of_Outcome g h name ns p q valid fresh (inl failed) = inl failed
AllOrNothing-of_Outcome g h name ns p (g', k) valid fresh (inr (e, o, named, sem)) = inr (record {
  valid = rw e valid;
  fresh = rw e fresh;
  rest = rw e o;
  named = rw e named;
  update = sem;
})

register_checked-AllOrNothing :
    (d : Dds) (g : Graph) (name : CString) (ns : Option CString) (p : Ptr)
    → GraphOk g
    → AllOrNothing g name
        (namespace_or_default ns)
        (or_default p g.graph_participant)
        (register_checked d g name ns p)
unfolding register_checked next_node_handle add_node lookup_local_node_by_handle
register_checked-AllOrNothing d g name ns p v =
    let (handle, g1) = next_node_handle g in
    let n : Node = record def_node {
      dds_participant = or_default p g.graph_participant;
      handle = handle;
    } in
    elim (Bool-cases (is_some (lookup_local_node_by_name g name ns))) [
      | inl taken ↦ rw taken (inl (refl, refl))
      | inr free ↦ elim (Bool-cases (eq_ℤ handle invalid_handle)) [
        | inl none_left ↦ rw (free, none_left) (inl (refl, refl))
        | inr found ↦ elim (Bool-cases (d.node_buffer g1)) [
          | inr no_buffer ↦ rw (free, found, no_buffer) (inl (refl, refl))
          | inl buffer ↦ elim (next_node_handle-Fresh g v) [
            | inl e ↦ absurd (ground (arith, eq_ℤ_iff handle invalid_handle))
            | inr (fresh, valid) ↦
                rw (free, found, buffer)
                  (AllOrNothing-of_Outcome g handle _ _ _ (fill_node d (add_node g1 n) n name ns)
                    valid fresh
                    (fill_node-Outcome d (add_node g1 n) n g.nodes name ns
                      (remove-append-Fresh node_key handle g.nodes n fresh refl)
                      (rw (
                        find_key-append node_key handle g.nodes n fresh,
                        (eq_ℤ_iff handle handle).1 refl,
                      ))))
          ]
        ]
      ]
    ]

-- Registering a node in a well-formed graph is all or nothing: either it answers INVALID and the
-- list of nodes is as before, on every error path, also when the inspection of the new node fails
-- halfway; or it answers a valid handle that no node had, under which there is a node with the
-- given name, the given namespace or "/", and the given participant or the graph's, the other nodes
-- are as before, and one update is signalled.
pub register_local_node-AllOrNothing :
    (d : Dds) (g : Graph) (name : CString) (ns : Option CString) (p : Ptr)
    → GraphOk g
    → AllOrNothing g name
        (namespace_or_default ns)
        (or_default p g.graph_participant)
        (register_local_node d g (some name) ns p)
unfolding register_local_node
register_local_node-AllOrNothing d g name ns p v =
    elim (Bool-cases (bad_name (some name) || bad_namespace ns)) [
      | inl bad ↦ rw bad (inl (refl, refl))
      | inr good ↦ rw good (register_checked-AllOrNothing d g name ns p v)
    ]
