-- ===== src/Invariant/OfNodes.antt =====
-- Registering, inspecting and unregistering nodes keeps the graph well-formed.
use rticonnextdds_ros2_adapt.Common.{
  ◌≡◌, ◌≢◌, refl, ℤ, eq_ℤ, eq_ℤ_iff, length-append, All-append, CString, [], ◌∷◌, Option,
  Option-cases, none, some, is_some, Bool-cases, ◌||◌, inl, inr, ◌⊎◌, arith, is_ok,
}
use rticonnextdds_ros2_adapt.Types.{Ptr, invalid_handle, Node, def_node, Graph, Dds}
use rticonnextdds_ros2_adapt.InlineList.{
  find_key, Fresh, Fresh-of_find, Unique-append, Unique-remove, length-remove, All-remove,
  find_key-append,
}
use rticonnextdds_ros2_adapt.Handles.Fresh.{IsHandle, next_handle_fresh, next_handle-IsInt32}
use rticonnextdds_ros2_adapt.Lookup.{
  node_key, lookup_local_node_by_handle, lookup_local_node_by_name,
}
use rticonnextdds_ros2_adapt.Endpoints.{set_node, queue_update}
use rticonnextdds_ros2_adapt.Inspect.{inspect_local_node_ea}
use rticonnextdds_ros2_adapt.Nodes.{
  next_node_handle, finalize_node, add_node, or_default, namespace_or_default, undo,
  is_polling_enabled, poll_node, fill_node, register_checked, bad_name, bad_namespace,
  register_local_node, inspect_local_node, unregister_local_node,
}
use rticonnextdds_ros2_adapt.Invariant.{NodeOk, GraphOk}
use rticonnextdds_ros2_adapt.Invariant.Listed.{Has, set_node-Has, queue_update-Has, inspect-Has}
use rticonnextdds_ros2_adapt.Invariant.OfEndpoints.{
  set_node-GraphOk, found-NodeOk, queue_update-GraphOk,
}
use rticonnextdds_ros2_adapt.Invariant.OfInspection.{inspect_local_node_ea-GraphOk}

-- The handle for a new node is INVALID, or valid and fresh in the graph.
pub next_node_handle-Fresh :
    (g : Graph)
    → GraphOk g
    → ((next_node_handle g).0 ≡ invalid_handle)
      ⊎ (Fresh node_key (next_node_handle g).0 g.nodes × IsHandle (next_node_handle g).0)
unfolding next_node_handle lookup_local_node_by_handle
next_node_handle-Fresh g v =
    elim (next_handle_fresh (λ c. is_some (find_key node_key c g.nodes)) g.node_handle_next
      v.counter) [
        | inl e ↦ inl e
        | inr (free, valid) ↦ inr (Fresh-of_find node_key _ g.nodes (ground arith), valid)
      ]

next_node_handle-GraphOk : (g : Graph) → GraphOk g → GraphOk (next_node_handle g).1
unfolding next_node_handle
next_node_handle-GraphOk g v = record {
  unique = v.unique;
  valid = v.valid;
  counted = v.counted;
  counter = next_handle-IsInt32 _ g.node_handle_next v.counter;
  each = v.each;
}

add_node-GraphOk :
    (g : Graph) (n : Node)
    → Fresh node_key n.handle g.nodes
    → IsHandle n.handle
    → NodeOk n
    → GraphOk g
    → GraphOk (add_node g n)
unfolding add_node
add_node-GraphOk g n f h ok' v = record {
  unique = Unique-append node_key g.nodes n v.unique f;
  valid = All-append (λ m. IsHandle m.handle) g.nodes (n ∷ []) v.valid (h, tt);
  counted = omega (arith, v.counted, length-append g.nodes (n ∷ []));
  counter = v.counter;
  each = All-append NodeOk g.nodes (n ∷ []) v.each (ok', tt);
}

pub finalize_node-GraphOk :
    (g : Graph) (n : Node)
    → lookup_local_node_by_handle g n.handle ≢ none
    → GraphOk g
    → GraphOk (finalize_node g n).0
unfolding finalize_node lookup_local_node_by_handle
finalize_node-GraphOk g n there v = elim (Option-cases (find_key node_key n.handle g.nodes)) [
  | inl missing ↦ absurd (there missing)
  | inr (m, found) ↦ record {
    unique = Unique-remove node_key n.handle g.nodes v.unique;
    valid = All-remove node_key (λ x. IsHandle x.handle) n.handle g.nodes v.valid;
    counted = omega (arith, v.counted, length-remove node_key n.handle g.nodes found);
    counter = v.counter;
    each = All-remove node_key NodeOk n.handle g.nodes v.each;
  }
]

undo-GraphOk : (g : Graph) (n : Node) → Has n.handle g → GraphOk g → GraphOk (undo g n).0
undo-GraphOk g n h v = finalize_node-GraphOk g n h v

poll_node-GraphOk :
    (d : Dds) (g : Graph) (n : Node) → Has n.handle g → GraphOk g → GraphOk (poll_node d g n).0
unfolding poll_node
poll_node-GraphOk d g n h v =
    let (g', rc) = inspect_local_node_ea d g n in
    let v' : GraphOk g' = inspect_local_node_ea-GraphOk d g n v in
    elim (Bool-cases (is_polling_enabled d g)) [
      | inr still ↦ rw still v
      | inl polling ↦ elim (Bool-cases (is_ok rc)) [
        | inl done ↦ rw (polling, done) v'
        | inr failed ↦ rw (polling, failed) (undo-GraphOk g' n (inspect-Has n.handle d g n h) v')
      ]
    ]

fill_node-GraphOk :
    (d : Dds) (g : Graph) (n : Node) (name : CString) (ns : Option CString)
    → NodeOk n
    → IsHandle n.handle
    → Has n.handle g
    → GraphOk g
    → GraphOk (fill_node d g n name ns).0
unfolding fill_node
fill_node-GraphOk d g n name ns ok' valid h v =
    let n1 : Node = record n { node_name = name } in
    let n2 : Node = record n1 { node_namespace = namespace_or_default ns } in
    let ok1 : NodeOk n1 = record {
      unique = ok'.unique;
      valid = ok'.valid;
      counted = ok'.counted;
      counter = ok'.counter;
    } in
    let ok2 : NodeOk n2 = record {
      unique = ok'.unique;
      valid = ok'.valid;
      counted = ok'.counted;
      counter = ok'.counter;
    } in
    let g1 = set_node g n1 in
    let v1 = set_node-GraphOk g n1 ok1 valid v in
    let h1 = set_node-Has n.handle g n1 h in
    elim (Bool-cases (d.string_dup g name)) [
      | inr no_name ↦ rw no_name (undo-GraphOk g n h v)
      | inl name_copied ↦ elim (Bool-cases (d.string_dup g1 (namespace_or_default ns))) [
        | inr no_namespace ↦ rw (name_copied, no_namespace) (undo-GraphOk g1 n1 h1 v1)
        | inl copied ↦
            rw (name_copied, copied)
              (poll_node-GraphOk d (queue_update (set_node g1 n2)) n2
                (queue_update-Has n.handle _ (set_node-Has n.handle g1 n2 h1))
                (queue_update-GraphOk _ (set_node-GraphOk g1 n2 ok2 valid v1)))
      ]
    ]

add_node-Has :
    (g : Graph) (n : Node) → Fresh node_key n.handle g.nodes → Has n.handle (add_node g n)
unfolding add_node lookup_local_node_by_handle
add_node-Has g n f =
    rw (find_key-append node_key n.handle g.nodes n f, (eq_ℤ_iff n.handle n.handle).1 refl)
      (λ e. cc)

-- The node that a registration puts into the list.
abbrev new_node : ℤ → Ptr → Node
new_node handle participant = record def_node { dds_participant = participant; handle = handle }

new_node-NodeOk : (h : ℤ) (p : Ptr) → NodeOk (new_node h p)
new_node-NodeOk h p = record { unique = tt; valid = tt; counted = refl; counter = omega arith }

register_checked-GraphOk :
    (d : Dds) (g : Graph) (name : CString) (ns : Option CString) (p : Ptr)
    → GraphOk g
    → GraphOk (register_checked d g name ns p).0
unfolding register_checked next_node_handle add_node
register_checked-GraphOk d g name ns p v =
    let (handle, g1) = next_node_handle g in
    let v1 : GraphOk g1 = next_node_handle-GraphOk g v in
    let n = new_node handle (or_default p g1.graph_participant) in
    elim (Bool-cases (is_some (lookup_local_node_by_name g name ns))) [
      | inl taken ↦ rw taken v
      | inr free ↦ elim (Bool-cases (eq_ℤ handle invalid_handle)) [
        | inl none_left ↦ rw (free, none_left) v1
        | inr found ↦ elim (Bool-cases (d.node_buffer g1)) [
          | inr no_buffer ↦ rw (free, found, no_buffer) v1
          | inl buffer ↦ elim (next_node_handle-Fresh g v) [
            | inl e ↦ absurd (ground (arith, eq_ℤ_iff handle invalid_handle))
            | inr (fresh, valid) ↦
                rw (free, found, buffer)
                  (fill_node-GraphOk d (add_node g1 n) n name ns (new_node-NodeOk handle _) valid
                    (add_node-Has g1 n fresh)
                    (add_node-GraphOk g1 n fresh valid (new_node-NodeOk handle _) v1))
          ]
        ]
      ]
    ]

-- Registering a node keeps the graph well-formed, on every error path too: with a bad or a taken
-- name, with no handle or no memory left, and when the inspection of the new node fails.
pub register_local_node-GraphOk :
    (d : Dds) (g : Graph) (name ns : Option CString) (p : Ptr)
    → GraphOk g
    → GraphOk (register_local_node d g name ns p).0
unfolding register_local_node
register_local_node-GraphOk d g none ns p v = v
register_local_node-GraphOk d g (some name) ns p v =
    elim (Bool-cases (bad_name (some name) || bad_namespace ns)) [
      | inl bad ↦ rw bad v
      | inr good ↦ rw good (register_checked-GraphOk d g name ns p v)
    ]

-- Inspecting a node on request keeps the graph well-formed.
pub inspect_local_node-GraphOk :
    (d : Dds) (g : Graph) (h : ℤ) → GraphOk g → GraphOk (inspect_local_node d g h).0
unfolding inspect_local_node
inspect_local_node-GraphOk d g h v = elim (Option-cases (lookup_local_node_by_handle g h)) [
  | inl missing ↦ rw (missing, inspect_local_node) v
  | inr (n, found) ↦
      let v' = inspect_local_node_ea-GraphOk d g n v in
      elim (Bool-cases (is_ok (inspect_local_node_ea d g n).1)) [
        | inl done ↦ rw (found, inspect_local_node, done) (queue_update-GraphOk _ v')
        | inr failed ↦ rw (found, inspect_local_node, failed) v'
      ]
]

-- Unregistering a node keeps the graph well-formed.
pub unregister_local_node-GraphOk :
    (g : Graph) (h : ℤ) → GraphOk g → GraphOk (unregister_local_node g h).0
unfolding unregister_local_node finalize_node
unregister_local_node-GraphOk g h v = elim (Option-cases (lookup_local_node_by_handle g h)) [
  | inl missing ↦ rw (missing, unregister_local_node) v
  | inr (n, found) ↦
      let (_, _, same) = found-NodeOk g h v found in
      rw (found, unregister_local_node) (finalize_node-GraphOk g n (rw same (λ e. cc)) v)
]
