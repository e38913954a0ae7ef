-- ===== src/Spec/Inspection.antt =====
-- Inspecting a node does what the specification allows: it only adds to the node.
use rticonnextdds_ros2_adapt.Common.{
  ℤ, CString, ℕ, Bool, Bool-cases, true, false, Option-cases, none, some, inl, inr, ◌⊎◌, ◌≡◌, refl,
  sym, subst, ok, error, is_ok,
}
use rticonnextdds_ros2_adapt.Types.{Ptr, invalid_handle, EndpointType, Endpoint, Node, Graph, Dds}
use rticonnextdds_ros2_adapt.InlineList.{find-Unique}
use rticonnextdds_ros2_adapt.Lookup.{
  endp_key, topic_matches, lookup_local_node_by_handle, lookup_local_endpoint_by_topic_name,
}
use rticonnextdds_ros2_adapt.Lookup.Listed.{by_handle-handle}
use rticonnextdds_ros2_adapt.Endpoints.{
  new_endpoint, register_local_endpoint, set_node, set_endpoint, queue_update,
}
use rticonnextdds_ros2_adapt.Endpoints.Register.{Appended, register_local_endpoint_outcome}
use rticonnextdds_ros2_adapt.Inspect.{
  side, with_side, inspect_parents, inspect_subscribers, inspect_local_node_ea,
}
use rticonnextdds_ros2_adapt.Inspect.Rule.{inspect-keeps}
use rticonnextdds_ros2_adapt.Nodes.{inspect_local_node}
use rticonnextdds_ros2_adapt.Nodes.Own.{others, inspect-others, lookup-set_node}
use rticonnextdds_ros2_adapt.Invariant.{GraphOk}
use rticonnextdds_ros2_adapt.Invariant.OfEndpoints.{found-NodeOk, register_local_endpoint-GraphOk}
use rticonnextdds_ros2_adapt.Invariant.OfInspection.{attach-GraphOk}
use rticonnextdds_ros2_adapt.Spec.{
  AbsNode, abs_node, abs, Extends, inspect, Allowed, no_node_to_inspect, inspected,
}
use rticonnextdds_ros2_adapt.Spec.Changes.{abs-lookup, abs-missing, abs_node-SameNode, abs-changed}
use rticonnextdds_ros2_adapt.Spec.Extension.{
  Extends-refl, Extends-trans, Appended-Extends, with_side-EntryExtends, with_side-handle,
  attached-Extends,
}

-- The graph is well-formed, and the node under a handle extends a given one.
abbrev pub Grown : ℤ → AbsNode → Graph → Type 0
Grown h n g =
    GraphOk g × (m : Node) × (lookup_local_node_by_handle g h ≡ some m) × Extends n (abs_node m)

pub register-Grown :
    (h : ℤ) (n : AbsNode) (d : Dds) (g : Graph) (t : EndpointType) (r w : Ptr)
    → Grown h n g
    → Grown h n (register_local_endpoint d g h t r w).0
register-Grown h n d g t r w (v, m, found, more) =
    let v' = register_local_endpoint-GraphOk d g h t r w v in
    elim (register_local_endpoint_outcome d g h t r w v) [
      | inl (_, _, kept) ↦
          let (m', found', alike) = kept m found in
          (v', m', found', subst (Extends n) (sym (abs_node-SameNode m m' alike)) more)
      | inr (k, m0, m', _, found0, found', a, _, _, _, _) ↦
          let same : m0 ≡ m = cc in
          let a' : Appended m m' (new_endpoint k t r w) =
            subst (λ x. Appended x m' (new_endpoint k t r w)) same a in
          (
            v',
            m',
            found',
            Extends-trans n (abs_node m) (abs_node m') more (Appended-Extends m m' _ a'),
          )
    ]

pub attach-Grown :
    (h : ℤ) (n : AbsNode) (d : Dds) (g : Graph) (m : Node) (topic : CString) (writer : Bool) (p : ℕ)
    (e : Endpoint)
    → lookup_local_node_by_handle g h ≡ some m
    → lookup_local_endpoint_by_topic_name d m topic false ≡ some e
    → side writer e ≡ none
    → Grown h n g
    → Grown h n (set_node g (set_endpoint m (with_side writer p e)))
unfolding lookup_local_endpoint_by_topic_name set_endpoint
attach-Grown h n d g m topic writer p e found old free (v, m0, found0, more) =
    let same : m0 ≡ m = cc in
    let more' : Extends n (abs_node m) = subst (λ x. Extends n (abs_node x)) same more in
    let (ok', _, _) = found-NodeOk g h v found in
    let m' = set_endpoint m (with_side writer p e) in
    let listed = find-Unique endp_key (topic_matches d topic false) m.endpoints ok'.unique old in
    (
      attach-GraphOk d g h m topic writer p e found old free v,
      m',
      lookup-set_node h g m m' found refl,
      Extends-trans n (abs_node m) (abs_node m') more' (
          attached-Extends m e (with_side writer p e) listed (with_side-handle writer p e)
            (with_side-EntryExtends writer p e free)),
    )

-- Inspection of a node leaves a node under its handle that extends it.
inspect-Extends :
    (d : Dds) (g : Graph) (n : Node)
    → GraphOk g
    → lookup_local_node_by_handle g n.handle ≡ some n
    → Grown n.handle (abs_node n) (inspect_local_node_ea d g n).0
inspect-Extends d g n v found =
    inspect-keeps (Grown n.handle (abs_node n)) d n
      (λ g' t r w. register-Grown n.handle (abs_node n) d g' t r w)
      (λ g' m topic writer p e. attach-Grown n.handle (abs_node n) d g' m topic writer p e) g
      (v, n, found, Extends-refl (abs_node n))

inspect-ok_or_error :
    (d : Dds) (g : Graph) (n : Node)
    → let rc = (inspect_local_node_ea d g n).1 in (rc ≡ ok) ⊎ (rc ≡ error)
unfolding inspect_local_node_ea inspect_subscribers
inspect-ok_or_error d g n = elim (Option-cases (d.get_publishers n.dds_participant)) [
  | inl refused ↦ rw (refused, inspect_local_node_ea) (inr refl)
  | inr (pubs, e) ↦
      let s = inspect_parents d true n.handle pubs g invalid_handle in
      elim (Bool-cases s.2) [
        | inl failed ↦ rw (e, inspect_local_node_ea, failed) (inr refl)
        | inr going ↦ elim (Option-cases (d.get_subscribers n.dds_participant)) [
          | inl refused ↦
              rw (e, inspect_local_node_ea, going, refused, inspect_subscribers) (inr refl)
          | inr (subs, f) ↦ elim (Bool-cases (inspect_parents d false n.handle subs s.0 s.1).2) [
            | inl failed ↦
                rw (e, inspect_local_node_ea, going, f, inspect_subscribers, failed) (inr refl)
            | inr through ↦
                rw (e, inspect_local_node_ea, going, f, inspect_subscribers, through) (inl refl)
          ]
        ]
      ]
]

pub inspect_local_node-Allowed :
    (d : Dds) (g : Graph) (h : ℤ)
    → GraphOk g
    → let q = inspect_local_node d g h in
      Allowed d g.graph_participant (abs g) (inspect h) (inr q.1) (abs q.0)
unfolding inspect_local_node queue_update
inspect_local_node-Allowed d g h v = elim (Option-cases (lookup_local_node_by_handle g h)) [
  | inl missing ↦ rw (missing, inspect_local_node) (no_node_to_inspect (abs-missing g h missing))
  | inr (n, found) ↦
      let own = by_handle-handle g h found in
      let (v', m, found', more) =
        inspect-Extends d g n v
          (subst (λ j. lookup_local_node_by_handle g j ≡ some n) (sym own) found) in
      let g' = (inspect_local_node_ea d g n).0 in
      let there : lookup_local_node_by_handle g' h ≡ some m =
        subst (λ j. lookup_local_node_by_handle g' j ≡ some m) own found' in
      let same = subst (λ j. others j g' ≡ others j g) own (inspect-others d g n) in
      let now = abs-changed g g' h m v v' same there in
      let answer = inspect-ok_or_error d g n in
      elim (Bool-cases (is_ok (inspect_local_node_ea d g n).1)) [
        | inl good ↦
            rw (found, inspect_local_node, good)
              (inspected (abs_node n) (abs_node m) answer (abs-lookup g h found) more now)
        | inr bad ↦
            rw (found, inspect_local_node, bad)
              (inspected (abs_node n) (abs_node m) answer (abs-lookup g h found) more now)
      ]
]
