-- ===== src/Inspect/Entities.antt =====
-- The readers and the writers that the endpoints of a node have: a step of the inspection loses none,
-- and a step that does not fail finds the one that it looks at.
use rticonnextdds_ros2_adapt.Common.{
  ℕ, ℤ, eq_ℤ_iff, CString, Bool, true, false, Option, Option-cases, none, some, ◌⊎◌, inl, inr, ◌≡◌,
  refl, sym, subst, ◌∙◌,
}
use rticonnextdds_ros2_adapt.Types.{Ptr, EndpointType, Endpoint, Node, Graph, Dds}
use rticonnextdds_ros2_adapt.InlineList.{find_key, find-Unique, find_key-append, find_key-replace}
use rticonnextdds_ros2_adapt.Lookup.{
  endp_key, topic_matches, lookup_local_node_by_handle, lookup_local_endpoint_by_topic_name,
}
use rticonnextdds_ros2_adapt.Lookup.Listed.{by_handle-handle}
use rticonnextdds_ros2_adapt.Endpoints.{
  new_endpoint, register_local_endpoint, set_node, set_endpoint,
}
use rticonnextdds_ros2_adapt.Endpoints.Register.{Refused, Accepted, register_local_endpoint_outcome}
use rticonnextdds_ros2_adapt.Inspect.{
  Progress, reader_arg, writer_arg, topic_of, side, with_side, registered, attach, check_handle,
  plain,
}
use rticonnextdds_ros2_adapt.Nodes.Own.{lookup-set_node}
use rticonnextdds_ros2_adapt.Invariant.{GraphOk}
use rticonnextdds_ros2_adapt.Invariant.OfEndpoints.{found-NodeOk, register_local_endpoint-GraphOk}
use rticonnextdds_ros2_adapt.Invariant.OfInspection.{attach-GraphOk}
use rticonnextdds_ros2_adapt.Spec.{abs_endpoint, abs_node, EntryExtends}
use rticonnextdds_ros2_adapt.Spec.Changes.{view-found}
use rticonnextdds_ros2_adapt.Spec.Extension.{Extends-refl, with_side-handle}
use rticonnextdds_ros2_adapt.Spec.Inspection.{Grown, register-Grown, attach-Grown}

-- The node under a handle has an endpoint with a writer, or a reader.
abbrev pub HasEntity : ℤ → Bool → ℕ → Graph → Type 0
HasEntity h writer p g =
    (m : Node) × (k : ℤ) × (e : Endpoint) × (lookup_local_node_by_handle g h ≡ some m)
    × (find_key endp_key k m.endpoints ≡ some e)
    × (side writer e ≡ some p)

-- The same of a well-formed graph.
pub record Has (h : ℤ) (writer : Bool) (p : ℕ) (g : Graph) : Type 0 where
  pub valid : GraphOk g
  pub has : HasEntity h writer p g

EntryExtends-side :
    (writer : Bool) (p : ℕ) (e e' : Endpoint)
    → EntryExtends (abs_endpoint e) (abs_endpoint e')
    → side writer e ≡ some p
    → side writer e' ≡ some p
EntryExtends-side true p e e' (_, _, inl free) has = absurd (cc)
EntryExtends-side true p e e' (_, _, inr same) has = same ∙ has
EntryExtends-side false p e e' (_, inl free, _) has = absurd (cc)
EntryExtends-side false p e e' (_, inr same, _) has = same ∙ has

-- An endpoint keeps its entities where its node is extended.
Has-of_Grown :
    (h : ℤ) (writer : Bool) (p : ℕ) (g' : Graph) (m : Node) (k : ℤ) (e : Endpoint)
    → find_key endp_key k m.endpoints ≡ some e
    → side writer e ≡ some p
    → Grown h (abs_node m) g'
    → Has h writer p g'
Has-of_Grown h writer p g' m k e listed has (v, m', found, more) =
    let (x, there, extended) = more.entries k (abs_endpoint e) (rw listed) in
    let (e', listed', is) = view-found endp_key abs_endpoint m'.endpoints k there in
    record {
      valid = v;
      has = (
        m',
        k,
        e',
        found,
        listed',
        EntryExtends-side writer p e e' (subst (EntryExtends (abs_endpoint e)) (sym is) extended)
            has,
      );
    }

pub register-Has :
    (h : ℤ) (writer : Bool) (p : ℕ) (d : Dds) (g : Graph) (t : EndpointType) (r w : Ptr)
    → Has h writer p g
    → Has h writer p (register_local_endpoint d g h t r w).0
register-Has h writer p d g t r w v =
    let (m, k, e, found, listed, has) = v.has in
    Has-of_Grown h writer p _ m k e listed has
      (register-Grown h (abs_node m) d g t r w (v.valid, m, found, Extends-refl (abs_node m)))

pub attach-Has :
    (h : ℤ) (writer : Bool) (p : ℕ) (d : Dds) (g : Graph) (n : Node) (topic : CString)
    (writer' : Bool) (p' : ℕ) (x : Endpoint)
    → lookup_local_node_by_handle g h ≡ some n
    → lookup_local_endpoint_by_topic_name d n topic false ≡ some x
    → side writer' x ≡ none
    → Has h writer p g
    → Has h writer p (set_node g (set_endpoint n (with_side writer' p' x)))
attach-Has h writer p d g n topic writer' p' x found old free v =
    let (m, k, e, there, listed, has) = v.has in
    Has-of_Grown h writer p _ m k e listed has (
      attach-Grown h (abs_node m) d g n topic writer' p' x found old free
        (v.valid, m, there, Extends-refl (abs_node m)))

-- A round that does not fail leaves an endpoint with the entity.
abbrev pub Result : ℤ → Bool → ℕ → Progress → Type 0
Result h writer p q = q.2 ≡ false → Has h writer p q.0

side_new :
    (writer : Bool) (k : ℤ) (t : EndpointType) (p : ℕ)
    → side writer (new_endpoint k t (reader_arg writer p) (writer_arg writer p)) ≡ some p
side_new true k t p = refl
side_new false k t p = refl

registered-Result :
    (d : Dds) (g : Graph) (h : ℤ) (t : EndpointType) (writer : Bool) (p : ℕ)
    (q : Graph × Option Endpoint)
    → GraphOk q.0
    → Refused g h q ⊎ Accepted d g h t (reader_arg writer p) (writer_arg writer p) q
    → Result h writer p (check_handle (registered q))
registered-Result d g h t writer p (g', none) v outcome going = absurd (cc going)
registered-Result d g h t writer p (g', some e) v (inl (failed, _, _)) going = absurd (cc failed)
registered-Result d g h t writer p (g', some e) v (inr (k, n, m, done, _, found, a, _, _, _, _))
      going =
    let new = new_endpoint k t (reader_arg writer p) (writer_arg writer p) in
    record {
      valid = v;
      has = (
        m,
        k,
        new,
        found,
        rw (a.endpoints, find_key-append endp_key k n.endpoints new a.fresh, (eq_ℤ_iff k k).1 refl),
        side_new writer k t p,
      );
    }

pub plain-Result :
    (d : Dds) (writer : Bool) (t : EndpointType) (g : Graph) (n : Node) (h : ℤ) (p : ℕ)
    → GraphOk g
    → n.handle ≡ h
    → Result h writer p (check_handle (plain d writer t g n p))
unfolding plain
plain-Result d writer t g n h p v own =
    subst
      (λ j. Result h writer p (
        check_handle (
          registered
            (register_local_endpoint d g j t (reader_arg writer p) (writer_arg writer p)))))
      (sym own)
      (registered-Result d g h t writer p _ (register_local_endpoint-GraphOk d g h t _ _ v)
        (register_local_endpoint_outcome d g h t _ _ v))

side_with : (writer : Bool) (p : ℕ) (e : Endpoint) → side writer (with_side writer p e) ≡ some p
side_with true p e = refl
side_with false p e = refl

pub attach-Result :
    (d : Dds) (writer : Bool) (t : EndpointType) (g : Graph) (n : Node) (h k : ℤ) (p : ℕ)
    → GraphOk g
    → lookup_local_node_by_handle g h ≡ some n
    → Result h writer p (check_handle (attach d writer t g n k p))
unfolding attach plain lookup_local_endpoint_by_topic_name set_endpoint
attach-Result d writer t g n h k p v found =
    let topic = topic_of d writer p in
    elim (Option-cases (lookup_local_endpoint_by_topic_name d n topic false)) [
      | inl new ↦ rw (new, attach) (plain-Result d writer t g n h p v (by_handle-handle g h found))
      | inr (e, old) ↦ elim (Option-cases (side writer e)) [
        | inr (q, full) ↦ rw (old, attach, full) (λ going. absurd (cc going))
        | inl free ↦
            let e' = with_side writer p e in
            let m = set_endpoint n e' in
            let (ok', _, _) = found-NodeOk g h v found in
            let listed =
              find-Unique endp_key (topic_matches d topic false) n.endpoints ok'.unique old in
            let there : find_key endp_key e'.handle n.endpoints ≡ some e =
              rw (with_side-handle writer p e) listed in
            rw (old, attach, free)
              (λ _. record {
                valid = attach-GraphOk d g h n topic writer p e found old free v;
                has = (
                  m,
                  e'.handle,
                  e',
                  lookup-set_node h g n m found refl,
                  rw (
                    find_key-replace endp_key e'.handle e' n.endpoints there,
                    (eq_ℤ_iff e'.handle e'.handle).1 refl,
                  ),
                  side_with writer p e,
                );
              })
      ]
    ]
