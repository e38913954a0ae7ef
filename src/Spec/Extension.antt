-- ===== src/Spec/Extension.antt =====
-- Nodes that extend one another: one more endpoint, and one more DDS entity of an endpoint.
use rticonnextdds_ros2_adapt.Common.{
  eq_ℤ, eq_ℤ_iff, ℕ, Bool, Bool-cases, true, false, none, some, inl, inr, ◌≡◌, refl, sym, subst, ap,
  ◌∙◌, arith,
}
use rticonnextdds_ros2_adapt.Types.{Ptr, Endpoint, Node}
use rticonnextdds_ros2_adapt.InlineList.{find_key, find_of_Fresh}
use rticonnextdds_ros2_adapt.Lookup.{endp_key}
use rticonnextdds_ros2_adapt.Endpoints.{set_endpoint}
use rticonnextdds_ros2_adapt.Endpoints.Register.{Appended}
use rticonnextdds_ros2_adapt.Inspect.{side, with_side}
use rticonnextdds_ros2_adapt.Spec.{
  AbsEndpoint, AbsNode, update, view, abs_endpoint, abs_node, Fills, EntryExtends, Extends,
}
use rticonnextdds_ros2_adapt.Spec.View.{view-append, view-replace}
use rticonnextdds_ros2_adapt.Spec.Changes.{view-found}

Fills-refl : (p : Ptr) → Fills p p
Fills-refl p = inr refl

Fills-trans : (p q r : Ptr) → Fills p q → Fills q r → Fills p r
Fills-trans p q r (inl free) more = inl free
Fills-trans p q r (inr same) (inl free) = inl (sym same ∙ free)
Fills-trans p q r (inr same) (inr same') = inr (same' ∙ same)

pub EntryExtends-refl : (e : AbsEndpoint) → EntryExtends e e
EntryExtends-refl e = (refl, Fills-refl e.reader, Fills-refl e.writer)

pub EntryExtends-trans :
    (a b c : AbsEndpoint) → EntryExtends a b → EntryExtends b c → EntryExtends a c
EntryExtends-trans a b c (k, r, w) (k', r', w') = (
  k' ∙ k,
  Fills-trans a.reader b.reader c.reader r r',
  Fills-trans a.writer b.writer c.writer w w',
)

pub Extends-refl : (n : AbsNode) → Extends n n
Extends-refl n = record {
  name = refl;
  namespace = refl;
  participant = refl;
  entries = λ k e there. (e, there, EntryExtends-refl e);
}

pub Extends-trans : (a b c : AbsNode) → Extends a b → Extends b c → Extends a c
Extends-trans a b c x y = record {
  name = y.name ∙ x.name;
  namespace = y.namespace ∙ x.namespace;
  participant = y.participant ∙ x.participant;
  entries = λ k e there.
      let (e', there', more) = x.entries k e there in
      let (e'', there'', more') = y.entries k e' there' in
      (e'', there'', EntryExtends-trans e e' e'' more more');
}

-- One more endpoint, under a handle that was free.
pub Appended-Extends :
    (n m : Node) (e : Endpoint) → Appended n m e → Extends (abs_node n) (abs_node m)
Appended-Extends n m e a = record {
  name = a.name;
  namespace = a.namespace;
  participant = a.participant;
  entries = λ k x there.
      let before = view endp_key abs_endpoint n.endpoints in
      let grown : view endp_key abs_endpoint m.endpoints
          ≡ update before e.handle (some (abs_endpoint e)) =
        ap (view endp_key abs_endpoint) a.endpoints
        ∙ view-append endp_key abs_endpoint n.endpoints e a.fresh in
      elim (Bool-cases (eq_ℤ e.handle k)) [
        | inl same ↦
            let is : e.handle ≡ k = ground (arith, eq_ℤ_iff e.handle k) in
            let free : before k ≡ none =
              rw (← is, find_of_Fresh endp_key e.handle n.endpoints a.fresh) in
            absurd (cc)
        | inr other ↦ (x, ap (λ f. f k) grown ∙ rw other there, EntryExtends-refl x)
      ];
}

pub with_side-EntryExtends :
    (writer : Bool) (p : ℕ) (e : Endpoint)
    → side writer e ≡ none
    → EntryExtends (abs_endpoint e) (abs_endpoint (with_side writer p e))
with_side-EntryExtends true p e free = (refl, inr refl, inl free)
with_side-EntryExtends false p e free = (refl, inl free, inr refl)

pub with_side-handle :
    (writer : Bool) (p : ℕ) (e : Endpoint) → (with_side writer p e).handle ≡ e.handle
with_side-handle true p e = refl
with_side-handle false p e = refl

-- An endpoint of the node with one more DDS entity.
pub attached-Extends :
    (n : Node) (e e' : Endpoint)
    → find_key endp_key e.handle n.endpoints ≡ some e
    → e'.handle ≡ e.handle
    → EntryExtends (abs_endpoint e) (abs_endpoint e')
    → Extends (abs_node n) (abs_node (set_endpoint n e'))
unfolding set_endpoint
attached-Extends n e e' listed own more = record {
  name = refl;
  namespace = refl;
  participant = refl;
  entries = λ k x there.
      let old = view endp_key abs_endpoint n.endpoints in
      let listed' : find_key endp_key e'.handle n.endpoints ≡ some e =
        subst (λ j. find_key endp_key j n.endpoints ≡ some e) (sym own) listed in
      let grown = view-replace endp_key abs_endpoint e' n.endpoints listed' in
      elim (Bool-cases (eq_ℤ e'.handle k)) [
        | inl same ↦
            let is : e'.handle ≡ k = ground (arith, eq_ℤ_iff e'.handle k) in
            let here : find_key endp_key k n.endpoints ≡ some e =
              subst (λ j. find_key endp_key j n.endpoints ≡ some e) is listed' in
            let (y, found, what) = view-found endp_key abs_endpoint n.endpoints k there in
            let it : abs_endpoint e ≡ x = cc in
            (
              abs_endpoint e',
              ap (λ f. f k) grown ∙ rw same,
              subst (λ z. EntryExtends z (abs_endpoint e')) it more,
            )
        | inr other ↦ (x, ap (λ f. f k) grown ∙ rw other there, EntryExtends-refl x)
      ];
}
