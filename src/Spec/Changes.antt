-- ===== src/Spec/Changes.antt =====
-- The abstract map of a graph: reading it, and what it is after a change of one node.
use mathlib.Core.Path.{fun_ext}
use rticonnextdds_ros2_adapt.Common.{
  ℤ, eq_ℤ, eq_ℤ_iff, Bool-cases, false, Option, none, some, List, inl, inr, ◌≡◌, refl, sym, ap, ◌∙◌,
  arith,
}
use rticonnextdds_ros2_adapt.Types.{Node, Graph}
use rticonnextdds_ros2_adapt.InlineList.{find_key, find_key-remove}
use rticonnextdds_ros2_adapt.Lookup.{node_key, lookup_local_node_by_handle}
use rticonnextdds_ros2_adapt.Endpoints.Register.{SameNode}
use rticonnextdds_ros2_adapt.Nodes.Own.{others}
use rticonnextdds_ros2_adapt.Invariant.{GraphOk}
use rticonnextdds_ros2_adapt.Spec.{update, view, abs_node, abs}
use mathlib.Core.Option

map-some :
    {A B : Type 0} (f : A → B) (o : Option A) {b : B}
    → Option.map f o ≡ some b
    → (x : A) × (o ≡ some x) × (f x ≡ b)
map-some f none {b} e = absurd (cc e)
map-some f (some x) {b} e = (x, refl, cc e)

-- What a map has, the list has.
pub view-found :
    {A B : Type 0} (key : A → ℤ) (f : A → B) (xs : List A) (k : ℤ) {b : B}
    → view key f xs k ≡ some b
    → (x : A) × (find_key key k xs ≡ some x) × (f x ≡ b)
view-found key f xs k e = map-some f (find_key key k xs) e

pub abs-lookup :
    (g : Graph) (h : ℤ) {n : Node}
    → lookup_local_node_by_handle g h ≡ some n
    → abs g h ≡ some (abs_node n)
unfolding lookup_local_node_by_handle
abs-lookup g h found = rw found

pub abs-missing : (g : Graph) (h : ℤ) → lookup_local_node_by_handle g h ≡ none → abs g h ≡ none
unfolding lookup_local_node_by_handle
abs-missing g h missing = rw missing

pub abs_node-SameNode : (n m : Node) → SameNode n m → abs_node m ≡ abs_node n
abs_node-SameNode n m s = rw (s.name, s.namespace, s.participant, s.endpoints)

-- A handle that another list of nodes names alike.
pub others-lookup :
    (g g' : Graph) (h j : ℤ)
    → GraphOk g
    → GraphOk g'
    → others h g' ≡ others h g
    → eq_ℤ h j ≡ false
    → find_key node_key j g'.nodes ≡ find_key node_key j g.nodes
others-lookup g g' h j v v' same other =
    let here : find_key node_key j (others h g) ≡ find_key node_key j g.nodes =
      rw (find_key-remove node_key j h g.nodes v.unique, other) in
    let there : find_key node_key j (others h g') ≡ find_key node_key j g'.nodes =
      rw (find_key-remove node_key j h g'.nodes v'.unique, other) in
    sym there ∙ ap (find_key node_key j) same ∙ here

-- A change of the node with one handle is a change of the map there.
pub abs-update :
    (g g' : Graph) (h : ℤ) (o : Option Node)
    → lookup_local_node_by_handle g' h ≡ o
    → ((j : ℤ)
        → eq_ℤ h j ≡ false
        → lookup_local_node_by_handle g' j ≡ lookup_local_node_by_handle g j)
    → abs g' ≡ update (abs g) h (Option.map abs_node o)
unfolding lookup_local_node_by_handle
abs-update g g' h o found elsewhere = fun_ext λ j. elim (Bool-cases (eq_ℤ h j)) [
  | inl e ↦
      let same : h ≡ j = ground (arith, eq_ℤ_iff h j) in
      let there : find_key node_key j g'.nodes ≡ o = rw (← same) found in rw (e, there)
  | inr e ↦ rw (e, elsewhere j e)
]

-- The map after nothing was changed at a handle.
pub update_same : {A : Type 0} (f : ℤ → Option A) (h : ℤ) → update f h (f h) ≡ f
update_same f h = fun_ext λ j. elim (Bool-cases (eq_ℤ h j)) [
  | inl e ↦ let same : h ≡ j = ground (arith, eq_ℤ_iff h j) in rw (e, same)
  | inr e ↦ rw e
]

-- The map where the node with a handle is another one.
pub abs-changed :
    (g g' : Graph) (h : ℤ) (m : Node)
    → GraphOk g
    → GraphOk g'
    → others h g' ≡ others h g
    → lookup_local_node_by_handle g' h ≡ some m
    → abs g' ≡ update (abs g) h (some (abs_node m))
unfolding lookup_local_node_by_handle
abs-changed g g' h m v v' same found =
    abs-update g g' h (some m) found λ j other. others-lookup g g' h j v v' same other
