-- ===== src/Spec/Names.antt =====
-- What the specification gives a client: names of nodes are unique.
use rticonnextdds_ros2_adapt.Common.{
  ℤ, eq_ℤ, eq_ℤ_iff, CString, str_eq, str_eq_refl, Bool-cases, true, Option, Option-cases, none,
  some, if◌then◌else◌, ◌⊎◌, List, inl, inr, ◌≡◌, refl, sym, subst, ap, ◌∙◌, arith, ok,
  precondition_not_met,
}
use rticonnextdds_ros2_adapt.Types.{Ptr, Node, Graph, Duration, Dds}
use rticonnextdds_ros2_adapt.Lookup.{lookup_local_node_by_handle}
use rticonnextdds_ros2_adapt.Nodes.{namespace_or_default}
use rticonnextdds_ros2_adapt.Api.{get_node_name}
use rticonnextdds_ros2_adapt.Api.Session.{Call, run, initial}
use rticonnextdds_ros2_adapt.Spec as Spec
use rticonnextdds_ros2_adapt.Spec.{
  AbsNode, AbsGraph, update, abs_node, abs, NameFree, Extends, Request, Answer, Allowed,
  refused_node, no_node_to_inspect, no_node_to_remove, refused_endpoint, no_endpoint_to_remove,
  refused_add, refused_remove, Trace, done, next,
}
use rticonnextdds_ros2_adapt.Spec.Changes.{abs-lookup}
use rticonnextdds_ros2_adapt.Spec.Refines.{run-Trace}

-- Two nodes with one name and one namespace are one node.
abbrev pub NamesUnique : AbsGraph → Type 0
NamesUnique a =
    (h k : ℤ) (n m : AbsNode)
    → a h ≡ some n
    → a k ≡ some m
    → n.name ≡ m.name
    → n.namespace ≡ m.namespace
    → h ≡ k

-- What is written at a handle, if anything, has names that no node under another handle has.
abbrev Apart : AbsGraph → ℤ → Option AbsNode → Type 0
Apart a h o =
    (m : AbsNode) (k : ℤ) (x : AbsNode)
    → o ≡ some m
    → a k ≡ some x
    → x.name ≡ m.name
    → x.namespace ≡ m.namespace
    → k ≡ h

update-cases :
    (a : AbsGraph) (h : ℤ) (o : Option AbsNode) (j : ℤ) (n : AbsNode)
    → update a h o j ≡ some n
    → ((h ≡ j) × (o ≡ some n)) ⊎ (a j ≡ some n)
update-cases a h o j n e = elim (Bool-cases (eq_ℤ h j)) [
  | inl here ↦
      inl (ground (arith, eq_ℤ_iff h j), subst (λ b. (if b then o else a j) ≡ some n) here e)
  | inr off ↦ inr (subst (λ b. (if b then o else a j) ≡ some n) off e)
]

update-NamesUnique :
    (a : AbsGraph) (h : ℤ) (o : Option AbsNode)
    → NamesUnique a
    → Apart a h o
    → NamesUnique (update a h o)
update-NamesUnique a h o unique apart j k n m e f s t = elim (update-cases a h o j n e) [
  | inl (own, e') ↦ elim (update-cases a h o k m f) [
    | inl (own', f') ↦ sym own ∙ own'
    | inr f' ↦ sym own ∙ sym (apart n k m e' f' (sym s) (sym t))
  ]
  | inr e' ↦ elim (update-cases a h o k m f) [
    | inl (own', f') ↦ apart m j n f' e' s t ∙ own'
    | inr f' ↦ unique j k n m e' f' s t
  ]
]

-- A node that keeps the names of the one under its handle.
renewed-Apart :
    (a : AbsGraph) (h : ℤ) (n m : AbsNode)
    → NamesUnique a
    → a h ≡ some n
    → m.name ≡ n.name
    → m.namespace ≡ n.namespace
    → Apart a h (some m)
renewed-Apart a h n m unique there s t m' k x e f s' t' =
    let same : m ≡ m' = cc e in
    unique k h x n f there (s' ∙ subst (λ y. y.name ≡ n.name) same s)
      (t' ∙ subst (λ y. y.namespace ≡ n.namespace) same t)

fresh-Apart :
    (a : AbsGraph) (h : ℤ) (n : AbsNode) (name ns : CString)
    → NameFree a name ns
    → n.name ≡ name
    → n.namespace ≡ ns
    → Apart a h (some n)
fresh-Apart a h n name ns free s t m k x e f s' t' =
    let same : n ≡ m = cc e in
    let s'' : x.name ≡ name = s' ∙ subst (λ y. y.name ≡ name) same s in
    let t'' : x.namespace ≡ ns = t' ∙ subst (λ y. y.namespace ≡ ns) same t in
    let equal : str_eq x.name name ≡ true =
      subst (λ z. str_eq z name ≡ true) (sym s'') (str_eq_refl name) in
    let equal' : str_eq x.namespace ns ≡ true =
      subst (λ z. str_eq z ns ≡ true) (sym t'') (str_eq_refl ns) in
    let differ = free k x f in absurd (ground arith)

Allowed-NamesUnique :
    {d : Dds} {q : Ptr} {a b : AbsGraph} {r : Request} {x : Answer}
    → Allowed d q a r x b
    → NamesUnique a
    → NamesUnique b
Allowed-NamesUnique refused_node u = u
Allowed-NamesUnique {a = a} (Spec.added_node {name} {ns} {h} n _ _ free s t _ e) u =
    subst NamesUnique (sym e) (
      update-NamesUnique a h (some n) u (fresh-Apart a h n name (namespace_or_default ns) free s t))
Allowed-NamesUnique (no_node_to_inspect _) u = u
Allowed-NamesUnique {a = a} (Spec.inspected {h} n m _ there more e) u =
    subst NamesUnique (sym e)
      (update-NamesUnique a h (some m) u (renewed-Apart a h n m u there more.name more.namespace))
Allowed-NamesUnique (no_node_to_remove _) u = u
Allowed-NamesUnique {a = a} (Spec.removed_node {h} n there e) u =
    subst NamesUnique (sym e) (update-NamesUnique a h none u λ m k x f. absurd (cc f))
Allowed-NamesUnique refused_endpoint u = u
Allowed-NamesUnique {a = a} (Spec.added_endpoint {h} n there _ _ _ _ _ e) u =
    subst NamesUnique (sym e) (update-NamesUnique a h _ u (renewed-Apart a h n _ u there refl refl))
Allowed-NamesUnique (no_endpoint_to_remove _) u = u
Allowed-NamesUnique {a = a} (Spec.removed_endpoint {h} n _ there _ _ e) u =
    subst NamesUnique (sym e) (update-NamesUnique a h _ u (renewed-Apart a h n _ u there refl refl))
Allowed-NamesUnique refused_add u = u
Allowed-NamesUnique refused_remove u = u

Trace-NamesUnique :
    {q : Ptr} {a b : AbsGraph} {rs : List (Dds × Request)} {xs : List Answer}
    → Trace q a rs xs b
    → NamesUnique a
    → NamesUnique b
Trace-NamesUnique done u = u
Trace-NamesUnique (next step rest) u = Trace-NamesUnique rest (Allowed-NamesUnique step u)

-- A node that is read by its handle.
named :
    (g : Graph) (h : ℤ) (name ns : CString)
    → get_node_name (some g) h true true ≡ (ok, some name, some ns)
    → (n : Node) × (lookup_local_node_by_handle g h ≡ some n)
      × (n.node_name ≡ name)
      × (n.node_namespace ≡ ns)
unfolding get_node_name
named g h name ns e = elim (Option-cases (lookup_local_node_by_handle g h)) [
  | inl missing ↦
      let what : get_node_name (some g) h true true ≡ (precondition_not_met, none, none) =
        rw (missing, get_node_name) in
      let differ : precondition_not_met ≡ ok = sym (ap (λ q. q.0) what) ∙ ap (λ q. q.0) e in
      absurd (cc differ)
  | inr (n, found) ↦
      let what : get_node_name (some g) h true true
          ≡ (ok, some n.node_name, some n.node_namespace) =
        rw (found, get_node_name) in
      let same : some n.node_name ≡ some name = sym (ap (λ q. q.1) what) ∙ ap (λ q. q.1) e in
      let same' : some n.node_namespace ≡ some ns = sym (ap (λ q. q.2) what) ∙ ap (λ q. q.2) e in
      (n, found, cc same, cc same')
]

-- After any sequence of calls on a new graph, in any DDS environments, two handles under which
-- RTIROS2_Graph_get_node_name returns one name and one namespace are one handle.
pub run-names_unique :
    (participant : Ptr) (period : Duration) (cs : List (Dds × Call)) (h k : ℤ) (name ns : CString)
    → let self = some (run (initial participant period) cs) in
      get_node_name self h true true ≡ (ok, some name, some ns)
      → get_node_name self k true true ≡ (ok, some name, some ns)
      → h ≡ k
run-names_unique participant period cs h k name ns e f =
    let g = run (initial participant period) cs in
    let (_, _, trace) = run-Trace participant period cs in
    let (n, found, a, b) = named g h name ns e in
    let (m, found', a', b') = named g k name ns f in
    Trace-NamesUnique trace (λ _ _ _ _ e' _ _ _. absurd (cc e')) h k (abs_node n) (abs_node m)
      (abs-lookup g h found) (abs-lookup g k found') (a ∙ sym a') (b ∙ sym b')
