-- ===== src/Spec/Persistence.antt =====
-- What the specification gives a client: an endpoint stays until its node is asked to remove it.
use rticonnextdds_ros2_adapt.Common.{
  ℤ, eq_ℤ, eq_ℤ_iff, Bool, Bool-cases, false, Option, none, some, List, [], ◌∷◌, inl, inr, ◌⊎◌, ◌≡◌,
  refl, sym, subst, ap, ◌∙◌, arith,
}
use rticonnextdds_ros2_adapt.Types.{Ptr, Endpoint, Node, Graph, Dds}
use rticonnextdds_ros2_adapt.Lookup.{
  node_key, endp_key, lookup_local_node_by_handle, lookup_local_endpoint_by_handle,
}
use rticonnextdds_ros2_adapt.Invariant.{GraphOk}
use rticonnextdds_ros2_adapt.Api.Session.{Call, run}
use rticonnextdds_ros2_adapt.Spec as Spec
use rticonnextdds_ros2_adapt.Spec.{
  AbsEndpoint, AbsNode, AbsGraph, update, abs_endpoint, abs_node, abs, EntryExtends, Request,
  remove_node, remove_endpoint, request_of, Answer, Allowed, refused_node, no_node_to_inspect,
  no_node_to_remove, refused_endpoint, no_endpoint_to_remove, refused_add, refused_remove, Trace,
  done, next,
}
use rticonnextdds_ros2_adapt.Spec.Changes.{view-found, abs-lookup}
use rticonnextdds_ros2_adapt.Spec.Extension.{EntryExtends-refl, EntryExtends-trans}
use rticonnextdds_ros2_adapt.Spec.Refines.{requests_of, run-Trace_from}

-- A request to remove a node, or an endpoint of it.
abbrev pub removes : ℤ → Request → Bool
removes h (remove_node j) = eq_ℤ j h
removes h (remove_endpoint j s) = eq_ℤ j h
removes h _ = false

abbrev pub Untouched : ℤ → List (Dds × Request) → Type 0
Untouched h [] = Unit {0}
Untouched h ((d, r) ∷ rs) = (removes h r ≡ false) × Untouched h rs

-- The node is there with its names and participant, and the endpoint with what it had.
record Stays (a : AbsGraph) (h k : ℤ) (n : AbsNode) (e : AbsEndpoint) : Type 0 where
  node : AbsNode
  entry : AbsEndpoint
  found : a h ≡ some node
  listed : node.entries k ≡ some entry
  extended : EntryExtends e entry
  names : (node.name ≡ n.name) × (node.namespace ≡ n.namespace) × (node.participant ≡ n.participant)

module _ (h k : ℤ) (n : AbsNode) (e : AbsEndpoint) where
  elsewhere-Stays :
      (a : AbsGraph) (j : ℤ) (o : Option AbsNode)
      → eq_ℤ j h ≡ false
      → Stays a h k n e
      → Stays (update a j o) h k n e
  elsewhere-Stays a j o other s = record {
    node = s.node;
    entry = s.entry;
    found = rw other s.found;
    listed = s.listed;
    extended = s.extended;
    names = s.names;
  }

  -- Another node in the place of one, which keeps the names and extends the entry.
  renewed-Stays :
      (a : AbsGraph) (j : ℤ) (m m' : AbsNode)
      → a j ≡ some m
      → (m'.name ≡ m.name) × (m'.namespace ≡ m.namespace) × (m'.participant ≡ m.participant)
      → ((x : AbsEndpoint)
          → m.entries k ≡ some x
          → (x' : AbsEndpoint) × (m'.entries k ≡ some x') × EntryExtends x x')
      → Stays a h k n e
      → Stays (update a j (some m')) h k n e
  renewed-Stays a j m m' there (p, q, r) more s = elim (Bool-cases (eq_ℤ j h)) [
    | inr other ↦ elsewhere-Stays a j (some m') other s
    | inl here ↦
        let own : j ≡ h = ground (arith, eq_ℤ_iff j h) in
        let there' : a h ≡ some m = rw (← own) there in
        let same : s.node ≡ m = cc (s.found, there') in
        let listed : m.entries k ≡ some s.entry =
          subst (λ y. y.entries k ≡ some s.entry) same s.listed in
        let (x', listed', extended) = more s.entry listed in
        let (p', q', r') = s.names in
        record {
          node = m';
          entry = x';
          found = rw here;
          listed = listed';
          extended = EntryExtends-trans e s.entry x' s.extended extended;
          names = (
            p ∙ sym (ap (λ y. y.name) same) ∙ p',
            q ∙ sym (ap (λ y. y.namespace) same) ∙ q',
            r ∙ sym (ap (λ y. y.participant) same) ∙ r',
          );
        }
  ]

  Allowed-Stays :
      {d : Dds} {q : Ptr} {a b : AbsGraph} {r : Request} {x : Answer}
      → Allowed d q a r x b
      → removes h r ≡ false
      → Stays a h k n e
      → Stays b h k n e
  Allowed-Stays refused_node kept s = s
  Allowed-Stays {a = a} (Spec.added_node {h = j} m _ fresh _ _ _ _ eq) kept s =
      subst (λ c. Stays c h k n e) (sym eq)
        (elim (Bool-cases (eq_ℤ j h)) [
          | inr other ↦ elsewhere-Stays a j (some m) other s
          | inl here ↦
              let own : j ≡ h = ground (arith, eq_ℤ_iff j h) in
              let gone : a h ≡ none = rw (← own) fresh in let there = s.found in absurd (cc)
        ])
  Allowed-Stays (no_node_to_inspect _) kept s = s
  Allowed-Stays {a = a} (Spec.inspected {h = j} m m' _ there more eq) kept s =
      subst (λ c. Stays c h k n e) (sym eq)
        (renewed-Stays a j m m' there (more.name, more.namespace, more.participant) (more.entries k)
          s)
  Allowed-Stays (no_node_to_remove _) kept s = s
  Allowed-Stays {a = a} (Spec.removed_node {h = j} m there eq) kept s =
      subst (λ c. Stays c h k n e) (sym eq) (elsewhere-Stays a j none kept s)
  Allowed-Stays refused_endpoint kept s = s
  Allowed-Stays {a = a} (Spec.added_endpoint {h = j} {k = i} m there _ free _ _ _ eq) kept s =
      subst (λ c. Stays c h k n e) (sym eq)
        (renewed-Stays a j m _ there (refl, refl, refl)
          (λ x listed. elim (Bool-cases (eq_ℤ i k)) [
            | inr other ↦ (x, rw other listed, EntryExtends-refl x)
            | inl here ↦
                let own : i ≡ k = ground (arith, eq_ℤ_iff i k) in
                let free' : m.entries k ≡ none = rw (← own) free in absurd (cc)
          ])
          s)
  Allowed-Stays (no_endpoint_to_remove _) kept s = s
  Allowed-Stays {a = a} (Spec.removed_endpoint {h = j} m x there _ _ eq) kept s =
      subst (λ c. Stays c h k n e) (sym eq) (elsewhere-Stays a j _ kept s)
  Allowed-Stays refused_add kept s = s
  Allowed-Stays refused_remove kept s = s

  Trace-Stays :
      {q : Ptr} {a b : AbsGraph} {rs : List (Dds × Request)} {xs : List Answer}
      → Trace q a rs xs b
      → Untouched h rs
      → Stays a h k n e
      → Stays b h k n e
  Trace-Stays done kept s = s
  Trace-Stays (next step rest) kept s = Trace-Stays rest kept.1 (Allowed-Stays step kept.0 s)

-- What is still there of an endpoint `e` of a node `n` under two handles: the names and the
-- participant of the node, the type of the endpoint, and each DDS entity that it had.
abbrev pub StillThere : Graph → ℤ → ℤ → Node → Endpoint → Type 0
StillThere g h k n e =
    (m : Node) × (x : Endpoint) × (lookup_local_node_by_handle g h ≡ some m)
    × (lookup_local_endpoint_by_handle m k ≡ some x)
    × (m.node_name ≡ n.node_name)
    × (m.node_namespace ≡ n.node_namespace)
    × (m.dds_participant ≡ n.dds_participant)
    × (x.endp_type ≡ e.endp_type)
    × ((e.dds_reader ≡ none) ⊎ (x.dds_reader ≡ e.dds_reader))
    × ((e.dds_writer ≡ none) ⊎ (x.dds_writer ≡ e.dds_writer))

StillThere-of_Stays :
    (g : Graph) (h k : ℤ) (n : Node) (e : Endpoint)
    → Stays (abs g) h k (abs_node n) (abs_endpoint e)
    → StillThere g h k n e
unfolding lookup_local_node_by_handle lookup_local_endpoint_by_handle
StillThere-of_Stays g h k n e s =
    let (m, found, is) = view-found node_key abs_node g.nodes h s.found in
    let listed : (abs_node m).entries k ≡ some s.entry =
      subst (λ y. y.entries k ≡ some s.entry) (sym is) s.listed in
    let (x, there, is') = view-found endp_key abs_endpoint m.endpoints k listed in
    let (a, b, c) = s.names in
    let (t, r, w) = subst (EntryExtends (abs_endpoint e)) (sym is') s.extended in
    (
      m,
      x,
      found,
      there,
      ap (λ y. y.name) is ∙ a,
      ap (λ y. y.namespace) is ∙ b,
      ap (λ y. y.participant) is ∙ c,
      t,
      r,
      w,
    )

-- An endpoint of a well-formed graph stays through any sequence of calls that neither unregister its
-- node nor an endpoint of its node, in any DDS environments: under the two handles there is then still
-- an endpoint of that type, with each DDS entity that it had, of a node with the same names and the
-- same participant.
pub run-StillThere :
    (g : Graph) (cs : List (Dds × Call)) (h k : ℤ) {n : Node} {e : Endpoint}
    → GraphOk g
    → lookup_local_node_by_handle g h ≡ some n
    → lookup_local_endpoint_by_handle n k ≡ some e
    → Untouched h (requests_of cs)
    → StillThere (run g cs) h k n e
unfolding lookup_local_endpoint_by_handle
run-StillThere g cs h k {n} {e} v found listed kept =
    let (_, _, trace) = run-Trace_from g g.graph_participant cs v refl in
    let start : Stays (abs g) h k (abs_node n) (abs_endpoint e) = record {
      node = abs_node n;
      entry = abs_endpoint e;
      found = abs-lookup g h found;
      listed = rw listed;
      extended = EntryExtends-refl (abs_endpoint e);
      names = (refl, refl, refl);
    } in
    StillThere-of_Stays (run g cs) h k n e
      (Trace-Stays h k (abs_node n) (abs_endpoint e) trace kept start)
