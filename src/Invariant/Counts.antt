-- ===== src/Invariant/Counts.antt =====
-- The counters `readers_len` and `writers_len` of a node (src/adapter_c/graph_impl.h): registration
-- and unregistration keep them equal to the numbers of readers and writers.
use rticonnextdds_ros2_adapt.Common.{
  ℕ, ◌+◌, ◌%◌, ◌≡◌, sym, ap, subst, ℤ, eq_ℤ, size_mod, All, Bool, Bool-cases, true, false, none,
  some, List, [], ◌∷◌, ◌++◌, inl, inr, arith,
}
use rticonnextdds_ros2_adapt.Types.{def_node, Ptr, EndpointType, Endpoint, Node, Graph, Dds}
use rticonnextdds_ros2_adapt.InlineList.{find_key, remove, find-Unique, All-find, find_key-key}
use rticonnextdds_ros2_adapt.Lookup.{
  node_key, endp_key, dds_matches, lookup_local_node_by_handle, lookup_local_endpoint_by_handle,
  lookup_local_endpoint_by_dds_endpoints,
}
use rticonnextdds_ros2_adapt.Endpoints.{
  new_endpoint, add_endpoint, register_local_endpoint, drop_endpoint, unregister_local_endpoint,
  unregister_local_endpoint_by_handle, inc_if, dec_if,
}
use rticonnextdds_ros2_adapt.Inspect.{side}
use rticonnextdds_ros2_adapt.Invariant.{NodeOk, GraphOk}
use rticonnextdds_ros2_adapt.Invariant.EachNode.{
  SameEndpoints, register_local_endpoint-Each, unregister_found-Each,
}

-- 1 for a pointer that is not NULL.
abbrev pub one : Ptr → ℕ
one none = 0
one (some p) = 1

-- The number of endpoints with a writer, or with a reader.
unfoldable pub count : Bool → List Endpoint → ℕ
count writer [] = 0
count writer (e ∷ es) = one (side writer e) + count writer es

abbrev pub len_of : Bool → Node → ℕ
len_of true n = n.writers_len
len_of false n = n.readers_len

-- Both counters are right, as `size_t` numbers.
abbrev pub CountsOk : Node → Type 0
CountsOk n = (writer : Bool) → len_of writer n ≡ count writer n.endpoints % size_mod

count-append :
    (b : Bool) (es : List Endpoint) (e : Endpoint)
    → count b (es ++ e ∷ []) ≡ count b es + one (side b e)
unfolding count
count-append b [] e = omega arith
count-append b (x ∷ es) e = omega (arith, count-append b es e)

count-remove :
    (b : Bool) (k : ℤ) (es : List Endpoint) (e : Endpoint)
    → find_key endp_key k es ≡ some e
    → count b es ≡ count b (remove endp_key k es) + one (side b e)
unfolding count find_key remove
count-remove b k [] e h = cc
count-remove b k (x ∷ es) e h = elim (Bool-cases (eq_ℤ x.handle k)) [
  | inl t ↦ let same : x ≡ e = ground arith in rw (t, same) (omega arith)
  | inr t ↦ rw t (omega (arith, count-remove b k es e (ground arith)))
]

inc_if-count : (p : Ptr) (c : ℕ) → inc_if p (c % size_mod) ≡ (c + one p) % size_mod
inc_if-count none c = ap (λ k. k % size_mod) (omega arith)
inc_if-count (some p) c = omega arith

dec_if-count : (p : Ptr) (c : ℕ) → dec_if p ((c + one p) % size_mod) ≡ c % size_mod
dec_if-count none c = ap (λ k. k % size_mod) (omega arith)
dec_if-count (some p) c = omega arith

pub add_endpoint-CountsOk : (n : Node) (e : Endpoint) → CountsOk n → CountsOk (add_endpoint n e)
unfolding add_endpoint
add_endpoint-CountsOk n e v true =
    rw (count-append true n.endpoints e, v true, inc_if-count e.dds_writer (count true n.endpoints))
add_endpoint-CountsOk n e v false =
    rw (
      count-append false n.endpoints e,
      v false,
      inc_if-count e.dds_reader (count false n.endpoints),
    )

pub drop_endpoint-CountsOk :
    (n : Node) (e : Endpoint)
    → find_key endp_key e.handle n.endpoints ≡ some e
    → CountsOk n
    → CountsOk (drop_endpoint n e)
unfolding drop_endpoint
drop_endpoint-CountsOk n e found v true = rw (
  v true,
  count-remove true e.handle n.endpoints e found,
  dec_if-count e.dds_writer (count true (remove endp_key e.handle n.endpoints)),
)
drop_endpoint-CountsOk n e found v false = rw (
  v false,
  count-remove false e.handle n.endpoints e found,
  dec_if-count e.dds_reader (count false (remove endp_key e.handle n.endpoints)),
)

-- Every node's counters are right.
abbrev pub AllCountsOk : Graph → Type 0
AllCountsOk g = All CountsOk g.nodes

pub kept-CountsOk : (n m : Node) → SameEndpoints n m → CountsOk n → CountsOk m
kept-CountsOk n m s c true = rw (s.writers, s.endpoints) (c true)
kept-CountsOk n m s c false = rw (s.readers, s.endpoints) (c false)

pub new-CountsOk : (n : Node) → SameEndpoints def_node n → CountsOk n
unfolding count
new-CountsOk n s true = rw (s.writers, s.endpoints)
new-CountsOk n s false = rw (s.readers, s.endpoints)

pub found-CountsOk :
    (g : Graph) (h : ℤ) {n : Node}
    → AllCountsOk g
    → lookup_local_node_by_handle g h ≡ some n
    → CountsOk n
unfolding lookup_local_node_by_handle
found-CountsOk g h v found = All-find node_key CountsOk h g.nodes v found

found-NodeOk :
    (g : Graph) (h : ℤ) {n : Node} → GraphOk g → lookup_local_node_by_handle g h ≡ some n → NodeOk n
unfolding lookup_local_node_by_handle
found-NodeOk g h v found = All-find node_key NodeOk h g.nodes v.each found

-- Registering an endpoint keeps the counters of readers and of writers right in every node, where
-- they are, whatever it answers.
pub register_local_endpoint-AllCountsOk :
    (d : Dds) (g : Graph) (h : ℤ) (t : EndpointType) (r w : Ptr)
    → AllCountsOk g
    → AllCountsOk (register_local_endpoint d g h t r w).0
register_local_endpoint-AllCountsOk d g h t r w v =
    register_local_endpoint-Each CountsOk kept-CountsOk new-CountsOk d g h t r w
      (λ n k. add_endpoint-CountsOk n (new_endpoint k t r w)) v

-- Unregistering an endpoint of a well-formed graph, by its DDS entities or by its handle, keeps
-- the counters of readers and of writers right in every node, where they are.
pub unregister_local_endpoint-AllCountsOk :
    (g : Graph) (h : ℤ) (r w : Ptr) (k : ℤ)
    → GraphOk g
    → AllCountsOk g
    → AllCountsOk (unregister_local_endpoint g h r w).0
      × AllCountsOk (unregister_local_endpoint_by_handle g h k).0
unfolding unregister_local_endpoint unregister_local_endpoint_by_handle
    lookup_local_endpoint_by_handle lookup_local_endpoint_by_dds_endpoints
unregister_local_endpoint-AllCountsOk g h r w k v c = (
  unregister_found-Each CountsOk kept-CountsOk new-CountsOk g h _
      (λ n e found f.
        drop_endpoint-CountsOk n e
          (find-Unique endp_key (dds_matches r w) n.endpoints (found-NodeOk g h v found).unique f))
      c,
  unregister_found-Each CountsOk kept-CountsOk new-CountsOk g h _
      (λ n e found f. drop_endpoint-CountsOk n e (
        subst (λ j. find_key endp_key j n.endpoints ≡ some e)
          (sym (find_key-key endp_key k n.endpoints f)) f))
      c,
)
