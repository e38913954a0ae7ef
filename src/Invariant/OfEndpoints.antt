-- ===== src/Invariant/OfEndpoints.antt =====
-- Registering and unregistering endpoints keeps the graph well-formed.
use rticonnextdds_ros2_adapt.Common.{
  ◌≡◌, ◌≢◌, ℤ, length-append, All-append, [], ◌∷◌, Option, none, some, is_some, Option-cases, inl,
  inr, ◌⊎◌, arith,
}
use rticonnextdds_ros2_adapt.Types.{Ptr, EndpointType, invalid_handle, Endpoint, Node, Graph, Dds}
use rticonnextdds_ros2_adapt.InlineList.{
  find_key, Fresh, Fresh-of_find, find_key-key, Unique-append, Unique-replace, Unique-remove,
  length-replace, length-remove, All-replace, All-remove, All-find,
}
use rticonnextdds_ros2_adapt.Handles.Fresh.{IsHandle, next_handle_fresh, next_handle-IsInt32}
use rticonnextdds_ros2_adapt.Lookup.{
  node_key, endp_key, lookup_local_node_by_handle, lookup_local_endpoint_by_handle,
}
use rticonnextdds_ros2_adapt.Lookup.Listed.{by_dds_endpoints-listed, by_handle-listed}
use rticonnextdds_ros2_adapt.Endpoints.{
  set_node, next_endpoint_handle, add_endpoint, new_endpoint, insert_endpoint,
  register_local_endpoint, drop_endpoint, queue_update, unregister_found, unregister_local_endpoint,
  unregister_local_endpoint_by_handle,
}
use rticonnextdds_ros2_adapt.Endpoints.Cases.{insert_cases, register_cases, unregister_cases}
use rticonnextdds_ros2_adapt.Invariant.{NodeOk, GraphOk}

-- A write of a well-formed node over one with the same handle.
pub set_node-GraphOk :
    (g : Graph) (n : Node) → NodeOk n → IsHandle n.handle → GraphOk g → GraphOk (set_node g n)
unfolding set_node
set_node-GraphOk g n ok' h v = record {
  unique = Unique-replace node_key n g.nodes v.unique;
  valid = All-replace node_key (λ m. IsHandle m.handle) n g.nodes h v.valid;
  counted = rw (length-replace node_key n g.nodes) v.counted;
  counter = v.counter;
  each = All-replace node_key NodeOk n g.nodes ok' v.each;
}

-- A node that is found is well-formed.
pub found-NodeOk :
    (g : Graph) (h : ℤ) {n : Node}
    → GraphOk g
    → lookup_local_node_by_handle g h ≡ some n
    → NodeOk n × IsHandle n.handle × (n.handle ≡ h)
unfolding lookup_local_node_by_handle
found-NodeOk g h v e = (
  All-find node_key NodeOk h g.nodes v.each e,
  All-find node_key (λ m. IsHandle m.handle) h g.nodes v.valid e,
  find_key-key node_key h g.nodes e,
)

-- The handle for a new endpoint is INVALID, or valid and fresh in its node.
pub next_endpoint_handle-Fresh :
    (n : Node)
    → NodeOk n
    → ((next_endpoint_handle n).0 ≡ invalid_handle)
      ⊎ (Fresh endp_key (next_endpoint_handle n).0 n.endpoints
          × IsHandle (next_endpoint_handle n).0)
unfolding next_endpoint_handle lookup_local_endpoint_by_handle
next_endpoint_handle-Fresh n v =
    elim (next_handle_fresh (λ c. is_some (find_key endp_key c n.endpoints)) n.endp_handle_next
      v.counter) [
        | inl e ↦ inl e
        | inr (free, valid) ↦ inr (Fresh-of_find endp_key _ n.endpoints (ground arith), valid)
      ]

next_endpoint_handle-NodeOk : (n : Node) → NodeOk n → NodeOk (next_endpoint_handle n).1
unfolding next_endpoint_handle
next_endpoint_handle-NodeOk n v = record {
  unique = v.unique;
  valid = v.valid;
  counted = v.counted;
  counter = next_handle-IsInt32 _ n.endp_handle_next v.counter;
}

pub add_endpoint-NodeOk :
    (n : Node) (e : Endpoint)
    → Fresh endp_key e.handle n.endpoints
    → IsHandle e.handle
    → NodeOk n
    → NodeOk (add_endpoint n e)
unfolding add_endpoint
add_endpoint-NodeOk n e f h v = record {
  unique = Unique-append endp_key n.endpoints e v.unique f;
  valid = All-append (λ x. IsHandle x.handle) n.endpoints (e ∷ []) v.valid (h, tt);
  counted = omega (arith, v.counted, length-append n.endpoints (e ∷ []));
  counter = v.counter;
}

pub drop_endpoint-NodeOk :
    (n : Node) (e : Endpoint) {x : Endpoint}
    → find_key endp_key e.handle n.endpoints ≡ some x
    → NodeOk n
    → NodeOk (drop_endpoint n e)
unfolding drop_endpoint
drop_endpoint-NodeOk n e found v = record {
  unique = Unique-remove endp_key e.handle n.endpoints v.unique;
  valid = All-remove endp_key (λ x. IsHandle x.handle) e.handle n.endpoints v.valid;
  counted = omega (arith, v.counted, length-remove endp_key e.handle n.endpoints found);
  counter = v.counter;
}

insert_endpoint-GraphOk :
    (d : Dds) (g : Graph) (n : Node) (t : EndpointType) (r w : Ptr)
    → NodeOk n
    → IsHandle n.handle
    → GraphOk g
    → GraphOk (insert_endpoint d g n t r w).0
unfolding next_endpoint_handle add_endpoint
insert_endpoint-GraphOk d g n t r w ok' h v =
    let n1 = (next_endpoint_handle n).1 in
    let ok1 : NodeOk n1 = next_endpoint_handle-NodeOk n ok' in
    let v1 = set_node-GraphOk g n1 ok1 h v in
    insert_cases (λ q. GraphOk q.0) d g n t r w v1
      λ valid. elim (next_endpoint_handle-Fresh n ok') [
        | inl e ↦ absurd (valid e)
        | inr (fresh, handle) ↦
            let e = new_endpoint (next_endpoint_handle n).0 t r w in
            set_node-GraphOk (set_node g n1) (add_endpoint n1 e)
              (add_endpoint-NodeOk n1 e fresh handle ok1) h v1
      ]

-- Registering an endpoint keeps the graph well-formed, whatever it answers.
pub register_local_endpoint-GraphOk :
    (d : Dds) (g : Graph) (h : ℤ) (t : EndpointType) (r w : Ptr)
    → GraphOk g
    → GraphOk (register_local_endpoint d g h t r w).0
register_local_endpoint-GraphOk d g h t r w v =
    register_cases (λ q. GraphOk q.0) d g h t r w v
      λ n e _ _ _.
        let (ok', valid, _) = found-NodeOk g h v e in
        insert_endpoint-GraphOk d g n t r w ok' valid v

pub queue_update-GraphOk : (g : Graph) → GraphOk g → GraphOk (queue_update g)
unfolding queue_update
queue_update-GraphOk g v = record {
  unique = v.unique;
  valid = v.valid;
  counted = v.counted;
  counter = v.counter;
  each = v.each;
}

unregister_found-GraphOk :
    (g : Graph) (h : ℤ) (lookup : Node → Option Endpoint)
    → ((n : Node) (e : Endpoint)
        → lookup n ≡ some e
        → find_key endp_key e.handle n.endpoints ≢ none)
    → GraphOk g
    → GraphOk (unregister_found g h lookup).0
unfolding drop_endpoint
unregister_found-GraphOk g h lookup listed v =
    unregister_cases (λ q. GraphOk q.0) g h lookup (λ _. v)
      λ n e found f.
        let (ok', valid, _) = found-NodeOk g h v found in
        queue_update-GraphOk (set_node g (drop_endpoint n e))
          (elim (Option-cases (find_key endp_key e.handle n.endpoints)) [
            | inl missing ↦ absurd (listed n e f missing)
            | inr (x, there) ↦
                set_node-GraphOk g (drop_endpoint n e) (drop_endpoint-NodeOk n e there ok') valid v
          ])

-- Unregistering an endpoint, by its DDS entities or by its handle, keeps the graph well-formed.
pub unregister_local_endpoint-GraphOk :
    (g : Graph) (h : ℤ) (r w : Ptr) → GraphOk g → GraphOk (unregister_local_endpoint g h r w).0
unfolding unregister_local_endpoint
unregister_local_endpoint-GraphOk g h r w v =
    unregister_found-GraphOk g h _ (λ n e. by_dds_endpoints-listed n r w) v

pub unregister_local_endpoint_by_handle-GraphOk :
    (g : Graph) (h k : ℤ) → GraphOk g → GraphOk (unregister_local_endpoint_by_handle g h k).0
unfolding unregister_local_endpoint_by_handle
unregister_local_endpoint_by_handle-GraphOk g h k v =
    unregister_found-GraphOk g h _ (λ n e. by_handle-listed n k) v
