-- ===== src/Endpoints/Register.antt =====
-- The outcome of RTIROS2_Graph_register_local_endpoint, and of an unregistration behind it.
use rticonnextdds_ros2_adapt.Common.{
  ℤ, true, false, Option, none, some, [], ◌∷◌, ◌++◌, inl, inr, ◌⊎◌, ◌≡◌, refl, subst, ◌∙◌,
}
use rticonnextdds_ros2_adapt.Types.{Ptr, EndpointType, Endpoint, Node, Graph, Dds}
use rticonnextdds_ros2_adapt.InlineList.{Fresh}
use rticonnextdds_ros2_adapt.Handles.Fresh.{IsHandle}
use rticonnextdds_ros2_adapt.Lookup.{
  endp_key, lookup_local_node_by_handle, lookup_local_endpoint_by_dds_endpoints,
}
use rticonnextdds_ros2_adapt.Endpoints.{
  set_node, next_endpoint_handle, add_endpoint, new_endpoint, conforms, register_local_endpoint,
  inc_if,
}
use rticonnextdds_ros2_adapt.Endpoints.Cases.{insert_cases, register_cases}
use rticonnextdds_ros2_adapt.Nodes.Own.{others, others-set_node, lookup-set_node}
use rticonnextdds_ros2_adapt.Invariant.{GraphOk}
use rticonnextdds_ros2_adapt.Invariant.OfEndpoints.{found-NodeOk, next_endpoint_handle-Fresh}

-- A node but for its counter of handles.
pub record SameNode (n m : Node) : Type 0 where
  pub endpoints : m.endpoints ≡ n.endpoints
  pub readers : m.readers_len ≡ n.readers_len
  pub writers : m.writers_len ≡ n.writers_len
  pub name : m.node_name ≡ n.node_name
  pub namespace : m.node_namespace ≡ n.node_namespace
  pub participant : m.dds_participant ≡ n.dds_participant

-- The new endpoint stands at the back of the node's list, under a valid handle that no endpoint of
-- the node had.
pub record Appended (n m : Node) (e : Endpoint) : Type 0 where
  pub valid : IsHandle e.handle
  pub fresh : Fresh endp_key e.handle n.endpoints
  pub endpoints : m.endpoints ≡ n.endpoints ++ e ∷ []
  pub readers : m.readers_len ≡ inc_if e.dds_reader n.readers_len
  pub writers : m.writers_len ≡ inc_if e.dds_writer n.writers_len
  pub name : m.node_name ≡ n.node_name
  pub namespace : m.node_namespace ≡ n.node_namespace
  pub participant : m.dds_participant ≡ n.dds_participant

-- A registration that answers NULL.
abbrev pub Refused : Graph → ℤ → Graph × Option Endpoint → Type 0
Refused g h q =
    (q.1 ≡ none)
    × (others h q.0 ≡ others h g)
    × ((n : Node)
        → lookup_local_node_by_handle g h ≡ some n
        → (m : Node) × (lookup_local_node_by_handle q.0 h ≡ some m) × SameNode n m)

-- A registration that answers an endpoint `e`, of the type and with the DDS entities asked for; the
-- topic names of these conform to the type, and no endpoint of the node matched them before.
abbrev pub Accepted : Dds → Graph → ℤ → EndpointType → Ptr → Ptr → Graph × Option Endpoint → Type 0
Accepted d g h t r w q =
    (k : ℤ) × (n : Node) × (m : Node) × (q.1 ≡ some (new_endpoint k t r w))
    × (lookup_local_node_by_handle g h ≡ some n)
    × (lookup_local_node_by_handle q.0 h ≡ some m)
    × Appended n m (new_endpoint k t r w)
    × (others h q.0 ≡ others h g)
    × (conforms d.reader_topic false t r ≡ true)
    × (conforms d.writer_topic true t w ≡ true)
    × (lookup_local_endpoint_by_dds_endpoints n r w ≡ none)

-- Registering an endpoint in a well-formed graph either answers NULL and leaves the other nodes as
-- they were and, of the node that is named, the endpoints, the counters of readers and of writers,
-- the names and the participant; or it appends an endpoint with the type and the
-- DDS entities asked for to that node, under a valid handle that no endpoint of it had, with the
-- counters of readers and of writers moved on, its names and its participant kept and the other
-- nodes as before; then no endpoint of the
-- node matched the entities before, and their topic names conform to the type.
pub register_local_endpoint_outcome :
    (d : Dds) (g : Graph) (h : ℤ) (t : EndpointType) (r w : Ptr)
    → GraphOk g
    → Refused g h (register_local_endpoint d g h t r w)
      ⊎ Accepted d g h t r w (register_local_endpoint d g h t r w)
unfolding next_endpoint_handle add_endpoint
register_local_endpoint_outcome d g h t r w v =
    register_cases (λ q. Refused g h q ⊎ Accepted d g h t r w q) d g h t r w
      (inl (
        refl,
        refl,
        λ n e. (
          n,
          e,
          record {
            endpoints = refl;
            readers = refl;
            writers = refl;
            name = refl;
            namespace = refl;
            participant = refl;
          },
        ),
      ))
      λ n found free cr cw.
        let (ok', _, own) = found-NodeOk g h v found in
        let n1 = (next_endpoint_handle n).1 in
        let o1 = others-set_node h g n1 own in
        let there1 = lookup-set_node h g n n1 found refl in
        let same : SameNode n n1 = record {
          endpoints = refl;
          readers = refl;
          writers = refl;
          name = refl;
          namespace = refl;
          participant = refl;
        } in
        insert_cases (λ q. Refused g h q ⊎ Accepted d g h t r w q) d g n t r w
          (inl (
            refl,
            o1,
            λ n' e. let is : n ≡ n' = cc in (n1, there1, subst (λ x. SameNode x n1) is same),
          ))
          λ valid. elim (next_endpoint_handle-Fresh n ok') [
            | inl e ↦ absurd (valid e)
            | inr (fresh, handle) ↦
                let k = (next_endpoint_handle n).0 in
                let n2 = add_endpoint n1 (new_endpoint k t r w) in
                inr (
                  k,
                  n,
                  n2,
                  refl,
                  found,
                  lookup-set_node h (set_node g n1) n1 n2 there1 refl,
                  record {
                    valid = handle;
                    fresh = fresh;
                    endpoints = refl;
                    readers = refl;
                    writers = refl;
                    name = refl;
                    namespace = refl;
                    participant = refl;
                  },
                  others-set_node h (set_node g n1) n2 own ∙ o1,
                  cr,
                  cw,
                  free,
                )
          ]
