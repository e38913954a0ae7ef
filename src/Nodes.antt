-- ===== src/Nodes.antt =====
-- The operations on nodes: RTIROS2_Graph_register_local_node, RTIROS2_Graph_inspect_local_node and
-- RTIROS2_Graph_unregister_local_node of src/adapter_c/graph.c, RTIROS2_Graph_finalize_node and
-- RTIROS2_Graph_next_node_handle of src/adapter_c/graph_impl.c. The part between taking and giving
-- the mutex is one step on the graph.
pub mod Own
pub mod Register
pub mod Settings
pub mod Accepts
use rticonnextdds_ros2_adapt.Common.{
  ℕ, suc, ◌+◌, ℤ, pos, eq_ℤ, inc_size, dec_size, ltb, length, CString, codes, Bool, true, false,
  not, ◌&&◌, ◌||◌, is_some, if◌then◌else◌, Option, none, some, List, [], ◌∷◌, ◌++◌, ReturnCode, ok,
  error, bad_parameter, is_ok,
}
use rticonnextdds_ros2_adapt.Types.{Ptr, invalid_handle, Endpoint, Node, def_node, Graph, Dds}
use rticonnextdds_ros2_adapt.InlineList.{remove}
use rticonnextdds_ros2_adapt.Handles.{next_handle}
use rticonnextdds_ros2_adapt.Lookup.{
  node_key, lookup_local_node_by_handle, lookup_local_node_by_name,
}
use rticonnextdds_ros2_adapt.Endpoints.{set_node, queue_update, drop_endpoint}
use rticonnextdds_ros2_adapt.Inspect.{inspect_local_node_ea}

-- RTIROS2_MAX_NAME_LENGTH and RTIROS2_MAX_NAMESPACE_LENGTH of the IDL data model.
abbrev pub max_name_length : ℕ
max_name_length = 256

abbrev pub max_namespace_length : ℕ
max_namespace_length = 256

-- The check of the user's arguments: true where they are refused.
abbrev pub bad_name : Option CString → Bool
bad_name none = true
bad_name (some []) = true
bad_name (some (c ∷ s)) = ltb max_name_length (length (c ∷ s))

abbrev pub bad_namespace : Option CString → Bool
bad_namespace none = false
bad_namespace (some []) = true
bad_namespace (some (c ∷ s)) = ltb max_namespace_length (length (c ∷ s))

unfoldable pub next_node_handle : Graph → ℤ × Graph
next_node_handle g =
    let (handle, next) =
      next_handle (λ c. is_some (lookup_local_node_by_handle g c)) g.node_handle_next in
    (handle, record g { node_handle_next = next })

-- The loop of RTIROS2_Graph_finalize_node, on the node that is already out of the graph's list.
unfoldable pub finalize_endpoints : Node → List Endpoint → Node
finalize_endpoints n [] = n
finalize_endpoints n (e ∷ es) = finalize_endpoints (drop_endpoint n e) es

-- The graph, the node as it is when its buffer goes back to the pool, and OK.
unfoldable pub finalize_node : Graph → Node → Graph × Node × ReturnCode
finalize_node g node = (
  record g { nodes = remove node_key node.handle g.nodes; nodes_len = dec_size g.nodes_len },
  finalize_endpoints node node.endpoints,
  ok,
)

unfoldable pub is_polling_enabled : Dds → Graph → Bool
is_polling_enabled d g =
    not (d.duration_is_zero g.poll_period) && not (d.duration_is_infinite g.poll_period)

unfoldable pub add_node : Graph → Node → Graph
add_node g n = record g { nodes = g.nodes ++ n ∷ []; nodes_len = inc_size g.nodes_len }

-- `(NULL != p) ? p : q`.
abbrev pub or_default {ℓ} : {A : Type ℓ} → Option A → Option A → Option A
or_default none q = q
or_default (some p) q = some p

abbrev pub namespace_or_default : Option CString → CString
namespace_or_default none = codes "/"
namespace_or_default (some ns) = ns

-- The end of a registration that fails with the node in the list.
abbrev pub undo : Graph → Node → Graph × ℤ
undo g node = ((finalize_node g node).0, invalid_handle)

-- The inspection at the end of a registration, if polling is enabled.
unfoldable pub poll_node : Dds → Graph → Node → Graph × ℤ
poll_node d g node =
    if is_polling_enabled d g
    then (let (g', rc) = inspect_local_node_ea d g node in
        if is_ok rc then (g', node.handle) else undo g' node)
    else (g, node.handle)

-- From the new node in the list on: the copies of the strings, and the update.
unfoldable pub fill_node : Dds → Graph → Node → CString → Option CString → Graph × ℤ
fill_node d g node name namespace =
    if not (d.string_dup g name)
    then undo g node
    else (let node1 = record node { node_name = name } in
        let g1 = set_node g node1 in
        if not (d.string_dup g1 (namespace_or_default namespace))
        then undo g1 node1
        else (let node2 = record node1 { node_namespace = namespace_or_default namespace } in
            poll_node d (queue_update (set_node g1 node2)) node2))

-- The part that holds the mutex, for a name that passes the check.
unfoldable pub register_checked : Dds → Graph → CString → Option CString → Ptr → Graph × ℤ
register_checked d g name namespace participant =
    if is_some (lookup_local_node_by_name g name namespace)
    then (g, invalid_handle)
    else (let (handle, g1) = next_node_handle g in
        if eq_ℤ handle invalid_handle
        then (g1, invalid_handle)
        else if not (d.node_buffer g1)
        then (g1, invalid_handle)
        else (let node = record def_node {
          dds_participant = or_default participant g1.graph_participant;
          handle = handle;
        } in
            fill_node d (add_node g1 node) node name namespace))

unfoldable pub register_local_node : Dds → Graph → Option CString → Option CString → Ptr → Graph × ℤ
register_local_node d g none namespace participant = (g, invalid_handle)
register_local_node d g (some name) namespace participant =
    if bad_name (some name) || bad_namespace namespace
    then (g, invalid_handle)
    else register_checked d g name namespace participant

unfoldable pub inspect_local_node : Dds → Graph → ℤ → Graph × ReturnCode
inspect_local_node d g node_handle = elim (lookup_local_node_by_handle g node_handle) [
  | none ↦ (g, error)
  | some node ↦
      let (g', rc) = inspect_local_node_ea d g node in
      if is_ok rc then (queue_update g', rc) else (g', rc)
]

unfoldable pub unregister_local_node : Graph → ℤ → Graph × ReturnCode
unregister_local_node g node_handle = elim (lookup_local_node_by_handle g node_handle) [
  | none ↦ (g, bad_parameter)
  | some node ↦ let (g', _, rc) = finalize_node g node in if is_ok rc then (g', ok) else (g', error)
]
