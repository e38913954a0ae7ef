-- ===== src/Lookup.antt =====
-- The lookups of src/adapter_c/graph_impl.c (lines 479 to 608): each is a loop from the front of an
-- inline list that returns the first entry which passes its test, or NULL.
pub mod Listed
use rticonnextdds_ros2_adapt.Common.{
  ℕ, ℤ, CString, codes, str_eq, Bool, true, false, not, ◌&&◌, ◌||◌, is_some, is_none, if◌then◌else◌,
  Option, none, some,
}
use rticonnextdds_ros2_adapt.Types.{Ptr, ptr_eq, Endpoint, Node, Graph, Dds}
use rticonnextdds_ros2_adapt.InlineList.{find, find_key}

-- `self->nodes` and `node->endpoints`, by handle.
abbrev pub node_key : Node → ℤ
node_key n = n.handle

abbrev pub endp_key : Endpoint → ℤ
endp_key e = e.handle

-- `node_namespace` is NULL or the namespace asked for; that of a node in the list is not NULL.
unfoldable pub name_matches : CString → Option CString → Node → Bool
name_matches name none n =
    str_eq n.node_name name && (str_eq n.node_namespace (codes "/") && true || false)
name_matches name (some ns) n =
    str_eq n.node_name name
    && (str_eq n.node_namespace (codes "/") && str_eq ns (codes "/") || str_eq n.node_namespace ns)

unfoldable pub lookup_local_node_by_name : Graph → CString → Option CString → Option Node
lookup_local_node_by_name g name namespace = find (name_matches name namespace) g.nodes

unfoldable pub lookup_local_node_by_handle : Graph → ℤ → Option Node
lookup_local_node_by_handle g handle = find_key node_key handle g.nodes

unfoldable pub lookup_local_endpoint_by_handle : Node → ℤ → Option Endpoint
lookup_local_endpoint_by_handle n handle = find_key endp_key handle n.endpoints

unfoldable pub dds_matches : Ptr → Ptr → Endpoint → Bool
dds_matches reader writer e =
    (is_none reader || ptr_eq e.dds_reader reader) && (is_none writer || ptr_eq e.dds_writer writer)

unfoldable pub lookup_local_endpoint_by_dds_endpoints : Node → Ptr → Ptr → Option Endpoint
lookup_local_endpoint_by_dds_endpoints n reader writer =
    find (dds_matches reader writer) n.endpoints

-- The topic name that the loop compares, or NULL.
unfoldable pub endp_topic_name : Dds → Bool → Ptr → Ptr → Option CString
endp_topic_name d true r (some w) = some (d.writer_topic w)
endp_topic_name d true (some r) none = some (d.reader_topic r)
endp_topic_name d true none none = none
endp_topic_name d false (some r) w = some (d.reader_topic r)
endp_topic_name d false none w = none

unfoldable pub topic_matches : Dds → CString → Bool → Endpoint → Bool
unfolding endp_topic_name
topic_matches d topic writer e = elim (endp_topic_name d writer e.dds_reader e.dds_writer) [
  | none ↦ false
  | some t ↦ str_eq topic t
]

unfoldable pub lookup_local_endpoint_by_topic_name : Dds → Node → CString → Bool → Option Endpoint
lookup_local_endpoint_by_topic_name d n topic writer =
    find (topic_matches d topic writer) n.endpoints
