-- ===== src/Spec.antt =====
-- What the registry of src/adapter_c/graph.c promises its clients, without lists, counters and
-- pools: a finite map from handles to nodes, each with a map from handles to endpoints. A call may
-- do what `Allowed` says and nothing else.
pub mod View
pub mod Changes
pub mod Lookups
pub mod Endpoints
pub mod Removal
pub mod Extension
pub mod Inspection
pub mod Nodes
pub mod Refines
pub mod Names
pub mod Persistence
use mathlib.Core.Option
use rticonnextdds_ros2_adapt.Common.{
  ℤ, eq_ℤ, CString, str_eq, Bool, true, false, ◌&&◌, ◌||◌, is_none, if◌then◌else◌, Option, none,
  some, List, [], ◌∷◌, ◌≡◌, ◌⊎◌, inl, inr, ReturnCode, ok, error, bad_parameter,
}
use rticonnextdds_ros2_adapt.Types.{
  Ptr, ptr_eq, EndpointType, subscription, publisher, client, service, invalid_handle, Endpoint,
  Node, Graph, Dds,
}
use rticonnextdds_ros2_adapt.InlineList.{find_key}
use rticonnextdds_ros2_adapt.Handles.Fresh.{IsHandle}
use rticonnextdds_ros2_adapt.Lookup.{node_key, endp_key}
use rticonnextdds_ros2_adapt.Endpoints.{conforms}
use rticonnextdds_ros2_adapt.Nodes.{or_default, namespace_or_default}
use rticonnextdds_ros2_adapt.Api.Session.{Call}

pub record AbsEndpoint : Type 0 where
  pub kind : EndpointType
  pub reader : Ptr
  pub writer : Ptr

pub record AbsNode : Type 0 where
  pub name : CString
  pub namespace : CString
  pub participant : Ptr
  pub entries : ℤ → Option AbsEndpoint

abbrev pub AbsGraph : Type 0
AbsGraph = ℤ → Option AbsNode

-- A map with another value at one handle.
abbrev pub update : {A : Type 0} → (ℤ → Option A) → ℤ → Option A → ℤ → Option A
update f k v j = if eq_ℤ k j then v else f j

abbrev pub with_entries : AbsNode → (ℤ → Option AbsEndpoint) → AbsNode
with_entries n f = record n { entries = f }

-- What a list of entries with handles looks like from outside.
abbrev pub view : {A B : Type 0} → (A → ℤ) → (A → B) → List A → ℤ → Option B
view key f xs k = Option.map f (find_key key k xs)

abbrev pub abs_endpoint : Endpoint → AbsEndpoint
abs_endpoint e = record { kind = e.endp_type; reader = e.dds_reader; writer = e.dds_writer }

abbrev pub abs_node : Node → AbsNode
abs_node n = record {
  name = n.node_name;
  namespace = n.node_namespace;
  participant = n.dds_participant;
  entries = view endp_key abs_endpoint n.endpoints;
}

abbrev pub abs : Graph → AbsGraph
abs g = view node_key abs_node g.nodes

-- How a call names the endpoint that it unregisters: by its handle, or by the DDS entities that it
-- has, a NULL one matching any.
pub data Selector : Type 0 where
  by_handle : ℤ → Selector
  by_entities : Ptr → Ptr → Selector

abbrev pub matches : Ptr → Ptr → AbsEndpoint → Bool
matches r w e = (is_none r || ptr_eq e.reader r) && (is_none w || ptr_eq e.writer w)

abbrev pub selects : Selector → ℤ → AbsEndpoint → Bool
selects (by_handle k) j e = eq_ℤ j k
selects (by_entities r w) j e = matches r w e

-- The calls, with the registrations and the unregistrations of the four types of endpoint as one.
-- The last two are those with a NULL argument.
pub data Request : Type 0 where
  add_node : Option CString → Option CString → Ptr → Request
  inspect remove_node : ℤ → Request
  add_endpoint : ℤ → EndpointType → Ptr → Ptr → Request
  remove_endpoint : ℤ → Selector → Request
  malformed_add malformed_remove : Request

abbrev pub request_of : Call → Request
request_of (Call.register_node name ns p) = add_node name ns p
request_of (Call.inspect_node h) = inspect h
request_of (Call.unregister_node h) = remove_node h
request_of (Call.register_subscription h none) = malformed_add
request_of (Call.register_subscription h (some r)) = add_endpoint h subscription (some r) none
request_of (Call.register_publisher h none) = malformed_add
request_of (Call.register_publisher h (some w)) = add_endpoint h publisher none (some w)
request_of (Call.register_client h none w) = malformed_add
request_of (Call.register_client h (some r) none) = malformed_add
request_of (Call.register_client h (some r) (some w)) = add_endpoint h client (some r) (some w)
request_of (Call.register_service h none w) = malformed_add
request_of (Call.register_service h (some r) none) = malformed_add
request_of (Call.register_service h (some r) (some w)) = add_endpoint h service (some r) (some w)
request_of (Call.unregister_subscription h none) = malformed_remove
request_of (Call.unregister_subscription h (some r)) = remove_endpoint h (by_entities (some r) none)
request_of (Call.unregister_publisher h none) = malformed_remove
request_of (Call.unregister_publisher h (some w)) = remove_endpoint h (by_entities none (some w))
request_of (Call.unregister_client h none w) = malformed_remove
request_of (Call.unregister_client h (some r) none) = malformed_remove
request_of (Call.unregister_client h (some r) (some w)) =
    remove_endpoint h (by_entities (some r) (some w))
request_of (Call.unregister_service h none w) = malformed_remove
request_of (Call.unregister_service h (some r) none) = malformed_remove
request_of (Call.unregister_service h (some r) (some w)) =
    remove_endpoint h (by_entities (some r) (some w))
request_of (Call.unregister_handle h k) = remove_endpoint h (by_handle k)

abbrev pub Answer : Type 0
Answer = ℤ ⊎ ReturnCode

-- No node has the name and the namespace.
abbrev pub NameFree : AbsGraph → CString → CString → Type 0
NameFree a name ns =
    (h : ℤ) (n : AbsNode) → a h ≡ some n → (str_eq n.name name && str_eq n.namespace ns) ≡ false

-- A node is there, and no endpoint of it passes a test; or the node is not there.
abbrev pub NoEntry : AbsGraph → ℤ → (ℤ → AbsEndpoint → Bool) → Type 0
NoEntry a h test =
    (n : AbsNode) (k : ℤ) (e : AbsEndpoint) → a h ≡ some n → n.entries k ≡ some e → test k e ≡ false

-- A DDS entity that an endpoint had is kept; one that it had not may be filled in.
abbrev pub Fills : Ptr → Ptr → Type 0
Fills p q = (p ≡ none) ⊎ (q ≡ p)

abbrev pub EntryExtends : AbsEndpoint → AbsEndpoint → Type 0
EntryExtends e e' = (e'.kind ≡ e.kind) × Fills e.reader e'.reader × Fills e.writer e'.writer

-- A node after an inspection: nothing of it is lost or changed.
pub record Extends (n m : AbsNode) : Type 0 where
  pub name : m.name ≡ n.name
  pub namespace : m.namespace ≡ n.namespace
  pub participant : m.participant ≡ n.participant
  pub entries :
      (k : ℤ) (e : AbsEndpoint)
      → n.entries k ≡ some e
      → (e' : AbsEndpoint) × (m.entries k ≡ some e') × EntryExtends e e'

-- What a request may do and answer: `q` is the participant of the graph, `a` and `b` are the maps
-- before and after. A registration may always be refused, for want of memory; it may be accepted
-- only as it says here.
pub data Allowed (d : Dds) (q : Ptr) (a : AbsGraph) : Request → Answer → AbsGraph → Type 0 where
  refused_node :
      {name ns : Option CString} {p : Ptr}
      → Allowed d q a (add_node name ns p) (inl invalid_handle) a
  added_node :
      {name : CString} {ns : Option CString} {p : Ptr} {h : ℤ} {b : AbsGraph} (n : AbsNode)
      → IsHandle h
      → a h ≡ none
      → NameFree a name (namespace_or_default ns)
      → n.name ≡ name
      → n.namespace ≡ namespace_or_default ns
      → n.participant ≡ or_default p q
      → b ≡ update a h (some n)
      → Allowed d q a (add_node (some name) ns p) (inl h) b
  no_node_to_inspect : {h : ℤ} → a h ≡ none → Allowed d q a (inspect h) (inr error) a
  inspected :
      {h : ℤ} {rc : ReturnCode} {b : AbsGraph} (n m : AbsNode)
      → (rc ≡ ok) ⊎ (rc ≡ error)
      → a h ≡ some n
      → Extends n m
      → b ≡ update a h (some m)
      → Allowed d q a (inspect h) (inr rc) b
  no_node_to_remove : {h : ℤ} → a h ≡ none → Allowed d q a (remove_node h) (inr bad_parameter) a
  removed_node :
      {h : ℤ} {b : AbsGraph} (n : AbsNode)
      → a h ≡ some n
      → b ≡ update a h none
      → Allowed d q a (remove_node h) (inr ok) b
  refused_endpoint :
      {h : ℤ} {t : EndpointType} {r w : Ptr}
      → Allowed d q a (add_endpoint h t r w) (inl invalid_handle) a
  added_endpoint :
      {h k : ℤ} {t : EndpointType} {r w : Ptr} {b : AbsGraph} (n : AbsNode)
      → a h ≡ some n
      → IsHandle k
      → n.entries k ≡ none
      → NoEntry a h (λ _. matches r w)
      → conforms d.reader_topic false t r ≡ true
      → conforms d.writer_topic true t w ≡ true
      → b
        ≡ update a h (
            some (
              with_entries n
                (update n.entries k (some (record { kind = t; reader = r; writer = w })))))
      → Allowed d q a (add_endpoint h t r w) (inl k) b
  no_endpoint_to_remove :
      {h : ℤ} {s : Selector}
      → NoEntry a h (selects s)
      → Allowed d q a (remove_endpoint h s) (inr bad_parameter) a
  removed_endpoint :
      {h k : ℤ} {s : Selector} {b : AbsGraph} (n : AbsNode) (e : AbsEndpoint)
      → a h ≡ some n
      → n.entries k ≡ some e
      → selects s k e ≡ true
      → b ≡ update a h (some (with_entries n (update n.entries k none)))
      → Allowed d q a (remove_endpoint h s) (inr ok) b
  refused_add : Allowed d q a malformed_add (inl invalid_handle) a
  refused_remove : Allowed d q a malformed_remove (inr bad_parameter) a

-- A sequence of requests with its answers, each in its own DDS environment.
pub data Trace (q : Ptr) : AbsGraph → List (Dds × Request) → List Answer → AbsGraph → Type 0 where
  done : {a : AbsGraph} → Trace q a [] [] a
  next :
      {a b c : AbsGraph} {d : Dds} {r : Request} {x : Answer} {rs : List (Dds × Request)}
      {xs : List Answer}
      → Allowed d q a r x b
      → Trace q b rs xs c
      → Trace q a ((d, r) ∷ rs) (x ∷ xs) c
