-- ===== src/Tests/Registry.antt =====
-- Registration, unregistration and the search for handles at concrete graphs.
use rticonnextdds_ros2_adapt.Common.{
  length, ◌≤◌, not, ◌||◌, ◌&&◌, is_some, is_none, ℤ, pos, inc32, codes, str_eq, starts_with, true,
  none, some, [], ◌∷◌, ◌⊎◌, ◌≡◌, ◌≢◌, refl, arith, ok, bad_parameter, if◌then◌else◌, eq_ℤ,
}
use rticonnextdds_ros2_adapt.Nodes.Accepts.{CanRegister, register_local_node_accepts}
use rticonnextdds_ros2_adapt.Endpoints.Accepts.{acceptable, register_local_endpoint_accepts}
use rticonnextdds_ros2_adapt.Nodes.{bad_name, bad_namespace}
use rticonnextdds_ros2_adapt.Types.{publisher, client, invalid_handle, Graph, Node}
use rticonnextdds_ros2_adapt.Names.{detect_endpoint_type}
use rticonnextdds_ros2_adapt.InlineList.{find, find_key, replace, remove}
use rticonnextdds_ros2_adapt.Handles.{next_handle_loop, next_handle}
use rticonnextdds_ros2_adapt.Handles.Total.{taken, next_handle_total}
use rticonnextdds_ros2_adapt.Lookup.{
  node_key, name_matches, lookup_local_node_by_name, lookup_local_node_by_handle,
  lookup_local_endpoint_by_handle, lookup_local_endpoint_by_dds_endpoints, dds_matches,
}
use rticonnextdds_ros2_adapt.Endpoints.{
  set_node, next_endpoint_handle, add_endpoint, insert_endpoint, register_local_endpoint,
  queue_update, unregister_local_endpoint_by_handle,
}
use rticonnextdds_ros2_adapt.Endpoints.Register.{
  Refused, Accepted, register_local_endpoint_outcome, SameNode,
}
use rticonnextdds_ros2_adapt.Nodes as NodeRegistry
use rticonnextdds_ros2_adapt.Nodes.{
  next_node_handle, add_node, is_polling_enabled, poll_node, fill_node, register_checked,
  or_default, namespace_or_default,
}
use rticonnextdds_ros2_adapt.Nodes.Register.{AllOrNothing, register_local_node-AllOrNothing}
use rticonnextdds_ros2_adapt.Invariant.{GraphOk}
use rticonnextdds_ros2_adapt.Api.{
  announce, register_local_subscription, register_local_publisher, register_local_client,
  register_local_node, unregister_local_node, get_node_name, get_node_participant,
}
use rticonnextdds_ros2_adapt.Api.Session.{
  register_node, register_client, unregister_node, run, initial, run-initial-GraphOk,
}
use rticonnextdds_ros2_adapt.Api.Endpoints.{ReadsBack, register_local_client-ReadsBack}
use rticonnextdds_ros2_adapt.Api.Nodes.{register_local_node-get, unregister_local_node_outcome}
use rticonnextdds_ros2_adapt.Endpoints.RoundTrip.{register_local_endpoint-unregister}
use rticonnextdds_ros2_adapt.Nodes.Own.{others}
use rticonnextdds_ros2_adapt.Tests.Graphs.{
  chatter, talker-CountsOk, dds, never, talker, talking, empty, with_node, empty-GraphOk,
  talker-GraphOk, talking-GraphOk,
}

run-initial-GraphOk_example : GraphOk (
    run (initial (some 1) never) (
      (dds, register_node (some (codes "talker")) none none)
      ∷ (dds, register_client (pos 0) (some 2) (some 2))
      ∷ (dds, unregister_node (pos 0))
      ∷ []))
run-initial-GraphOk_example = run-initial-GraphOk (some 1) never _

registry : Unit {0}
unfolding find find_key replace remove inc32 str_eq starts_with next_handle_loop next_handle
    detect_endpoint_type name_matches lookup_local_node_by_name lookup_local_node_by_handle
    lookup_local_endpoint_by_handle lookup_local_endpoint_by_dds_endpoints dds_matches set_node
    next_endpoint_handle add_endpoint insert_endpoint register_local_endpoint queue_update announce
registry = tt

nodes : Unit {0}
unfolding registry next_node_handle add_node is_polling_enabled poll_node fill_node register_checked
    NodeRegistry.register_local_node register_local_node
nodes = tt

register_local_node-AllOrNothing_example :
    AllOrNothing empty
      (codes "talker")
      (codes "/")
      (some 1)
      (NodeRegistry.register_local_node dds empty (some (codes "talker")) none none)
register_local_node-AllOrNothing_example =
    register_local_node-AllOrNothing dds empty (codes "talker") none none empty-GraphOk

first_handle : (register_local_node dds (some empty) (some (codes "talker")) none none).1 ≡ pos 0
unfolding nodes
first_handle = refl

first_valid :
    (register_local_node dds (some empty) (some (codes "talker")) none none).1 ≢ invalid_handle
first_valid e = cc first_handle

register_local_node-get_example :
    let q = register_local_node dds (some empty) (some (codes "talker")) none none in
    (get_node_name q.0 q.1 true true ≡ (ok, some (codes "talker"), some (codes "/")))
    × (get_node_participant q.0 q.1 ≡ some 1)
register_local_node-get_example =
    register_local_node-get dds empty (codes "talker") none none empty-GraphOk first_valid

unregister_local_node_outcome_example :
    ((lookup_local_node_by_handle (with_node talking) (pos 0) ≡ none)
      × (unregister_local_node (some (with_node talking)) (pos 0)
          ≡ some (some (with_node talking), bad_parameter)))
    ⊎ ((g' : Graph) × (unregister_local_node (some (with_node talking)) (pos 0)
          ≡ some (some g', ok))
        × (lookup_local_node_by_handle (with_node talking) (pos 0) ≢ none)
        × ((k : ℤ)
            → lookup_local_node_by_handle g' k ≡ (
                if eq_ℤ (pos 0) k then none else lookup_local_node_by_handle (with_node talking) k))
        × (g'.sem_pinfo ≡ 0))
unregister_local_node_outcome_example =
    unregister_local_node_outcome (with_node talking) (pos 0) talking-GraphOk

register_local_endpoint_outcome_example :
    Refused
      (with_node talker)
      (pos 0)
      (register_local_endpoint dds (with_node talker) (pos 0) publisher none (some 1))
    ⊎ Accepted dds
        (with_node talker)
        (pos 0)
        publisher
        none
        (some 1)
        (register_local_endpoint dds (with_node talker) (pos 0) publisher none (some 1))
register_local_endpoint_outcome_example =
    register_local_endpoint_outcome dds (with_node talker) (pos 0) publisher none (some 1)
      talker-GraphOk

client_handle :
    (register_local_client dds (some (with_node talker)) (pos 0) (some 2) (some 2)).1 ≡ pos 0
unfolding registry register_local_client
client_handle = refl

register_local_client-ReadsBack_example :
    ReadsBack dds
      (pos 0)
      client
      (some 2)
      (some 2)
      (register_local_client dds (some (with_node talker)) (pos 0) (some 2) (some 2))
register_local_client-ReadsBack_example =
    register_local_client-ReadsBack dds (with_node talker) (pos 0) 2 2 talker-GraphOk
      (λ e. cc client_handle)

subscription_handle :
    (register_local_subscription dds (some (with_node talking)) (pos 0) (some 1)).1 ≡ pos 1
unfolding registry register_local_subscription
subscription_handle = refl

publisher_handle :
    (register_local_publisher dds (some (with_node talker)) (pos 0) (some 1)).1 ≡ pos 0
unfolding registry register_local_publisher
publisher_handle = refl

next_handle_total_example : (next_handle (taken node_key (talker ∷ [])) (pos 0)).0 ≢ invalid_handle
next_handle_total_example =
    next_handle_total node_key (talker ∷ []) (pos 0) (omega arith) (omega arith)

publisher_registered :
    (register_local_endpoint dds (with_node talker) (pos 0) publisher none (some 1)).1
    ≡ some chatter
unfolding registry
publisher_registered = refl

register_local_endpoint-unregister_example :
    let u =
      unregister_local_endpoint_by_handle
        (register_local_endpoint dds (with_node talker) (pos 0) publisher none (some 1)).0
        (pos 0)
        (pos 0) in
    (n : Node) × (m : Node) × (u.1 ≡ ok)
    × (others (pos 0) u.0 ≡ others (pos 0) (with_node talker))
    × (lookup_local_node_by_handle (with_node talker) (pos 0) ≡ some n)
    × (lookup_local_node_by_handle u.0 (pos 0) ≡ some m)
    × SameNode n m
register_local_endpoint-unregister_example =
    register_local_endpoint-unregister dds (with_node talker) (pos 0) publisher none (some 1)
      talker-GraphOk (talker-CountsOk, tt) publisher_registered

dds_can : CanRegister dds empty
dds_can = record { nodes = λ g. refl; strings = λ g s. refl; still = refl }

register_local_node_accepts_example :
    not (
      eq_ℤ
        (NodeRegistry.register_local_node dds empty (some (codes "talker")) none none).1
        invalid_handle)
    ≡ (not (bad_name (some (codes "talker")) || bad_namespace none)
        && is_none (lookup_local_node_by_name empty (codes "talker") none))
register_local_node_accepts_example =
    register_local_node_accepts dds empty (codes "talker") none none empty-GraphOk (omega arith)
      dds_can

talker_room :
    (n : Node)
    → lookup_local_node_by_handle (with_node talker) (pos 0) ≡ some n
    → length n.endpoints ≤ 1073741821
unfolding registry
talker_room n found = let same : talker ≡ n = cc found in rw (← same) (omega arith)

register_local_endpoint_accepts_example :
    is_some (register_local_endpoint dds (with_node talker) (pos 0) publisher none (some 1)).1
    ≡ acceptable dds (with_node talker) (pos 0) publisher none (some 1)
register_local_endpoint_accepts_example =
    register_local_endpoint_accepts dds (with_node talker) (pos 0) publisher none (some 1)
      talker-GraphOk talker_room (λ g. refl)
