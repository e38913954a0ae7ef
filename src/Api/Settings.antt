-- ===== src/Api/Settings.antt =====
-- No call of a public function changes the participant or the poll period of the graph.
use rticonnextdds_ros2_adapt.Common.{Option, none, some, ◌≡◌, refl}
use rticonnextdds_ros2_adapt.Types.{Duration, Ptr, Endpoint, Graph, Dds}
use rticonnextdds_ros2_adapt.Endpoints.{
  queue_update, unregister_local_endpoint, unregister_local_endpoint_by_handle,
}
use rticonnextdds_ros2_adapt.Nodes.Settings.{
  settings, register_local_endpoint-settings, unregister_found-settings,
  register_local_node-settings, inspect_local_node-settings, unregister_local_node-settings,
}
use rticonnextdds_ros2_adapt.Api.{
  announce, register_local_subscription, register_local_publisher, register_local_client,
  register_local_service, unregister_local_subscription, unregister_local_publisher,
  unregister_local_client, unregister_local_service, unregister_by_handle, register_local_node,
  inspect_local_node, unregister_local_node,
}
use rticonnextdds_ros2_adapt.Api.Session.{Call, graph_of, step}

announce-settings :
    (g : Graph) (p : Ptr × Duration) (q : Graph × Option Endpoint)
    → settings q.0 ≡ p
    → settings (graph_of g (announce q).0) ≡ p
unfolding announce queue_update
announce-settings g p (g', none) same = same
announce-settings g p (g', some e) same = same

registers : Unit {0}
unfolding step register_local_subscription register_local_publisher register_local_client
    register_local_service unregister_local_subscription unregister_local_publisher
    unregister_local_client unregister_local_service unregister_by_handle register_local_node
    inspect_local_node unregister_local_node unregister_local_endpoint
    unregister_local_endpoint_by_handle
registers = tt

pub step-settings : (d : Dds) (g : Graph) (c : Call) → settings (step d g c) ≡ settings g
unfolding registers
step-settings d g (Call.register_node name ns p) = register_local_node-settings d g name ns p
step-settings d g (Call.inspect_node h) = inspect_local_node-settings d g h
step-settings d g (Call.unregister_node h) = unregister_local_node-settings g h
step-settings d g (Call.register_subscription h none) = refl
step-settings d g (Call.register_subscription h (some r)) =
    announce-settings g _ _ (register_local_endpoint-settings d g h _ _ _)
step-settings d g (Call.register_publisher h none) = refl
step-settings d g (Call.register_publisher h (some r)) =
    announce-settings g _ _ (register_local_endpoint-settings d g h _ _ _)
step-settings d g (Call.register_client h none w) = refl
step-settings d g (Call.register_client h (some r) none) = refl
step-settings d g (Call.register_client h (some r) (some w)) =
    announce-settings g _ _ (register_local_endpoint-settings d g h _ _ _)
step-settings d g (Call.register_service h none w) = refl
step-settings d g (Call.register_service h (some r) none) = refl
step-settings d g (Call.register_service h (some r) (some w)) =
    announce-settings g _ _ (register_local_endpoint-settings d g h _ _ _)
step-settings d g (Call.unregister_subscription h none) = refl
step-settings d g (Call.unregister_subscription h (some r)) = unregister_found-settings g h _
step-settings d g (Call.unregister_publisher h none) = refl
step-settings d g (Call.unregister_publisher h (some r)) = unregister_found-settings g h _
step-settings d g (Call.unregister_client h none w) = refl
step-settings d g (Call.unregister_client h (some r) none) = refl
step-settings d g (Call.unregister_client h (some r) (some w)) = unregister_found-settings g h _
step-settings d g (Call.unregister_service h none w) = refl
step-settings d g (Call.unregister_service h (some r) none) = refl
step-settings d g (Call.unregister_service h (some r) (some w)) = unregister_found-settings g h _
step-settings d g (Call.unregister_handle h k) = unregister_found-settings g h _
