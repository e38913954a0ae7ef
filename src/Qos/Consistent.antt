-- ===== src/Qos/Consistent.antt =====
-- The QoS of the graph's writer obeys the rules of the DDS specification.
use rticonnextdds_ros2_adapt.Common.{
  ◌≤◌, ◌<◌, CString, Option-cases, none, some, ok, error, ◌≡◌, false, refl, ◌⊎◌, inl, inr, arith,
}
use rticonnextdds_ros2_adapt.Types.{Ptr}
use rticonnextdds_ros2_adapt.Qos.{
  WriterQos, transient_local, keep_last, reliable, QosSource, set_writer_qos, deepen,
  writer_property, buffer_size, customize_datawriter_qos, get_graph_writer_qos,
}

-- What the specification asks of a writer's QoS, and what late joiners need of this one: a reliable
-- history of all participants.
pub record IsConsistent (q : WriterQos) : Type 0 where
  pub depth_fits : q.depth ≤ q.limits.max_samples_per_instance
  pub instance_fits : q.limits.max_samples_per_instance ≤ q.limits.max_samples
  pub starts_below : q.limits.initial_samples ≤ q.limits.max_samples
  pub instances_below : q.limits.initial_instances ≤ q.limits.max_instances
  pub watermarks : q.protocol.low_watermark < q.protocol.high_watermark
  pub windows : q.protocol.min_send_window_size ≤ q.protocol.max_send_window_size
  pub heartbeats : q.protocol.heartbeats_per_max_samples ≤ q.limits.max_samples
  pub fast : q.protocol.fast_heartbeat_period.nanosec ≤ q.protocol.heartbeat_period.nanosec
  pub durable : q.durability ≡ transient_local
  pub history : q.history ≡ keep_last
  pub reliability : q.reliability ≡ reliable

-- Where the topic has a name and the publisher a default QoS for it, the QoS of the graph's writer is an
-- error exactly where the property is refused, and else it is consistent, holds 100 samples, has the
-- property asserted and keeps every field of the default that the code does not name.
pub get_graph_writer_qos_lem :
    (s : QosSource) (publisher topic : Ptr) (name : CString) {q0 : WriterQos}
    → s.topic_name topic ≡ some name
    → s.default_writer_qos publisher name ≡ some q0
    → ((s.assert_property q0.property writer_property buffer_size false ≡ none)
        × (get_graph_writer_qos s publisher topic ≡ (error, none)))
      ⊎ ((q : WriterQos) × (s.assert_property q0.property writer_property buffer_size false
            ≡ some q.property)
          × (get_graph_writer_qos s publisher topic ≡ (ok, some q))
          × IsConsistent q
          × (q.depth ≡ 100)
          × (q.rest ≡ q0.rest))
unfolding get_graph_writer_qos
get_graph_writer_qos_lem s publisher topic name {q0} named given =
    elim (Option-cases (s.assert_property q0.property writer_property buffer_size false)) [
      | inl refused ↦
          inl (refused, rw (get_graph_writer_qos, named, given, customize_datawriter_qos, refused))
      | inr (p, set) ↦ inr (
        deepen (record (set_writer_qos q0) { property = p }),
        set,
        rw (get_graph_writer_qos, named, given, customize_datawriter_qos, set),
        ground arith,
        refl,
        refl,
      )
    ]
