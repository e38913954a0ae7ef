-- ===== src/Qos.antt =====
-- The QoS of the graph's writer and of its readers: RTIROS2_Graph_customize_datawriter_qos and
-- RTIROS2_Graph_customize_datareader_qos of src/adapter_c/graph.c, and
-- RTIROS2_Graph_get_graph_writer_qos of src/adapter_c/graph_impl.c. A QoS is the fields that the
-- code sets, and the others together as `rest`.
pub mod Consistent
use rticonnextdds_ros2_adapt.Common.{
  ℕ, ℤ, pos, CString, codes, Bool, false, Option, none, some, ReturnCode, ok, error, is_ok,
  if◌then◌else◌,
}
use rticonnextdds_ros2_adapt.Types.{Ptr, Duration}

pub data Durability : Type 0 where
  transient_local : Durability
  other_durability : ℕ → Durability

pub data History : Type 0 where
  keep_last : History
  other_history : ℕ → History

pub data Reliability : Type 0 where
  reliable : Reliability
  other_reliability : ℕ → Reliability

pub record ResourceLimits : Type 0 where
  pub max_samples : ℕ
  pub initial_samples : ℕ
  pub max_instances : ℕ
  pub initial_instances : ℕ
  pub max_samples_per_instance : ℕ

-- `protocol.rtps_reliable_writer`.
pub record ReliableWriter : Type 0 where
  pub heartbeat_period : Duration
  pub fast_heartbeat_period : Duration
  pub late_joiner_heartbeat_period : Duration
  pub min_nack_response_delay : Duration
  pub max_nack_response_delay : Duration
  pub nack_suppression_duration : Duration
  pub min_send_window_size : ℕ
  pub max_send_window_size : ℕ
  pub heartbeats_per_max_samples : ℕ
  pub low_watermark : ℕ
  pub high_watermark : ℕ

pub record WriterQos : Type 0 where
  pub durability : Durability
  pub history : History
  pub depth : ℕ
  pub reliability : Reliability
  pub protocol : ReliableWriter
  pub limits : ResourceLimits
  pub property : ℕ
  pub rest : ℕ

pub record ReaderQos : Type 0 where
  pub durability : Durability
  pub history : History
  pub depth : ℕ
  pub reliability : Reliability
  pub min_heartbeat_response_delay : Duration
  pub max_heartbeat_response_delay : Duration
  pub heartbeat_suppression_duration : Duration
  pub property : ℕ
  pub rest : ℕ

abbrev pub nanos : ℕ → Duration
nanos n = record { sec = pos 0; nanosec = n }

-- DDS_PropertyQosPolicyHelper_assert_property on a property policy: its name, its value and whether it
-- is propagated; `none` where it fails.
abbrev pub AssertProperty : Type 0
AssertProperty = ℕ → CString → CString → Bool → Option ℕ

abbrev pub writer_property : CString
writer_property = codes "dds.data_writer.history.memory_manager.fast_pool.pool_buffer_max_size"

abbrev pub reader_property : CString
reader_property = codes "dds.data_reader.history.memory_manager.fast_pool.pool_buffer_max_size"

abbrev pub buffer_size : CString
buffer_size = codes "1024"

abbrev pub writer_protocol : ReliableWriter
writer_protocol = record {
  heartbeat_period = nanos 500000000;
  fast_heartbeat_period = nanos 250000000;
  late_joiner_heartbeat_period = nanos 250000000;
  min_nack_response_delay = nanos 0;
  max_nack_response_delay = nanos 0;
  nack_suppression_duration = nanos 0;
  min_send_window_size = 1;
  max_send_window_size = 1;
  heartbeats_per_max_samples = 1;
  low_watermark = 0;
  high_watermark = 1;
}

-- The fields that are set before the property.
abbrev pub set_writer_qos : WriterQos → WriterQos
set_writer_qos q = record q {
  durability = transient_local;
  history = keep_last;
  depth = 1;
  reliability = reliable;
  protocol = writer_protocol;
  limits = record {
    max_samples = 1;
    initial_samples = 1;
    max_instances = 1;
    initial_instances = 1;
    max_samples_per_instance = 1;
  };
}

abbrev pub set_reader_qos : ReaderQos → ReaderQos
set_reader_qos q = record q {
  durability = transient_local;
  history = keep_last;
  depth = 1;
  reliability = reliable;
  min_heartbeat_response_delay = nanos 0;
  max_heartbeat_response_delay = nanos 0;
  heartbeat_suppression_duration = nanos 0;
}

-- A `DDS_DataWriterQos *` before and after the call, with the return code.
unfoldable pub customize_datawriter_qos :
    AssertProperty → Option WriterQos → ReturnCode × Option WriterQos
customize_datawriter_qos assert none = (error, none)
customize_datawriter_qos assert (some q) =
    let q1 = set_writer_qos q in
    elim (assert q1.property writer_property buffer_size false) [
      | none ↦ (error, some q1)
      | some p ↦ (ok, some (record q1 { property = p }))
    ]

unfoldable pub customize_datareader_qos :
    AssertProperty → Option ReaderQos → ReturnCode × Option ReaderQos
customize_datareader_qos assert none = (error, none)
customize_datareader_qos assert (some q) =
    let q1 = set_reader_qos q in
    elim (assert q1.property reader_property buffer_size false) [
      | none ↦ (error, some q1)
      | some p ↦ (ok, some (record q1 { property = p }))
    ]

-- The name of the graph's topic, the default QoS of its publisher for that topic, and the helper above.
pub record QosSource : Type 0 where
  pub topic_name : Ptr → Option CString
  pub default_writer_qos : Ptr → CString → Option WriterQos
  pub assert_property : AssertProperty

-- The history of the graph's writer, set behind the customization.
abbrev pub deepen : WriterQos → WriterQos
deepen q = record q {
  depth = 100;
  limits = record {
    max_samples = 100;
    initial_samples = 1;
    max_instances = 1;
    initial_instances = 1;
    max_samples_per_instance = 100;
  };
}

abbrev deepened : ReturnCode × Option WriterQos → ReturnCode × Option WriterQos
deepened (ok, some q) = (ok, some (deepen q))
deepened (ok, none) = (error, none)
deepened (rc, q) = (error, none)

-- The return code and, where it is OK, the QoS; on an error the caller uses none.
unfoldable pub get_graph_writer_qos : QosSource → Ptr → Ptr → ReturnCode × Option WriterQos
unfolding customize_datawriter_qos
get_graph_writer_qos s publisher topic = elim (s.topic_name topic) [
  | none ↦ (error, none)
  | some name ↦ elim (s.default_writer_qos publisher name) [
    | none ↦ (error, none)
    | some q ↦ deepened (customize_datawriter_qos s.assert_property (some q))
  ]
]
