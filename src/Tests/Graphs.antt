-- ===== src/Tests/Graphs.antt =====
-- A DDS environment with the entities of a service and of a client of it, and graphs that are
-- well-formed.
use rticonnextdds_ros2_adapt.Common.{
  ℕ, pos, CString, codes, ◌==◌, if◌then◌else◌, true, false, some, [], ◌∷◌, ◌≡◌, refl, arith,
}
use rticonnextdds_ros2_adapt.Types.{
  publisher, Endpoint, def_endp, Node, def_node, Duration, Graph, Dds,
}
use rticonnextdds_ros2_adapt.Invariant.{NodeOk, GraphOk}
use rticonnextdds_ros2_adapt.Invariant.Counts.{CountsOk, count}

-- The topics of readers and writers 1 to 3.
abbrev pub reader_topic : ℕ → CString
reader_topic p =
    if p == 1 then codes "rt/chatter" else if p == 2 then codes "rr/add" else codes "rq/add"

abbrev pub writer_topic : ℕ → CString
writer_topic p =
    if p == 1 then codes "rt/chatter" else if p == 2 then codes "rq/add" else codes "rr/add"

abbrev pub dds : Dds
dds = record {
  reader_topic = reader_topic;
  writer_topic = writer_topic;
  get_publishers = λ p. some (1 ∷ []);
  get_all_datawriters = λ p. some (1 ∷ []);
  get_subscribers = λ p. some (1 ∷ []);
  get_all_datareaders = λ p. some (1 ∷ []);
  duration_is_zero = λ t. t.nanosec == 0;
  duration_is_infinite = λ t. false;
  node_buffer = λ g. true;
  endpoint_buffer = λ g. true;
  string_dup = λ g s. true;
}

-- A poll period of no time.
abbrev pub never : Duration
never = record { sec = pos 0; nanosec = 0 }

abbrev pub talker : Node
talker = record def_node {
  handle = pos 0;
  node_name = codes "talker";
  node_namespace = codes "/";
  dds_participant = some 1;
}

-- A publisher with the writer 1.
abbrev pub chatter : Endpoint
chatter = record def_endp { handle = pos 0; endp_type = publisher; dds_writer = some 1 }

abbrev pub talking : Node
talking = record talker {
  endpoints = chatter ∷ [];
  endpoints_len = 1;
  writers_len = 1;
  endp_handle_next = pos 1;
}

abbrev pub empty : Graph
empty = record {
  nodes = [];
  nodes_len = 0;
  node_handle_next = pos 0;
  graph_participant = some 1;
  sem_pinfo = 0;
  poll_period = never;
  participants = [];
}

abbrev pub with_node : Node → Graph
with_node n = record empty { nodes = n ∷ []; nodes_len = 1; node_handle_next = pos 1 }

pub empty-GraphOk : GraphOk empty
empty-GraphOk = record { unique = tt; valid = tt; counted = refl; counter = omega arith; each = tt }

pub talker-NodeOk : NodeOk talker
talker-NodeOk = record { unique = tt; valid = tt; counted = refl; counter = omega arith }

pub talking-NodeOk : NodeOk talking
talking-NodeOk = record {
  unique = (tt, tt);
  valid = (omega arith, tt);
  counted = refl;
  counter = omega arith;
}

with_node-GraphOk : (n : Node) → n.handle ≡ pos 0 → NodeOk n → GraphOk (with_node n)
with_node-GraphOk n h v = record {
  unique = (tt, tt);
  valid = (rw h (omega arith), tt);
  counted = refl;
  counter = omega arith;
  each = (v, tt);
}

pub talker-GraphOk : GraphOk (with_node talker)
talker-GraphOk = with_node-GraphOk talker refl talker-NodeOk

pub talking-GraphOk : GraphOk (with_node talking)
talking-GraphOk = with_node-GraphOk talking refl talking-NodeOk

pub talker-CountsOk : CountsOk talker
unfolding count
talker-CountsOk true = refl
talker-CountsOk false = refl

pub talking-CountsOk : CountsOk talking
unfolding count
talking-CountsOk true = refl
talking-CountsOk false = refl
