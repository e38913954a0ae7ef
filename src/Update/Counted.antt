-- ===== src/Update/Counted.antt =====
-- Nodes of which the sample is complete, through the operations on endpoints.
use rticonnextdds_ros2_adapt.Common.{All, All-append, some, [], ◌∷◌, ◌≡◌}
use rticonnextdds_ros2_adapt.Types.{Endpoint, Node, def_node}
use rticonnextdds_ros2_adapt.InlineList.{find_key, All-remove}
use rticonnextdds_ros2_adapt.Lookup.{endp_key}
use rticonnextdds_ros2_adapt.Endpoints.{add_endpoint, drop_endpoint}
use rticonnextdds_ros2_adapt.Invariant.Counts.{
  CountsOk, kept-CountsOk, new-CountsOk, add_endpoint-CountsOk, drop_endpoint-CountsOk,
}
use rticonnextdds_ros2_adapt.Invariant.EachNode.{SameEndpoints}
use rticonnextdds_ros2_adapt.Publish.Sample.{IsSingle}

-- A node with right counters, and with a reader or a writer at each endpoint and not both.
pub record Counted (n : Node) : Type 0 where
  pub counts : CountsOk n
  pub single : All IsSingle n.endpoints

pub kept-Counted : (n m : Node) → SameEndpoints n m → Counted n → Counted m
kept-Counted n m s c = record {
  counts = kept-CountsOk n m s c.counts;
  single = rw s.endpoints c.single;
}

pub new-Counted : (n : Node) → SameEndpoints def_node n → Counted n
new-Counted n s = record { counts = new-CountsOk n s; single = rw s.endpoints tt }

pub add-Counted : (n : Node) (e : Endpoint) → IsSingle e → Counted n → Counted (add_endpoint n e)
unfolding add_endpoint
add-Counted n e one c = record {
  counts = add_endpoint-CountsOk n e c.counts;
  single = All-append IsSingle n.endpoints (e ∷ []) c.single (one, tt);
}

pub drop-Counted :
    (n : Node) (e : Endpoint)
    → find_key endp_key e.handle n.endpoints ≡ some e
    → Counted n
    → Counted (drop_endpoint n e)
unfolding drop_endpoint
drop-Counted n e found c = record {
  counts = drop_endpoint-CountsOk n e found c.counts;
  single = All-remove endp_key IsSingle e.handle n.endpoints c.single;
}
