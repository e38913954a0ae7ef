-- ===== src/Update/Sessions.antt =====
-- From sequences of calls to the samples of the update behind them.
use rticonnextdds_ros2_adapt.Common.{
  ℕ, suc, ℤ, int_max, length, ◌≢◌, Bool, true, is_none, is_some, ◌&&◌, ◌||◌, All, none, some, List,
  [], ◌∷◌, ◌≡◌, refl,
}
use rticonnextdds_ros2_adapt.Types.{Ptr, EndpointType, Node, Graph, Duration, Dds}
use rticonnextdds_ros2_adapt.Handles.Bound.{handles_bound}
use rticonnextdds_ros2_adapt.Lookup.{node_key, endp_key}
use rticonnextdds_ros2_adapt.Endpoints.{new_endpoint}
use rticonnextdds_ros2_adapt.Invariant.{NodeOk}
use rticonnextdds_ros2_adapt.Api.Session.{Call, run, initial, run-initial-GraphOk}
use rticonnextdds_ros2_adapt.Publish.{ParticipantInfo}
use rticonnextdds_ros2_adapt.Publish.Convert.{IsPlain}
use rticonnextdds_ros2_adapt.Publish.Sample.{IsSingle}
use rticonnextdds_ros2_adapt.Update.{Round, update_round}
use rticonnextdds_ros2_adapt.Update.OneRound.{IsQuiet, TellsAll, update_round-TellsAll}
use rticonnextdds_ros2_adapt.Update.Sent.{IsPublishable}
use rticonnextdds_ros2_adapt.Update.Counted.{
  Counted, kept-Counted, new-Counted, add-Counted, drop-Counted,
}
use rticonnextdds_ros2_adapt.Api.Each.{Fitting, run-Each}

-- Not all of the 2^31 handles are in use for the nodes, or for the endpoints of one node.
abbrev pub IsNotFull : Graph → Type 0
IsNotFull g = (length g.nodes ≢ suc int_max) × All (λ n. length n.endpoints ≢ suc int_max) g.nodes

all-IsPlain :
    (ns : List Node)
    → All NodeOk ns
    → All Counted ns
    → All (λ n. length n.endpoints ≢ suc int_max) ns
    → All IsPlain ns
all-IsPlain [] v c f = tt
all-IsPlain (n ∷ ns) v c f = (
  record {
    counts = c.0.counts;
    bound = handles_bound endp_key n.endpoints v.0.unique v.0.valid f.0;
    single = c.0.single;
  },
  all-IsPlain ns v.1 c.1 f.1,
)

-- A reader or a writer and not both.
abbrev pub one_of : Ptr → Ptr → Bool
one_of r w = is_none r && is_some w || is_some r && is_none w

-- Registrations of subscriptions and publishers alone.
abbrev pub Simple : Duration → List (Dds × Call) → Type 0
Simple = Fitting one_of

new-IsSingle :
    (k : ℤ) (t : EndpointType) (r w : Ptr) → one_of r w ≡ true → IsSingle (new_endpoint k t r w)
new-IsSingle k t none none one = absurd (cc one)
new-IsSingle k t none (some w) one = refl
new-IsSingle k t (some r) none one = refl
new-IsSingle k t (some r) (some w) one = absurd (cc one)

-- After such calls on a new graph every sample of the graph is complete.
run-IsPublishable :
    (participant : Ptr) (period : Duration) (cs : List (Dds × Call))
    → Simple period cs
    → IsNotFull (run (initial participant period) cs)
    → IsPublishable (run (initial participant period) cs)
run-IsPublishable participant period cs simple (f, fs) =
    let g = run (initial participant period) cs in
    let v = run-initial-GraphOk participant period cs in
    let c =
      run-Each Counted kept-Counted new-Counted one_of
        (λ n k t r w one. add-Counted n (new_endpoint k t r w) (new-IsSingle k t r w one))
        drop-Counted participant period cs simple in
    record {
      valid = v;
      bound = handles_bound node_key g.nodes v.unique v.valid f;
      plain = all-IsPlain g.nodes v.each c fs;
    }

-- After calls that inspect no node and register neither clients nor services, on a new graph with a
-- poll period of zero, in any order and in any DDS environments, the next round of the update thread,
-- in which no other thread changes the graph, every sample is written and memory suffices, tells all
-- if an update is signalled, unless all of the 2^31 handles are in use for nodes, or for the endpoints
-- of one node: it consumes the signal, and for each reader and each writer of each
-- endpoint of each node, a sample that is written has the gid of the node's participant, and in it an
-- entry with the node's names has the gid of the reader or the writer.
pub run-TellsAll :
    (participant : Ptr) (period : Duration) (cs : List (Dds × Call)) (r : Round)
    (pinfo : ParticipantInfo) (k : ℕ)
    → Simple period cs
    → IsQuiet r
    → IsNotFull (run (initial participant period) cs)
    → (run (initial participant period) cs).sem_pinfo ≡ suc k
    → let g = run (initial participant period) cs in
      (g' : Graph) × (pinfo' : ParticipantInfo) × (sent : List ParticipantInfo) × (update_round r g
          pinfo
        ≡ some (g', pinfo', sent))
      × (g'.sem_pinfo ≡ 0)
      × TellsAll r.entities g sent
run-TellsAll participant period cs r pinfo k simple quiet free signalled =
    update_round-TellsAll r (run (initial participant period) cs) pinfo k quiet
      (run-IsPublishable participant period cs simple free) signalled
