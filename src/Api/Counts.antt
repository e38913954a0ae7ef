-- ===== src/Api/Counts.antt =====
-- The counters of readers and writers through sequences of calls.
use rticonnextdds_ros2_adapt.Common.{true, List}
use rticonnextdds_ros2_adapt.Types.{Ptr, Duration, Dds}
use rticonnextdds_ros2_adapt.Endpoints.{new_endpoint}
use rticonnextdds_ros2_adapt.Invariant.Counts.{
  AllCountsOk, CountsOk, kept-CountsOk, new-CountsOk, add_endpoint-CountsOk, drop_endpoint-CountsOk,
}
use rticonnextdds_ros2_adapt.Api.Session.{Call, run, initial}
use rticonnextdds_ros2_adapt.Api.Each.{Fitting, run-Each}

-- Calls that inspect no node, in DDS environments for which the poll period of the graph is zero.
abbrev pub Uninspected : Duration → List (Dds × Call) → Type 0
Uninspected = Fitting (λ r w. true)

-- After any sequence of calls that inspect no node, on a new graph with a poll period of zero, in any
-- DDS environments, the counters of readers and of writers of each node are the numbers of its
-- endpoints with a reader, and with a writer, modulo 2^64.
pub run-AllCountsOk :
    (participant : Ptr) (period : Duration) (cs : List (Dds × Call))
    → Uninspected period cs
    → AllCountsOk (run (initial participant period) cs)
run-AllCountsOk =
    run-Each CountsOk kept-CountsOk new-CountsOk (λ r w. true)
      (λ n k t r w _. add_endpoint-CountsOk n (new_endpoint k t r w)) drop_endpoint-CountsOk
