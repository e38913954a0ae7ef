-- ===== src/Handles.antt =====
-- RTIROS2_Graph_next_node_handle and RTIROS2_Graph_next_endpoint_handle of
-- src/adapter_c/graph_impl.c: the search for a handle that is not in use. The two functions differ
-- only in the list that they search, which is the argument `used` here.
pub mod Fresh
pub mod Total
pub mod Bound
use rticonnextdds_ros2_adapt.Common.{
  ℕ, zero, suc, ℤ, pos, inc32, is_negative, int_max, Bool, true, false, if◌then◌else◌,
}
use rticonnextdds_ros2_adapt.Types.{invalid_handle}

-- One round of the loop: the candidate, and the counter that it leaves.
abbrev pub candidate : ℤ → ℤ
candidate next = if is_negative next then pos 0 else next

abbrev pub counter : ℤ → ℤ
counter next = if is_negative next then pos 0 else inc32 next

-- The loop with the number of tries that are left: the handle, or INVALID, and the counter.
unfoldable pub next_handle_loop : (ℤ → Bool) → ℕ → ℤ → ℤ × ℤ
next_handle_loop used zero next = (invalid_handle, next)
next_handle_loop used (suc tries) next = elim (used (candidate next)) [
  | false ↦ (candidate next, counter next)
  | true ↦ next_handle_loop used tries (counter next)
]

-- INT_MAX tries.
unfoldable pub next_handle : (ℤ → Bool) → ℤ → ℤ × ℤ
next_handle used next = next_handle_loop used int_max next
