-- ===== src/Tests/Shutdown.antt =====
-- The update thread from concrete states.
use rticonnextdds_ros2_adapt.Common.{arith, ℕ, true, false, inr, refl, ◌+◌, ◌≤◌, ◌≡◌, ◌⊎◌}
use rticonnextdds_ros2_adapt.Shutdown.{
  publishing, Worker, waiting, ended, cleared, deleted, State, Faults, enter, leave, continue, work,
  give_exit, clear, give, take, join, delete_thread, Run, stop, next, started,
}
use rticonnextdds_ros2_adapt.Shutdown.Sound.{joined-ended}
use rticonnextdds_ros2_adapt.Shutdown.Live.{EndsWork}
use rticonnextdds_ros2_adapt.Shutdown.Signalled.{Works, Publishes, signal_published}
use rticonnextdds_ros2_adapt.Shutdown.Ends.{IsOver, Moves, shutdown_ends}

-- Only signals may fail.
abbrev reliable : Faults
reliable = record { wake = false; join = false; exit = false; signal = true }

reliable-EndsWork : EndsWork reliable
reliable-EndsWork = record { wake = refl; join = refl; exit = refl }

-- The thread waits, and the finalization has begun.
abbrev ending : State
ending = record started { active = false; worker = waiting; finalizer = cleared }

ending-Run : Run true reliable 2 started ending
ending-Run = next (work enter) (next clear stop)

shutdown_ends_example :
    ((j : ℕ) × (s' : State) × Run true reliable j ending s' × IsOver s')
    × ((j : ℕ) (s' : State)
        → Run true reliable j ending s'
        → (j ≤ 0 + 13) × (Moves true reliable s' ⊎ IsOver s'))
shutdown_ends_example = shutdown_ends ending reliable-EndsWork ending-Run (λ e. absurd (cc))

-- The thread has ended and is deleted.
abbrev over : State
over = record started { active = false; worker = ended; finalizer = deleted; sem_pinfo = 0 }

over-Run : Run true reliable 9 started over
over-Run = next (work enter) (
    next clear (
      next give (
        next (work take) (
          next (work continue)
            (next (work leave) (next give_exit (next join (next delete_thread stop))))))))

joined-ended_example : over.worker ≡ ended
joined-ended_example = joined-ended over refl over-Run (inr refl)

-- Two signals, while the thread publishes an update that was signalled before.
signal_published_example :
    Publishes true 2 publishing
    × ((k n' : ℕ) (w' : Worker) → Works true k 2 publishing n' w' → k ≤ 2 + 13)
signal_published_example = signal_published true 2 publishing (omega arith) (λ e. cc) (λ e. cc)
