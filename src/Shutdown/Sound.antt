-- ===== src/Shutdown/Sound.antt =====
-- What holds in every state of the update thread and of the finalization.
use rticonnextdds_ros2_adapt.Common.{
  ℕ, ◌+◌, ◌≤◌, Bool, true, false, ◌≡◌, refl, ap, ◌⊎◌, inl, inr, arith,
}
use rticonnextdds_ros2_adapt.Shutdown.{
  Worker, head, waiting, checking, polling, retaking, deciding, draining, publishing, leaving,
  ended, Finalizer, idle, given, joined, deleted, State, Work, enter, leave, take, time_out, fail,
  continue, go_on_poll, go_on, poll, retake, retake_none, update, no_update, no_update_failed,
  retake_fail, drain, drained, drain_fail, publish, Faults, Step, work, give_exit, give_exit_fail,
  signal, signal_fail, clear, give, give_fail, join, join_fail, delete_thread, Run, stop, next,
  started,
}

abbrev pub on : Bool → ℕ
on true = 1
on false = 0

-- Whether the thread is behind its loop, whether it has ended, and whether it does not wait.
abbrev pub quitting : Worker → ℕ
quitting leaving = 1
quitting ended = 1
quitting _ = 0

abbrev pub done : Worker → ℕ
done ended = 1
done _ = 0

abbrev pub awake : Worker → ℕ
awake waiting = 0
awake _ = 1

-- Whether the finalization has begun, whether it waits for the end of the thread, and whether it has
-- seen it.
abbrev pub began : Finalizer → ℕ
began idle = 0
began _ = 1

abbrev pub asked : Finalizer → ℕ
asked given = 1
asked _ = 0

abbrev pub took : Finalizer → ℕ
took joined = 1
took deleted = 1
took _ = 0

pub record IsSound (s : State) : Type 0 where
  pub switched : on s.active + began s.finalizer ≡ 1
  pub quits : quitting s.worker ≤ began s.finalizer
  pub seen : s.sem_pinfo_exit + took s.finalizer ≤ done s.worker

-- What a step inside the loop keeps.
abbrev pub Kept : Bool → Worker → Worker → Type 0
Kept a w w' = (quitting w' + on a ≤ 1) × (done w ≡ 0) × (done w' ≡ 0) × (1 ≤ on a + awake w')

on_le : (a : Bool) → on a ≤ 1
on_le true = omega arith
on_le false = omega arith

pub work-Kept : {p : Bool} (a : Bool) {n n' : ℕ} {w w' : Worker} → Work p a n w n' w' → Kept a w w'
work-Kept true enter = (omega arith, refl, refl, omega arith)
work-Kept false leave = (omega arith, refl, refl, omega arith)
work-Kept a take = (omega (arith, on_le a), refl, refl, omega arith)
work-Kept a time_out = (omega (arith, on_le a), refl, refl, omega arith)
work-Kept a fail = (omega (arith, on_le a), refl, refl, omega arith)
work-Kept false continue = (omega arith, refl, refl, omega arith)
work-Kept true go_on_poll = (omega arith, refl, refl, omega arith)
work-Kept true (go_on e) = (omega arith, refl, refl, omega arith)
work-Kept a poll = (omega (arith, on_le a), refl, refl, omega arith)
work-Kept a retake = (omega (arith, on_le a), refl, refl, omega arith)
work-Kept a retake_none = (omega (arith, on_le a), refl, refl, omega arith)
work-Kept a retake_fail = (omega (arith, on_le a), refl, refl, omega arith)
work-Kept a update = (omega (arith, on_le a), refl, refl, omega arith)
work-Kept a no_update = (omega (arith, on_le a), refl, refl, omega arith)
work-Kept a no_update_failed = (omega (arith, on_le a), refl, refl, omega arith)
work-Kept a drain = (omega (arith, on_le a), refl, refl, omega arith)
work-Kept a drained = (omega (arith, on_le a), refl, refl, omega arith)
work-Kept a drain_fail = (omega (arith, on_le a), refl, refl, omega arith)
work-Kept a publish = (omega (arith, on_le a), refl, refl, omega arith)

-- Where the take of `sem_pinfo_exit` does not fail.
pub Step-IsSound :
    {p : Bool} {f : Faults} (s s' : State) → f.join ≡ false → Step p f s s' → IsSound s → IsSound s'
Step-IsSound s s' h (work {a} k) i =
    let (q, d, d', v) = work-Kept a k in
    record {
      switched = i.switched;
      quits = omega (arith, i.switched, q);
      seen = omega (arith, i.seen, d, d');
    }
Step-IsSound s s' h give_exit i = record {
  switched = i.switched;
  quits = i.quits;
  seen = omega (arith, i.seen);
}
Step-IsSound s s' h (give_exit_fail e) i = record {
  switched = i.switched;
  quits = i.quits;
  seen = omega (arith, i.seen);
}
Step-IsSound s s' h signal i = record { switched = i.switched; quits = i.quits; seen = i.seen }
Step-IsSound s s' h (signal_fail e) i = i
Step-IsSound s s' h clear i = record {
  switched = omega arith;
  quits = omega (arith, i.quits);
  seen = i.seen;
}
Step-IsSound s s' h give i = record { switched = i.switched; quits = i.quits; seen = i.seen }
Step-IsSound s s' h (give_fail e) i = record {
  switched = i.switched;
  quits = i.quits;
  seen = i.seen;
}
Step-IsSound s s' h join i = record {
  switched = i.switched;
  quits = i.quits;
  seen = omega (arith, i.seen);
}
Step-IsSound s s' h (join_fail e) i = absurd (cc)
Step-IsSound s s' h delete_thread i = record {
  switched = i.switched;
  quits = i.quits;
  seen = i.seen;
}

pub Run-IsSound :
    {p : Bool} {f : Faults} {k : ℕ} (s s' : State)
    → f.join ≡ false
    → Run p f k s s'
    → IsSound s
    → IsSound s'
Run-IsSound s s' h stop i = i
Run-IsSound s s' h (next {s1 = s1} st r) i = Run-IsSound s1 s' h r (Step-IsSound s s1 h st i)

pub started-IsSound : IsSound started
started-IsSound = record { switched = refl; quits = omega arith; seen = omega arith }

pub done_le : (w : Worker) → done w ≤ 1
done_le w = ground arith

done_one : (w : Worker) → done w ≡ 1 → w ≡ ended
done_one ended h = refl
done_one head h = absurd (omega arith)
done_one waiting h = absurd (omega arith)
done_one (checking s) h = absurd (omega arith)
done_one polling h = absurd (omega arith)
done_one retaking h = absurd (omega arith)
done_one (deciding s) h = absurd (omega arith)
done_one draining h = absurd (omega arith)
done_one publishing h = absurd (omega arith)
done_one leaving h = absurd (omega arith)

-- Whatever the threads do, in any order, from the start of the update thread on, and whichever takes of
-- `sem_pinfo` and gives fail: where the take of `sem_pinfo_exit` does not fail and
-- RTIROS2_Graph_finalize has gone on behind it, the thread has ended.
pub joined-ended :
    {p : Bool} {f : Faults} {k : ℕ} (s : State)
    → f.join ≡ false
    → Run p f k started s
    → (s.finalizer ≡ joined) ⊎ (s.finalizer ≡ deleted)
    → s.worker ≡ ended
joined-ended s waits r h =
    let i = Run-IsSound started s waits r started-IsSound in
    let seen : took s.finalizer ≡ 1 = elim h [ inl e ↦ ap took e | inr e ↦ ap took e ] in
    let bound : done s.worker ≤ 1 = done_le s.worker in done_one s.worker (omega (arith, i.seen))
