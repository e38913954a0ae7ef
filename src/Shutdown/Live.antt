-- ===== src/Shutdown/Live.antt =====
-- What holds besides where the calls of semaphores whose status is ignored do not fail.
use rticonnextdds_ros2_adapt.Common.{ℕ, ◌+◌, ◌≤◌, Bool, false, ◌≡◌, refl, arith}
use rticonnextdds_ros2_adapt.Shutdown.{
  Finalizer, idle, cleared, given, joined, deleted, State, Faults, Step, work, give_exit,
  give_exit_fail, signal, signal_fail, clear, give, give_fail, join, join_fail, delete_thread, Run,
  stop, next, started,
}
use rticonnextdds_ros2_adapt.Shutdown.Sound.{
  began, asked, took, done, awake, IsSound, work-Kept, Step-IsSound, started-IsSound,
}

-- The calls at the end of the thread do not fail: the give that wakes it, the give that tells its end,
-- and the take that waits for that.
pub record EndsWork (f : Faults) : Type 0 where
  pub wake : f.wake ≡ false
  pub join : f.join ≡ false
  pub exit : f.exit ≡ false

-- The end of the thread is told once, and a thread that is asked to end does not wait for ever.
pub record IsLive (s : State) : Type 0 where
  pub sound : IsSound s
  pub exits : s.sem_pinfo_exit + took s.finalizer ≡ done s.worker
  pub woken : asked s.finalizer ≤ s.sem_pinfo + awake s.worker

asked_le : (fin : Finalizer) → asked fin ≤ began fin
asked_le idle = omega arith
asked_le cleared = omega arith
asked_le given = omega arith
asked_le joined = omega arith
asked_le deleted = omega arith

-- The first part of the invariant is kept by Step-IsSound; this is the rest.
Rest : State → Type 0
Rest s =
    (s.sem_pinfo_exit + took s.finalizer ≡ done s.worker)
    × (asked s.finalizer ≤ s.sem_pinfo + awake s.worker)

Step-Rest : {p : Bool} {f : Faults} (s s' : State) → EndsWork f → Step p f s s' → IsLive s → Rest s'
unfolding Rest
Step-Rest s s' h (work {a} {fin = fin} k) i =
    let (q, d, d', v) = work-Kept a k in
    (omega (arith, i.exits, d, d'), omega (arith, i.sound.switched, v, asked_le fin))
Step-Rest s s' h give_exit i = (omega (arith, i.exits), i.woken)
Step-Rest s s' h (give_exit_fail e) i = absurd (cc h.exit)
Step-Rest s s' h signal i = (i.exits, omega (arith, i.woken))
Step-Rest s s' h (signal_fail e) i = (i.exits, i.woken)
Step-Rest s s' h clear i = (i.exits, omega arith)
Step-Rest s s' h give i = (i.exits, omega arith)
Step-Rest s s' h (give_fail e) i = absurd (cc h.wake)
Step-Rest s s' h join i = (omega (arith, i.exits), omega arith)
Step-Rest s s' h (join_fail e) i = absurd (cc h.join)
Step-Rest s s' h delete_thread i = (i.exits, omega arith)

pub Step-IsLive :
    {p : Bool} {f : Faults} (s s' : State) → EndsWork f → Step p f s s' → IsLive s → IsLive s'
unfolding Rest
Step-IsLive s s' h st i =
    let (exits, woken) = Step-Rest s s' h st i in
    record { sound = Step-IsSound s s' h.join st i.sound; exits = exits; woken = woken }

pub Run-IsLive :
    {p : Bool} {f : Faults} {k : ℕ} (s s' : State)
    → EndsWork f
    → Run p f k s s'
    → IsLive s
    → IsLive s'
Run-IsLive s s' h stop i = i
Run-IsLive s s' h (next {s1 = s1} st r) i = Run-IsLive s1 s' h r (Step-IsLive s s1 h st i)

pub started-IsLive : IsLive started
started-IsLive = record { sound = started-IsSound; exits = refl; woken = omega arith }
