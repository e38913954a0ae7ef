-- ===== src/Shutdown/Ends.antt =====
-- Once the finalization has begun, the update thread and the finalization come to their end.
use rticonnextdds_ros2_adapt.Common.{
  ℕ, zero, suc, ◌+◌, ◌≤◌, ◌<◌, Bool, true, false, ◌≡◌, ◌≢◌, refl, ◌⊎◌, inl, inr, arith,
}
use rticonnextdds_ros2_adapt.Shutdown.{
  taken, timeout, failed, Worker, head, waiting, checking, polling, retaking, deciding, draining,
  publishing, leaving, ended, Finalizer, idle, cleared, given, joined, deleted, State, Work, leave,
  take, time_out, fail, continue, poll, retake, retake_none, update, no_update, no_update_failed,
  retake_fail, drain, drained, drain_fail, publish, Faults, Step, work, give_exit, give_exit_fail,
  signal, signal_fail, clear, give, give_fail, join, join_fail, delete_thread, Run, stop, next,
  started,
}
use rticonnextdds_ros2_adapt.Shutdown.Sound.{began}
use rticonnextdds_ros2_adapt.Shutdown.Live.{
  EndsWork, IsLive, Step-IsLive, Run-IsLive, started-IsLive,
}

-- What is left of the work: the thread's, given its place, and the finalizer's.
abbrev rank : Worker → ℕ
rank ended = 0
rank leaving = 1
rank head = 2
rank publishing = 3
rank draining = 4
rank (deciding s) = 5
rank retaking = 6
rank polling = 7
rank (checking s) = 8
rank waiting = 9

abbrev left_to_do : Finalizer → ℕ
left_to_do idle = 5
left_to_do cleared = 4
left_to_do given = 2
left_to_do joined = 1
left_to_do deleted = 0

abbrev measure : State → ℕ
measure s = rank s.worker + s.sem_pinfo + left_to_do s.finalizer

-- Once `thread_pinfo_active` is reset every step of the thread is one of finitely many.
work-rank :
    {p : Bool} {n n' : ℕ} (w w' : Worker) → Work p false n w n' w' → rank w' + n' < rank w + n
work-rank w w' leave = omega arith
work-rank w w' take = omega arith
work-rank w w' time_out = omega arith
work-rank w w' fail = omega arith
work-rank w w' continue = omega arith
work-rank w w' poll = omega arith
work-rank w w' retake = omega arith
work-rank w w' retake_none = omega arith
work-rank w w' retake_fail = omega arith
work-rank w w' update = omega arith
work-rank w w' no_update = omega arith
work-rank w w' no_update_failed = omega arith
work-rank w w' drain = omega arith
work-rank w w' drained = omega arith
work-rank w w' drain_fail = omega arith
work-rank w w' publish = omega arith

-- The finalization goes on, and nothing runs for ever.
Step-measure :
    {p : Bool} {f : Faults} (s s' : State)
    → EndsWork f
    → Step p f s s'
    → IsLive s
    → began s.finalizer ≡ 1
    → (measure s' < measure s) × (began s'.finalizer ≡ 1)
Step-measure s s' h (work {a = true} k) i b = absurd (omega (arith, i.sound.switched))
Step-measure s s' h (work {a = false} {w = w} {w' = w'} k) i b =
    (omega (arith, work-rank w w' k), b)
Step-measure s s' h give_exit i b = (omega arith, b)
Step-measure s s' h signal i b = absurd (omega arith)
Step-measure s s' h clear i b = absurd (omega arith)
Step-measure s s' h (signal_fail e) i b = absurd (omega arith)
Step-measure s s' h (give_exit_fail e) i b = absurd (cc h.exit)
Step-measure s s' h (give_fail e) i b = absurd (cc h.wake)
Step-measure s s' h (join_fail e) i b = absurd (cc h.join)
Step-measure s s' h give i b = (omega arith, refl)
Step-measure s s' h join i b = (omega arith, refl)
Step-measure s s' h delete_thread i b = (omega arith, refl)

-- A step that can be made.
abbrev pub Moves : Bool → Faults → State → Type 0
Moves p f s = (s' : State) × Step p f s s'

-- The thread has ended and is deleted.
abbrev pub IsOver : State → Type 0
IsOver s = (s.worker ≡ ended) × (s.finalizer ≡ deleted)

-- While the finalization is not over, the thread or the finalizer can make a step.
progress :
    (p : Bool) (f : Faults) (a : Bool) (n x : ℕ) (w : Worker) (fin : Finalizer)
    → let s : State = record {
      active = a;
      sem_pinfo = n;
      sem_pinfo_exit = x;
      worker = w;
      finalizer = fin;
    } in
      IsLive s → began fin ≡ 1 → Moves p f s ⊎ IsOver s
progress p f true n x w fin i b = absurd (omega (arith, i.sound.switched))
progress p f false n x head fin i b = inl (_, work leave)
progress p f false (suc n) x waiting fin i b = inl (_, work take)
progress p f false n x waiting idle i b = absurd (omega arith)
progress p f false n x waiting cleared i b = inl (_, give)
progress p f false zero x waiting given i b = absurd (omega (arith, i.woken))
progress p f false n x waiting joined i b = absurd (omega (arith, i.exits))
progress p f false n x waiting deleted i b = absurd (omega (arith, i.exits))
progress p f false n x (checking s) fin i b = inl (_, work continue)
progress p f false n x polling fin i b = inl (_, work poll)
progress p f false zero x retaking fin i b = inl (_, work retake_none)
progress p f false (suc n) x retaking fin i b = inl (_, work retake)
progress p f false n x (deciding taken) fin i b = inl (_, work update)
progress p f false n x (deciding timeout) fin i b = inl (_, work no_update)
progress p f false n x (deciding failed) fin i b = inl (_, work no_update_failed)
progress p f false zero x draining fin i b = inl (_, work drained)
progress p f false (suc n) x draining fin i b = inl (_, work drain)
progress p f false n x publishing fin i b = inl (_, work publish)
progress p f false n x leaving fin i b = inl (_, give_exit)
progress p f false n x ended idle i b = absurd (omega arith)
progress p f false n x ended cleared i b = inl (_, give)
progress p f false n zero ended given i b = absurd (omega (arith, i.exits))
progress p f false n (suc x) ended given i b = inl (_, join)
progress p f false n x ended joined i b = inl (_, delete_thread)
progress p f false n x ended deleted i b = inr (refl, refl)

Run-measure :
    {p : Bool} {f : Faults} {j : ℕ} (s s' : State)
    → EndsWork f
    → Run p f j s s'
    → IsLive s
    → began s.finalizer ≡ 1
    → (measure s' + j ≤ measure s) × IsLive s' × (began s'.finalizer ≡ 1)
Run-measure s s' h stop i b = (omega arith, i, b)
Run-measure s s' h (next {s1 = s1} st r) i b =
    let (m, b1) = Step-measure s s1 h st i b in
    let (m', i', b') = Run-measure s1 s' h r (Step-IsLive s s1 h st i) b1 in (omega arith, i', b')

reach :
    (p : Bool) (f : Faults) (m : ℕ) (s : State)
    → EndsWork f
    → measure s ≤ m
    → IsLive s
    → began s.finalizer ≡ 1
    → (j : ℕ) × (s' : State) × Run p f j s s' × IsOver s'
reach p f zero s h l i b =
    elim (progress p f s.active s.sem_pinfo s.sem_pinfo_exit s.worker s.finalizer i b) [
      | inr over ↦ (0, s, stop, over)
      | inl (s1, st) ↦ absurd (omega (arith, (Step-measure s s1 h st i b).0))
    ]
reach p f (suc m) s h l i b =
    elim (progress p f s.active s.sem_pinfo s.sem_pinfo_exit s.worker s.finalizer i b) [
      | inr over ↦ (0, s, stop, over)
      | inl (s1, st) ↦
          let (less, b1) = Step-measure s s1 h st i b in
          let (j, s', r, over) = reach p f m s1 h (omega arith) (Step-IsLive s s1 h st i) b1 in
          (suc j, s', next st r, over)
    ]

began_one : (f : Finalizer) → f ≢ idle → began f ≡ 1
began_one idle h = absurd (h refl)
began_one cleared h = refl
began_one given h = refl
began_one joined h = refl
began_one deleted h = refl

rank_le : (w : Worker) → rank w ≤ 9
rank_le w = ground arith

left_to_do_le : (f : Finalizer) → began f ≡ 1 → left_to_do f ≤ 4
left_to_do_le f h = ground arith

-- From the start of the update thread on, whatever the threads have done in any order, whichever takes
-- of `sem_pinfo` and signals of updates fail, once RTIROS2_Graph_finalize has begun: where neither its
-- give of `sem_pinfo`, nor the thread's give of `sem_pinfo_exit`, nor the take of that fails, the thread
-- can end and be deleted; every sequence of further steps has at most 13 more steps than the value of
-- `sem_pinfo`; and where one stops before the thread has ended and is deleted, another step can be
-- made. So no order of the steps blocks them.
pub shutdown_ends :
    {p : Bool} {f : Faults} {k : ℕ} (s : State)
    → EndsWork f
    → Run p f k started s
    → s.finalizer ≢ idle
    → ((j : ℕ) × (s' : State) × Run p f j s s' × IsOver s')
      × ((j : ℕ) (s' : State)
          → Run p f j s s'
          → (j ≤ s.sem_pinfo + 13) × (Moves p f s' ⊎ IsOver s'))
shutdown_ends {p} {f} s works r h =
    let i = Run-IsLive started s works r started-IsLive in
    let b = began_one s.finalizer h in
    (
      reach p f (measure s) s works (omega arith) i b,
      λ j s' r'.
          let (m, i', b') = Run-measure s s' works r' i b in
          (
            omega (arith, rank_le s.worker, left_to_do_le s.finalizer b),
            progress p f s'.active s'.sem_pinfo s'.sem_pinfo_exit s'.worker s'.finalizer i' b',
          ),
    )
