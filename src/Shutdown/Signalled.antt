-- ===== src/Shutdown/Signalled.antt =====
-- An update that is signalled is published.
use rticonnextdds_ros2_adapt.Common.{
  ℕ, zero, suc, ◌+◌, ◌≤◌, ◌<◌, Bool, true, false, ◌≡◌, ◌≢◌, refl, ap, subst, ◌⊎◌, inl, inr, arith,
  ◌&&◌,
}
use rticonnextdds_ros2_adapt.Shutdown.{
  taken, timeout, failed, Worker, head, waiting, checking, polling, retaking, deciding, draining,
  publishing, leaving, ended, Work, enter, take, go_on_poll, go_on, poll, retake, update, no_update,
  no_update_failed, fail, time_out, retake_none, retake_fail, drain, drained, drain_fail, publish,
}
use rticonnextdds_ros2_adapt.Shutdown.Sound.{quitting, work-Kept}

-- Whether a step is a first or a second take of a round that fails.
abbrev pub failing : Worker → Worker → Bool
failing waiting (checking failed) = true
failing retaking (deciding failed) = true
failing _ _ = false

-- A number of steps of the active thread, of which none is a first or a second take of a round that
-- fails and none but the last comes to a publication.
pub data Works (p : Bool) : ℕ → ℕ → Worker → ℕ → Worker → Type 0 where
  rest : {n : ℕ} {w : Worker} → Works p zero n w n w
  more :
      {k n n1 n2 : ℕ} {w w1 w2 : Worker}
      → Work p true n w n1 w1
      → failing w w1 ≡ false
      → (w1 ≢ publishing) ⊎ (k ≡ zero)
      → Works p k n1 w1 n2 w2
      → Works p (suc k) n w n2 w2

-- Whether the thread has taken a signal for the next publication.
abbrev has_taken : Worker → ℕ
has_taken (checking taken) = 1
has_taken (deciding taken) = 1
has_taken draining = 1
has_taken _ = 0

-- How far the thread is from the next publication, the value of the semaphore aside.
abbrev far : Worker → ℕ
far (checking taken) = 8
far (checking s) = 13
far (deciding taken) = 6
far (deciding s) = 12
far publishing = 11
far head = 10
far waiting = 9
far polling = 8
far retaking = 7
far draining = 5
far leaving = 5
far ended = 5

-- A step comes to the publication, or nearer to it.
abbrev Nearer : ℕ → Worker → ℕ → Worker → Type 0
Nearer n w n' w' = (w' ≡ publishing) ⊎ ((1 ≤ n' + has_taken w') × (far w' + n' < far w + n))

work-Nearer :
    {p : Bool} {n n' : ℕ} (w w' : Worker)
    → Work p true n w n' w'
    → failing w w' ≡ false
    → 1 ≤ n + has_taken w
    → Nearer n w n' w'
work-Nearer w w' enter f h = inr (omega arith, omega arith)
work-Nearer w w' take f h = inr (omega arith, omega arith)
work-Nearer w w' time_out f h = absurd (omega arith)
work-Nearer w w' fail f h = absurd (cc f)
work-Nearer w w' go_on_poll f h = inr (omega arith, omega arith)
work-Nearer (checking taken) w' (go_on e) f h = inr (omega arith, omega arith)
work-Nearer (checking timeout) w' (go_on e) f h = inr (omega arith, omega arith)
work-Nearer (checking failed) w' (go_on e) f h = inr (omega arith, omega arith)
work-Nearer w w' poll f h = inr (omega arith, omega arith)
work-Nearer w w' retake f h = inr (omega arith, omega arith)
work-Nearer w w' retake_none f h = absurd (omega arith)
work-Nearer w w' retake_fail f h = absurd (cc f)
work-Nearer w w' update f h = inr (omega arith, omega arith)
work-Nearer w w' no_update f h = inr (omega arith, omega arith)
work-Nearer w w' no_update_failed f h = inr (omega arith, omega arith)
work-Nearer w w' drain f h = inr (omega arith, omega arith)
work-Nearer w w' drained f h = inl refl
work-Nearer w w' drain_fail f h = inl refl
work-Nearer w w' publish f h = inr (omega arith, omega arith)

far_least : (w : Worker) → 5 ≤ far w
far_least w = ground arith

Works-bound :
    {p : Bool} {k n n' : ℕ} (w w' : Worker)
    → Works p k n w n' w'
    → 1 ≤ n + has_taken w
    → k ≤ far w + n
Works-bound w w' rest h = omega arith
Works-bound w w' (more {w1 = w1} st f (inr last) r) h = omega (arith, far_least w)
Works-bound w w' (more {w1 = w1} st f (inl on) r) h = elim (work-Nearer w w1 st f h) [
  | inl e ↦ absurd (on e)
  | inr (h1, less) ↦ omega (arith, Works-bound w1 w' r h1)
]

-- A step of the active thread that is not such a take.
abbrev Goes : Bool → ℕ → Worker → Type 0
Goes p n w = (n' : ℕ) × (w' : Worker) × Work p true n w n' w' × (failing w w' ≡ false)

and_false : (p : Bool) → (p && false) ≡ false
and_false true = refl
and_false false = refl

goes : (p : Bool) (n : ℕ) (w : Worker) → 1 ≤ n + has_taken w → w ≢ leaving → w ≢ ended → Goes p n w
goes p n head h l e = (_, _, enter, refl)
goes p zero waiting h l e = absurd (omega arith)
goes p (suc n) waiting h l e = (_, _, take, refl)
goes p n (checking taken) h l e = (_, _, go_on (and_false p), refl)
goes true n (checking timeout) h l e = (_, _, go_on_poll, refl)
goes false n (checking timeout) h l e = (_, _, go_on refl, refl)
goes p n (checking failed) h l e = (_, _, go_on (and_false p), refl)
goes p n polling h l e = (_, _, poll, refl)
goes p zero retaking h l e = absurd (omega arith)
goes p (suc n) retaking h l e = (_, _, retake, refl)
goes p n (deciding taken) h l e = (_, _, update, refl)
goes p n (deciding timeout) h l e = (_, _, no_update, refl)
goes p n (deciding failed) h l e = (_, _, no_update_failed, refl)
goes p zero draining h l e = (_, _, drained, refl)
goes p (suc n) draining h l e = (_, _, drain, refl)
goes p n publishing h l e = (_, _, publish, refl)
goes p n leaving h l e = absurd (l refl)
goes p n ended h l e = absurd (e refl)

-- The active thread does not leave its loop.
stays :
    {p : Bool} {n n' : ℕ} (w w' : Worker) → Work p true n w n' w' → (w' ≢ leaving) × (w' ≢ ended)
stays w w' st =
    let (q, _, _, _) = work-Kept true st in
    (λ e. omega (arith, q, ap quitting e), λ e. omega (arith, q, ap quitting e))

publishing-cases : (w : Worker) → (w ≡ publishing) ⊎ (w ≢ publishing)
publishing-cases publishing = inl refl
publishing-cases head = inr λ c. cc
publishing-cases waiting = inr λ c. cc
publishing-cases (checking s) = inr λ c. cc
publishing-cases polling = inr λ c. cc
publishing-cases retaking = inr λ c. cc
publishing-cases (deciding s) = inr λ c. cc
publishing-cases draining = inr λ c. cc
publishing-cases leaving = inr λ c. cc
publishing-cases ended = inr λ c. cc

-- The thread comes to the publication in a number of steps.
abbrev pub Publishes : Bool → ℕ → Worker → Type 0
Publishes p n w = (k : ℕ) × (n' : ℕ) × Works p (suc k) n w n' publishing

comes :
    (p : Bool) (m n : ℕ) (w : Worker)
    → far w + n ≤ m
    → 1 ≤ n + has_taken w
    → w ≢ leaving
    → w ≢ ended
    → Publishes p n w
comes p zero n w b h l e = absurd (omega (arith, far_least w))
comes p (suc m) n w b h l e =
    let (n1, w1, st, f) = goes p n w h l e in
    let (l1, e1) = stays w w1 st in
    elim (publishing-cases w1) [
      | inl here ↦ (0, n1, subst (λ v. Works p 1 n w n1 v) here (more st f (inr refl) rest))
      | inr on ↦ elim (work-Nearer w w1 st f h) [
        | inl here ↦ absurd (on here)
        | inr (h1, less) ↦
            let (k, n', r) = comes p m n1 w1 (omega arith) h1 l1 e1 in
            (suc k, n', more st f (inl on) r)
      ]
    ]

far_most : (w : Worker) → far w ≤ 13
far_most w = ground arith

-- Where an update is signalled and the active thread is in its loop, wherever it stands there, it can come
-- to a publication that it has not begun; and every sequence of its steps in which neither the first nor the
-- second take of a round fails, no thread signals and no publication is come to but by the last step has at most 13 more steps than the
-- value of the semaphore.
pub signal_published :
    (p : Bool) (n : ℕ) (w : Worker)
    → 1 ≤ n
    → w ≢ leaving
    → w ≢ ended
    → Publishes p n w × ((k n' : ℕ) (w' : Worker) → Works p k n w n' w' → k ≤ n + 13)
signal_published p n w h l e = (
  comes p (far w + n) n w (omega arith) (omega arith) l e,
  λ k n' w' r. omega (arith, Works-bound w w' r (omega arith), far_most w),
)
