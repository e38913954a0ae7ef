-- ===== src/Shutdown.antt =====
-- How the update thread and the function that ends it meet: RTIROS2_Graph_update_thread and the start of
-- RTIROS2_Graph_finalize (src/adapter_c/graph_impl.c), as steps on what the two share. A poll of the
-- nodes and the publication of an update are one step each. Other threads signal updates, which no
-- thread may do once the deletion of the graph has begun.
pub mod Sound
pub mod Live
pub mod Ends
pub mod Signalled
use rticonnextdds_ros2_adapt.Common.{ℕ, zero, suc, ◌+◌, Bool, true, false, ◌&&◌, ◌≡◌}

-- The status of a take of `sem_pinfo`.
pub data Status : Type 0 where
  taken timeout failed : Status

abbrev pub is_timeout : Status → Bool
is_timeout timeout = true
is_timeout _ = false

-- Where the update thread stands: at the head of the loop, in the first take, at the second test of
-- `thread_pinfo_active`, before the poll, before the second take, at the test of `take_rc`, in the loop
-- that consumes the semaphore, before the publication, behind the loop, and at its end.
pub data Worker : Type 0 where
  head waiting : Worker
  checking : Status → Worker
  polling retaking : Worker
  deciding : Status → Worker
  draining publishing leaving ended : Worker

-- How far RTIROS2_Graph_finalize is: not called, behind the reset of `thread_pinfo_active`, behind the
-- give of `sem_pinfo`, behind the take of `sem_pinfo_exit`, and behind the deletion of the thread.
pub data Finalizer : Type 0 where
  idle cleared given joined deleted : Finalizer

-- `active` is `thread_pinfo_active`; the semaphores are their values.
pub record State : Type 0 where
  pub active : Bool
  pub sem_pinfo : ℕ
  pub sem_pinfo_exit : ℕ
  pub worker : Worker
  pub finalizer : Finalizer

-- A step of the update thread inside its loop: whether polling is enabled, `active`, and the semaphore
-- and the place before and after it.
pub data Work : Bool → Bool → ℕ → Worker → ℕ → Worker → Type 0 where
  enter : {p : Bool} {n : ℕ} → Work p true n head n waiting
  leave : {p : Bool} {n : ℕ} → Work p false n head n leaving
  take : {p a : Bool} {n : ℕ} → Work p a (suc n) waiting n (checking taken)
  time_out : {a : Bool} → Work true a zero waiting zero (checking timeout)
  fail : {p a : Bool} {n : ℕ} → Work p a n waiting n (checking failed)
  continue : {p : Bool} {n : ℕ} {s : Status} → Work p false n (checking s) n head
  go_on_poll : {n : ℕ} → Work true true n (checking timeout) n polling
  go_on :
      {p : Bool} {n : ℕ} {s : Status}
      → (p && is_timeout s) ≡ false
      → Work p true n (checking s) n (deciding s)
  poll : {p a : Bool} {n : ℕ} → Work p a n polling n retaking
  retake : {p a : Bool} {n : ℕ} → Work p a (suc n) retaking n (deciding taken)
  retake_none : {p a : Bool} → Work p a zero retaking zero (deciding timeout)
  retake_fail : {p a : Bool} {n : ℕ} → Work p a n retaking n (deciding failed)
  update : {p a : Bool} {n : ℕ} → Work p a n (deciding taken) n draining
  no_update : {p a : Bool} {n : ℕ} → Work p a n (deciding timeout) n head
  no_update_failed : {p a : Bool} {n : ℕ} → Work p a n (deciding failed) n head
  drain : {p a : Bool} {n : ℕ} → Work p a (suc n) draining n draining
  drained : {p a : Bool} → Work p a zero draining zero publishing
  drain_fail : {p a : Bool} {n : ℕ} → Work p a n draining n publishing
  publish : {p a : Bool} {n : ℕ} → Work p a n publishing n head

-- Which calls of a semaphore may fail where the code ignores their status: the give of `sem_pinfo` and
-- the take of `sem_pinfo_exit` in RTIROS2_Graph_finalize, the give of `sem_pinfo_exit` at the end of the
-- thread, and the give of `sem_pinfo` in RTIROS2_Graph_queue_update.
pub record Faults : Type 0 where
  pub wake : Bool
  pub join : Bool
  pub exit : Bool
  pub signal : Bool

-- A step of the thread, of the finalizer, or of a thread that signals an update. A give that fails
-- leaves the semaphore, and a take that fails does not wait.
pub data Step (p : Bool) (f : Faults) : State → State → Type 0 where
  work :
      {a : Bool} {n n' x : ℕ} {w w' : Worker} {fin : Finalizer}
      → Work p a n w n' w'
      → Step p f
          (record { active = a; sem_pinfo = n; sem_pinfo_exit = x; worker = w; finalizer = fin })
          (record { active = a; sem_pinfo = n'; sem_pinfo_exit = x; worker = w'; finalizer = fin })
  give_exit :
      {a : Bool} {n x : ℕ} {fin : Finalizer}
      → Step p f
          (record {
            active = a;
            sem_pinfo = n;
            sem_pinfo_exit = x;
            worker = leaving;
            finalizer = fin;
          })
          (record {
            active = a;
            sem_pinfo = n;
            sem_pinfo_exit = suc x;
            worker = ended;
            finalizer = fin;
          })
  give_exit_fail :
      {a : Bool} {n x : ℕ} {fin : Finalizer}
      → f.exit ≡ true
      → Step p f
          (record {
            active = a;
            sem_pinfo = n;
            sem_pinfo_exit = x;
            worker = leaving;
            finalizer = fin;
          })
          (record {
            active = a;
            sem_pinfo = n;
            sem_pinfo_exit = x;
            worker = ended;
            finalizer = fin;
          })
  signal :
      {a : Bool} {n x : ℕ} {w : Worker}
      → Step p f
          (record { active = a; sem_pinfo = n; sem_pinfo_exit = x; worker = w; finalizer = idle })
          (record {
            active = a;
            sem_pinfo = suc n;
            sem_pinfo_exit = x;
            worker = w;
            finalizer = idle;
          })
  signal_fail :
      {a : Bool} {n x : ℕ} {w : Worker}
      → f.signal ≡ true
      → Step p f
          (record { active = a; sem_pinfo = n; sem_pinfo_exit = x; worker = w; finalizer = idle })
          (record { active = a; sem_pinfo = n; sem_pinfo_exit = x; worker = w; finalizer = idle })
  clear :
      {a : Bool} {n x : ℕ} {w : Worker}
      → Step p f
          (record { active = a; sem_pinfo = n; sem_pinfo_exit = x; worker = w; finalizer = idle })
          (record {
            active = false;
            sem_pinfo = n;
            sem_pinfo_exit = x;
            worker = w;
            finalizer = cleared;
          })
  give :
      {a : Bool} {n x : ℕ} {w : Worker}
      → Step p f
          (record {
            active = a;
            sem_pinfo = n;
            sem_pinfo_exit = x;
            worker = w;
            finalizer = cleared;
          })
          (record {
            active = a;
            sem_pinfo = suc n;
            sem_pinfo_exit = x;
            worker = w;
            finalizer = given;
          })
  give_fail :
      {a : Bool} {n x : ℕ} {w : Worker}
      → f.wake ≡ true
      → Step p f
          (record {
            active = a;
            sem_pinfo = n;
            sem_pinfo_exit = x;
            worker = w;
            finalizer = cleared;
          })
          (record { active = a; sem_pinfo = n; sem_pinfo_exit = x; worker = w; finalizer = given })
  join :
      {a : Bool} {n x : ℕ} {w : Worker}
      → Step p f
          (record {
            active = a;
            sem_pinfo = n;
            sem_pinfo_exit = suc x;
            worker = w;
            finalizer = given;
          })
          (record { active = a; sem_pinfo = n; sem_pinfo_exit = x; worker = w; finalizer = joined })
  join_fail :
      {a : Bool} {n x : ℕ} {w : Worker}
      → f.join ≡ true
      → Step p f
          (record { active = a; sem_pinfo = n; sem_pinfo_exit = x; worker = w; finalizer = given })
          (record { active = a; sem_pinfo = n; sem_pinfo_exit = x; worker = w; finalizer = joined })
  delete_thread :
      {a : Bool} {n x : ℕ} {w : Worker}
      → Step p f
          (record { active = a; sem_pinfo = n; sem_pinfo_exit = x; worker = w; finalizer = joined })
          (record {
            active = a;
            sem_pinfo = n;
            sem_pinfo_exit = x;
            worker = w;
            finalizer = deleted;
          })

-- A number of steps, one after the other.
pub data Run (p : Bool) (f : Faults) : ℕ → State → State → Type 0 where
  stop : {s : State} → Run p f zero s s
  next : {k : ℕ} {s s1 s2 : State} → Step p f s s1 → Run p f k s1 s2 → Run p f (suc k) s s2

-- The state behind RTIROS2_Graph_initialize, where the thread starts.
abbrev pub started : State
started = record {
  active = true;
  sem_pinfo = zero;
  sem_pinfo_exit = zero;
  worker = head;
  finalizer = idle;
}
