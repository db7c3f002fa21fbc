-- ===== src/LoopThread.antt =====
-- src/net/service_loop_thread.h and src/net/service_loop_thread.cc: how `start_loop` waits for
-- the loop that `thread_routine` publishes, as steps of the two threads.
pub mod Handshake
pub mod Stopping
pub mod Races
use libolptnet.Base.{◌≡◌, Bool, true, false}

-- Where `start_loop` stands: at the test of `while (NULL==loop_)`, before `cond_var_.wait()`, in it, or
-- behind the loop.
pub data Starter : Type 0 where
  testing entering waiting started : Starter

-- Where `thread_routine` stands: before the assignment of `loop_`, before `notify`, or in `run`.
pub data Routine : Type 0 where
  creating assigned running : Routine

pub record LoopThread : Type 0 where
  pub starter : Starter
  pub routine : Routine
  pub has_loop : Bool

-- After the constructor and `create_thread`.
abbrev pub created : LoopThread
created = record { starter = testing; routine = creating; has_loop = false }

-- `notify` wakes the starter if it is in `wait`; it is at the test again.
abbrev pub woken : Starter → Starter
woken waiting = testing
woken other = other

-- POSIX lets a wait end with no `notify` at all.
pub data Cause : Type 0 where
  program spurious : Cause

-- `wait` is called without the mutex, so nothing orders it with the steps of `thread_routine`.
pub data Step (s t : LoopThread) : Cause → Type 0 where
  see_null :
      s.starter ≡ testing
      → s.has_loop ≡ false
      → t ≡ record s { starter = entering }
      → Step s t program
  see_loop :
      s.starter ≡ testing
      → s.has_loop ≡ true
      → t ≡ record s { starter = started }
      → Step s t program
  enter_wait : s.starter ≡ entering → t ≡ record s { starter = waiting } → Step s t program
  wake_up : s.starter ≡ waiting → t ≡ record s { starter = testing } → Step s t spurious
  assign :
      s.routine ≡ creating → t ≡ record s { routine = assigned; has_loop = true } → Step s t program
  notify :
      s.routine ≡ assigned
      → t ≡ record s { routine = running; starter = woken s.starter }
      → Step s t program

pub data Reach : LoopThread → Type 0 where
  start : Reach created
  next : {s t : LoopThread} {c : Cause} → Reach s → Step s t c → Reach t
