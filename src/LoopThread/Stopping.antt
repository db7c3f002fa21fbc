-- ===== src/LoopThread/Stopping.antt =====
-- How `~ServiceLoopThread` of src/net/service_loop_thread.cc stops the loop: `ServiceLoop::quit` in one
-- thread, `run` and the end of `thread_routine`, where the loop is a local variable, in the other.
use libolptnet.Base.{ℕ, suc, ◌+◌, ◌<◌, ◌≡◌, Bool, true, false}

-- Where the destructor stands: before `quit_=true`, before `wakeup_event` reads `wakeup_`, before `write_some`
-- writes, at `join_thread`, or behind it.
pub data Quitter : Type 0 where
  setting waking writing joining joined : Quitter

-- Where the other thread stands: at the test of `while(!quit_)`, in the dispatcher's wait, in the loop over what is
-- ready (whether the eventfd is still to come, and how many others), in the loop over the functors, at the
-- destructor of its loop, or at its end.
pub data Runner : Type 0 where
  looping waiting draining leaving ended : Runner
  delivering : Bool → ℕ → Runner

pub record Pair : Type 0 where
  pub quitter : Quitter
  pub runner : Runner
  pub quit : Bool
  -- The loop exists.
  pub alive : Bool
  -- The counter of the eventfd.
  pub wakeups : ℕ
  -- How many functors are queued.
  pub functors : ℕ

-- `start_loop` has returned, and `run` goes on.
abbrev pub begin : Pair
begin = record {
  quitter = setting;
  runner = looping;
  quit = false;
  alive = true;
  wakeups = 0;
  functors = 0;
}

-- A step of the destructor.
pub data QuitStep (s t : Pair) : Type 0 where
  set_quit : s.quitter ≡ setting → t ≡ record s { quitter = waking; quit = true } → QuitStep s t
  read_wakeup : s.quitter ≡ waking → t ≡ record s { quitter = writing } → QuitStep s t
  write_some :
      s.quitter ≡ writing
      → t ≡ record s { quitter = joining; wakeups = s.wakeups + 1 }
      → QuitStep s t
  join : s.quitter ≡ joining → s.runner ≡ ended → t ≡ record s { quitter = joined } → QuitStep s t

-- A step of the loop's thread. The wait ends with any number of other handles ready, with none after its timeout,
-- which `run` never makes infinite, and with the eventfd only if something was written to it. A handler and a
-- functor take one step if they return, may queue functors, and do not call `quit`.
pub data RunStep (s t : Pair) : Type 0 where
  go_on : s.runner ≡ looping → s.quit ≡ false → t ≡ record s { runner = waiting } → RunStep s t
  stop : s.runner ≡ looping → s.quit ≡ true → t ≡ record s { runner = leaving } → RunStep s t
  waited : (n : ℕ) → s.runner ≡ waiting → t ≡ record s { runner = delivering false n } → RunStep s t
  woken :
      (n : ℕ)
      → s.runner ≡ waiting
      → 0 < s.wakeups
      → t ≡ record s { runner = delivering true n }
      → RunStep s t
  read_some :
      (n : ℕ)
      → s.runner ≡ delivering true n
      → t ≡ record s { runner = delivering false n; wakeups = 0 }
      → RunStep s t
  handled :
      (b : Bool) (n more : ℕ)
      → s.runner ≡ delivering b (suc n)
      → t ≡ record s { runner = delivering b n; functors = s.functors + more }
      → RunStep s t
  delivered : s.runner ≡ delivering false 0 → t ≡ record s { runner = draining } → RunStep s t
  called :
      (n more : ℕ)
      → s.runner ≡ draining
      → s.functors ≡ suc n
      → t ≡ record s { functors = n + more }
      → RunStep s t
  drained : s.runner ≡ draining → s.functors ≡ 0 → t ≡ record s { runner = looping } → RunStep s t
  destroy : s.runner ≡ leaving → t ≡ record s { runner = ended; alive = false } → RunStep s t

-- Other threads call `add_run` while the loop exists.
pub data Reach : Pair → Type 0 where
  start : Reach begin
  quits : {s t : Pair} → Reach s → QuitStep s t → Reach t
  runs : {s t : Pair} → Reach s → RunStep s t → Reach t
  adds : {s : Pair} → Reach s → s.alive ≡ true → Reach (record s { functors = s.functors + 1 })

-- Steps of the loop's thread alone.
pub data Runs : ℕ → Pair → Pair → Type 0 where
  none_left : {s : Pair} → Runs 0 s s
  one_more : {n : ℕ} {s t u : Pair} → RunStep s t → Runs n t u → Runs (suc n) s u

-- The next step of the destructor reads or writes the loop.
abbrev pub touches : Quitter → Bool
touches setting = true
touches waking = true
touches writing = true
touches joining = false
touches joined = false
