-- ===== src/ServiceLoop/Run.antt =====
-- `ServiceLoop::run` in src/net/service_loop.cc. The state is the loop with whatever else the
-- handlers and functors work on; what they do is an argument.
pub mod Deliver
pub mod Functors
pub mod Quits
pub mod Timeouts
use libolptnet.Base.{
  ℕ, zero, suc, ℤ, pos, negsuc, blocked, Outcome, ok, fault, ◌>>=◌, ◌>>◌, if◌then◌else◌, Option,
  none, some, List, [], ◌∷◌,
}
use libolptnet.ThreadQueue
use libolptnet.Dispatcher.Base.{Event, ReadyEvents, Ops}
use libolptnet.ServiceLoop.{ServiceLoop, HandlerPtr, index, deref}

-- The `switch` on the result of `handle_events`.
unfoldable pub timeout_after : ℤ → ℤ
timeout_after (negsuc zero) = pos 2
timeout_after (pos zero) = pos 2
timeout_after other = pos 1

abbrev pub State : Type 0 → Type 0 → Type 0 → Type 0
State D F W = ServiceLoop D F × W

module _ {D R A F W : Type 0} (ops : Ops D R A)
    (on_event : Event → ℕ → State D F W → Outcome (State D F W))
    (call : F → State D F W → Outcome (State D F W)) where
  -- `do_handle_read`, `do_handle_write` or `do_handle_error`, unless the pointer is NULL.
  abbrev pub notify : Event → HandlerPtr → State D F W → Outcome (State D F W)
  notify ev none s = ok s
  notify ev (some p) s = on_event ev p s

  -- The `for` loop.
  unfoldable pub deliver : ReadyEvents → State D F W → Outcome (State D F W)
  deliver [] s = ok s
  deliver ((fd, ev) ∷ ready) (l, w) =
      let (handler, m) = index l.handlers fd in
      notify ev handler (record l { handlers = m }, w) >>= deliver ready

  -- A call of the functor that was popped, and then the rest of the loop.
  unfoldable pub run_popped :
      (State D F W → Outcome (State D F W))
      → Option (F × List F)
      → State D F W
      → Outcome (State D F W)
  run_popped rest none s = ok s
  run_popped rest (some (f, fs)) (l, w) = call f (record l { functors = fs }, w) >>= rest

  -- `while (functors_.pop(fun)) fun();`, on fuel: a functor may queue others.
  unfoldable pub run_functors : ℕ → State D F W → Outcome (State D F W)
  unfolding run_popped
  run_functors zero s = fault blocked
  run_functors (suc fuel) s = run_popped (run_functors fuel) (ThreadQueue.pop s.0.functors) s

  -- One round of the outer loop. It returns the next timeout.
  unfoldable pub round : ℕ → (R → A) → ℤ → State D F W → Outcome (ℤ × State D F W)
  unfolding deliver run_functors
  round fuel answer timeout_ms (l, w) = do
    d ← deref l.dispatcher
    let (ret, ready, d') = ops.handle_events d answer timeout_ms
    s ← deliver ready (record l { dispatcher = some d' }, w)
    s' ← run_functors fuel s
    ok (timeout_after ret, s')

  -- `while (!quit_)`, over the answers of the system to one wait after the other: where they end, the
  -- loop is still waiting.
  unfoldable pub run_from : ℕ → List (R → A) → ℤ → State D F W → Outcome (State D F W)
  run_from fuel [] timeout_ms s = if s.0.quit then ok s else fault blocked
  run_from fuel (answer ∷ answers) timeout_ms s =
      if s.0.quit
      then ok s
      else (round fuel answer timeout_ms s >>= λ r. run_from fuel answers r.0 r.1)

  unfoldable pub run : ℕ → List (R → A) → State D F W → Outcome (State D F W)
  unfolding run_from
  run fuel answers s = run_from fuel answers (pos 2) s
