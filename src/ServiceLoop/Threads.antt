-- ===== src/ServiceLoop/Threads.antt =====
-- `ServiceLoop::run` of src/net/service_loop.cc in steps of its thread, with `add_run` and `quit` called by other
-- threads in between. A call of a handler or of a functor is one step. The eventfd is read by the wake-up
-- handler alone, whose pointer is `this`.
pub mod Mirrors
pub mod Runs
pub mod Alive
pub mod Steps
pub mod Safety
pub mod Stopping
pub mod Returning
pub mod Polling
use libolptnet.Base.{
  ℕ, ℤ, pos, blocked, Outcome, ok, fault, ◌>>=◌, ◌>>◌, ◌==◌, if◌then◌else◌, true, Option, none,
  some, List, [], ◌∷◌, ◌≡◌,
}
use libolptnet.ThreadQueue
use libolptnet.Dispatcher.Base.{Event, event_read, event_write, event_error, ReadyEvents, Ops}
use libolptnet.ServiceLoop.{ServiceLoop, index, deref, add_run}
use libolptnet.ServiceLoop.Run.{State, timeout_after, notify}
use libolptnet.ServiceLoop.Wakeup.{EventFd, do_handle_read, wakeup_event}

-- What the loop's thread does next: the test of `quit_`, the wait, the delivery of what is left to deliver, `pop`,
-- or the call of the functor that was popped. The number is the next timeout.
pub data Point (F : Type 0) : Type 0 where
  testing : ℤ → Point F
  waiting : ℤ → Point F
  delivering : ℤ → ReadyEvents → Point F
  draining : ℤ → Point F
  calling : ℤ → F → Point F
  returned : Point F

-- How far the one call of `quit` has come.
pub data Quitter : Type 0 where
  unasked flagged woken : Quitter

-- Whose turn it is: the loop's thread, another one that calls `add_run`, or the one that calls `quit`.
pub data Turn (F : Type 0) : Type 0 where
  own : Turn F
  adds : F → Turn F
  quits : Turn F

-- `answers` are the system's to one wait after the other; they depend on what is in the eventfd.
pub record Threads (D R A E F W : Type 0) : Type 0 where
  pub point : Point F
  pub quitter : Quitter
  pub answers : List (E → R → A)
  pub state : State D F (E × W)

-- The beginning of `run`.
abbrev pub begun :
    {D R A E F W : Type 0} → List (E → R → A) → State D F (E × W) → Threads D R A E F W
begun answers s = record {
  point = testing (pos 2);
  quitter = unasked;
  answers = answers;
  state = s;
}

module _ {D R A F W E : Type 0} (ops : Ops D R A) (fd : EventFd E) (this : ℕ)
    (others : Event → ℕ → State D F W → Outcome (State D F W))
    (call : F → State D F W → Outcome (State D F W)) where
  -- The virtual functions of `WakeupHandler`.
  unfoldable pub wakeup_called : Event → E → Outcome E
  wakeup_called event_read e = do_handle_read fd e
  wakeup_called event_write e = ok e
  wakeup_called event_error e = ok e

  unfoldable pub on_event : Event → ℕ → State D F (E × W) → Outcome (State D F (E × W))
  unfolding wakeup_called
  on_event ev p (l, (e, w)) =
      if p == this
      then (wakeup_called ev e >>= λ e'. ok (l, (e', w)))
      else (others ev p (l, w) >>= λ s. ok (s.0, (e, s.1)))

  unfoldable pub call_functor : F → State D F (E × W) → Outcome (State D F (E × W))
  call_functor f (l, (e, w)) = call f (l, w) >>= λ s. ok (s.0, (e, s.1))

  -- `handle_events`. Where there are no answers left, the wait does not end.
  pub wait : ℤ → List (E → R → A) → Threads D R A E F W → Outcome (Threads D R A E F W)
  wait t [] s = fault blocked
  wait t (answer ∷ answers) s =
      let (l, (e, w)) = s.state in
      do
        d ← deref l.dispatcher
        let (ret, ready, d') = ops.handle_events d (answer e) t
        ok (record s {
          point = delivering (timeout_after ret) ready;
          answers = answers;
          state = (record l { dispatcher = some d' }, (e, w));
        })

  -- What `pop` gives, and what follows it.
  unfoldable pub popped : ℤ → Option (F × List F) → Threads D R A E F W → Threads D R A E F W
  popped t none s = record s { point = testing t }
  popped t (some (f, fs)) s = record s {
    point = calling t f;
    state = (record (s.state.0) { functors = fs }, s.state.1);
  }

  -- The next event of the `for` loop.
  unfoldable pub deliver_next :
      ℤ → ReadyEvents → Threads D R A E F W → Outcome (Threads D R A E F W)
  unfolding on_event call_functor
  deliver_next t [] s = ok (record s { point = draining t })
  deliver_next t ((h, ev) ∷ ready) s =
      let (handler, handlers) = index (s.state.0.handlers) h in
      notify ops on_event call_functor ev handler
        (record (s.state.0) { handlers = handlers }, s.state.1)
      >>= λ s'. ok (record s { point = delivering t ready; state = s' })

  unfoldable pub own_step : Point F → Threads D R A E F W → Outcome (Threads D R A E F W)
  unfolding call_functor wait popped deliver_next
  own_step (testing t) s = ok (record s { point = if s.state.0.quit then returned else waiting t })
  own_step (waiting t) s = wait t s.answers s
  own_step (delivering t ready) s = deliver_next t ready s
  own_step (draining t) s = ok (popped t (ThreadQueue.pop s.state.0.functors) s)
  own_step (calling t f) s =
      call_functor f s.state >>= λ s'. ok (record s { point = draining t; state = s' })
  own_step returned s = ok s

  -- `quit` by another thread, in two steps.
  pub quit_step : Quitter → Threads D R A E F W → Outcome (Threads D R A E F W)
  quit_step unasked s =
      ok (record s { quitter = flagged; state = (record (s.state.0) { quit = true }, s.state.1) })
  quit_step flagged s =
      let (l, (e, w)) = s.state in
      wakeup_event fd l e >>= λ e'. ok (record s { quitter = woken; state = (l, (e', w)) })
  quit_step woken s = ok s

  unfoldable pub take_turn : Turn F → Threads D R A E F W → Outcome (Threads D R A E F W)
  unfolding own_step quit_step
  take_turn own s = own_step s.point s
  take_turn (adds f) s = ok (record s { state = (add_run ops s.state.0 f, s.state.1) })
  take_turn quits s = quit_step s.quitter s

  unfoldable pub exec : List (Turn F) → Threads D R A E F W → Outcome (Threads D R A E F W)
  exec [] s = ok s
  exec (turn ∷ turns) s = take_turn turn s >>= exec turns
