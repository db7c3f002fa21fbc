-- ===== src/Tests/Interleavings.antt =====
-- The theorems on src/net/service_loop.cc with several threads, at concrete inputs.
use libolptnet.Base.{
  ℕ, ◌+◌, ℤ, pos, ◌==ℤ◌, ==ℤ_iff, Outcome, ok, Returns, Safe, ltb, if◌then◌else◌, ◌≡◌, refl, true,
  false, some, List, [], ◌∷◌, arith,
}
use libolptnet.Dispatcher.Base.{Event, event_read, no_flags}
use libolptnet.Dispatcher.Poll.{PollFd, DispatcherPoll, PollAnswer, make_pollfd, poll_ops}
use libolptnet.Dispatcher.Poll.Watches.{poll_laws}
use libolptnet.ServiceLoop.{ServiceLoop, Handlers, no_handlers, update}
use libolptnet.ServiceLoop.Sync.{InSync}
use libolptnet.ServiceLoop.Run.{State}
use libolptnet.ServiceLoop.Run.Deliver.{Looks, index-back}
use libolptnet.ThreadQueue
use libolptnet.ServiceLoop.Wakeup.{EventFd, EventFdLaws, do_handle_read}
use libolptnet.ServiceLoop.Threads.{
  delivering, returned, woken, own, adds, quits, Threads, on_event, call_functor, exec, take_turn,
  own_step, deliver_next, wakeup_called, popped,
}
use libolptnet.ServiceLoop.Threads.Mirrors.{alone}
use libolptnet.ServiceLoop.Threads.Safety.{IsSteady, exec-IsSteady}
use libolptnet.ServiceLoop.Threads.Returning.{quitting_returns}
use libolptnet.ServiceLoop.Threads.Alive.{IsTruthful}
use libolptnet.ServiceLoop.Threads.Polling.{poll-IsTruthful}

-- The wake-up handler has pointer 0 and handle 3, and another handler pointer 1 and handle 5.
abbrev polled : DispatcherPoll
polled = record {
  last_errno = pos 0;
  pollfds = make_pollfd (pos 3) true false ∷ make_pollfd (pos 5) true false ∷ [];
}

abbrev two_handlers : ServiceLoop DispatcherPoll ℕ
two_handlers = record {
  quit = true;
  dispatcher = some polled;
  handlers = update (update no_handlers (pos 5) (some (some 1))) (pos 3) (some (some 0));
  functors = 4 ∷ [];
  wakeup = some (pos 3);
}

-- The counter itself.
abbrev pub counter : EventFd ℕ
counter = record { write = λ e n. (pos 8, e + n); read = λ e. (pos 8, e, 0) }

abbrev pub counter_laws : EventFdLaws counter
counter_laws = record {
  counter = λ e. e;
  write_lem = λ e n h. (refl, refl);
  read_lem = λ e h. (refl, refl, refl);
}

-- Handle 5 is readable, and handle 3 if there is something in the eventfd.
abbrev pub level : ℕ → List PollFd × ℤ → PollAnswer
level e _ = record {
  ret = pos 2;
  errno = pos 0;
  report = λ p. record no_flags { input = if p.fd ==ℤ pos 3 then ltb 0 e else true };
}

level-IsTruthful : IsTruthful poll_ops poll_laws counter_laws (pos 3) level
level-IsTruthful =
    poll-IsTruthful (pos 3) counter_laws level
      (λ e asked p z r. ground (arith, ==ℤ_iff p.fd (pos 3)))

-- The other handler counts its calls, and a functor adds its number.
abbrev counts : Event → ℕ → State DispatcherPoll ℕ ℕ → Outcome (State DispatcherPoll ℕ ℕ)
counts ev p (l, w) = ok (l, w + 1)

abbrev add_up : ℕ → State DispatcherPoll ℕ ℕ → Outcome (State DispatcherPoll ℕ ℕ)
add_up f (l, w) = ok (l, w + f)

-- Pointer 0 is registered for handle 3 at most.
abbrev Alone : Handlers → ℕ → Type 0
Alone m w = (h : ℤ) → m h ≡ some (some 0) → h ≡ pos 3

Alone-looks : Looks Alone
Alone-looks m w h k g e = k g (index-back m h g 0 e)

-- `quit` has been called and has written to the eventfd, which was reported.
abbrev woken_up : Threads DispatcherPoll (List PollFd × ℤ) PollAnswer ℕ ℕ ℕ
woken_up = record {
  point = delivering (pos 1) ((pos 3, event_read) ∷ (pos 5, event_read) ∷ []);
  quitter = woken;
  answers = level ∷ [];
  state = (two_handlers, (1, 0));
}

exclusive : (m : Handlers) (w : ℕ) (h : ℤ) → Alone m w → m h ≡ some (some 0) → h ≡ pos 3
exclusive m w h k e = k h e

two_handlers-InSync : InSync poll_ops poll_laws two_handlers polled
unfolding poll_laws ◌==ℤ◌
two_handlers-InSync = record { live = refl; valid = (refl, (refl, tt)); agree = λ g. ground arith }

two_handlers-Alone : Alone two_handlers.handlers 0
unfolding ◌==ℤ◌
two_handlers-Alone h e = ground (arith, ==ℤ_iff h (pos 3), ==ℤ_iff h (pos 5))

abbrev IsSteadyHere : Threads DispatcherPoll (List PollFd × ℤ) PollAnswer ℕ ℕ ℕ → Type 0
IsSteadyHere =
    IsSteady poll_ops poll_laws counter counter_laws Alone Alone-looks 0 (pos 3) exclusive counts
      add_up

woken_up-IsSteady : IsSteadyHere woken_up
unfolding ◌==ℤ◌
woken_up-IsSteady = record {
  good = ((polled, two_handlers-InSync), two_handlers-Alone);
  counted = omega arith;
  owed = omega arith;
  truthful = (level-IsTruthful, tt);
}

exec-IsSteady_example :
    Safe IsSteadyHere
      (exec poll_ops counter 0 counts add_up (adds 9 ∷ own ∷ quits ∷ own ∷ own ∷ []) woken_up)
exec-IsSteady_example =
    exec-IsSteady poll_ops poll_laws counter counter_laws Alone Alone-looks 0 (pos 3) exclusive
      counts add_up (λ ev p h s g e o. g) (λ f s g. g) (adds 9 ∷ own ∷ quits ∷ own ∷ own ∷ [])
      woken_up woken_up-IsSteady

quitting_returns_example :
    (n : ℕ) × Returns
      (λ s'. (s'.point ≡ returned) × IsSteadyHere s' × (s'.state.0.quit ≡ true))
      (exec poll_ops counter 0 counts add_up (alone n) woken_up)
quitting_returns_example =
    quitting_returns poll_ops poll_laws counter counter_laws Alone Alone-looks 0 (pos 3) exclusive
      counts add_up (λ ev p h s g e o. g) (λ f s g. (g, refl)) level [] woken_up refl
      woken_up-IsSteady refl

-- The functor that is queued runs, and the sum is in the state.
alone_runs :
    Returns
      (λ s. (s.point ≡ returned) × (s.state.1 ≡ (0, 5)))
      (exec poll_ops counter 0 counts add_up (alone 7) woken_up)
unfolding exec take_turn own_step deliver_next on_event wakeup_called call_functor popped
    do_handle_read ThreadQueue.pop ◌==ℤ◌
alone_runs = (refl, refl)
