-- ===== src/Tests/Objects.antt =====
-- The theorem on src/net/event_handler.h and the loop that calls its objects, at a concrete input.
use libolptnet.Base.{
  ℕ, ℤ, pos, ◌==ℤ◌, ==ℤ_iff, Outcome, ok, Safe, ◌==◌, if◌then◌else◌, ◌≡◌, refl, true, false, none,
  some, List, [], ◌∷◌, arith,
}
use libolptnet.Dispatcher.Base.{Event, no_flags}
use libolptnet.Dispatcher.Poll.{DispatcherPoll, PollFd, PollAnswer, make_pollfd, poll_ops}
use libolptnet.Dispatcher.Poll.Watches.{poll_laws, mod_event-Set, del_event-Unset, add_event-Set}
use libolptnet.Buffer.Read.{got}
use libolptnet.Connection.{LoopOps, Connection, would_block}
use libolptnet.ServiceLoop.{ServiceLoop, no_handlers, update}
use libolptnet.ServiceLoop.Client.{Obliging}
use libolptnet.ServiceLoop.Run.{State, run}
use libolptnet.EventHandler.{deleted, acceptor, connection, Objects, on_event}
use libolptnet.EventHandler.Accepting.{Welcoming}
use libolptnet.SessionHandler
use libolptnet.SessionHandler.Keeping.{on_read-ReadsSafely}
use libolptnet.EventHandler.Owners.{Linked}
use libolptnet.EventHandler.Registering.{Yielding}
use libolptnet.EventHandler.Alive.{IsSound, run-IsSound}
use libolptnet.Tests.Connections.{idle}

-- An acceptor at handle 4 and pointer 2, and a connection at handle 5 and pointer 1. The connection receives two
-- bytes, and then its peer closes; a new connection has descriptor 6.
abbrev watching : DispatcherPoll
watching = record {
  last_errno = pos 0;
  pollfds = make_pollfd (pos 4) true false ∷ make_pollfd (pos 5) true false ∷ [];
}

abbrev two_objects : State DispatcherPoll ℕ Objects
two_objects = (
  record {
    quit = false;
    dispatcher = some watching;
    handlers = update (update no_handlers (pos 5) (some (some 1))) (pos 4) (some (some 2));
    functors = 4 ∷ [];
    wakeup = none;
  },
  record {
    objects = λ p. if p == 1 then connection idle else if p == 2 then acceptor (pos 4) else deleted;
    next = 3;
    reads = (got (1 ∷ 2 ∷ []) ∷ []) ∷ (got [] ∷ []) ∷ [];
    sends = (would_block ∷ []) ∷ [];
    accepts = pos 6 ∷ [];
    wire = [];
    world = pos 5 ∷ pos 4 ∷ [];
  },
)

abbrev ready : List PollFd × ℤ → PollAnswer
ready _ = record {
  ret = pos 2;
  errno = pos 0;
  report = λ p. record no_flags { input = true; output = true };
}

pub poll_obliging : Obliging poll_ops poll_laws
unfolding poll_ops poll_laws
poll_obliging d h w v old = mod_event-Set d h w v old

poll_yielding : Yielding poll_ops poll_laws
unfolding poll_ops poll_laws
poll_yielding d h v old = (tt, del_event-Unset d h v)

poll_welcoming : Welcoming poll_ops poll_laws
unfolding poll_ops poll_laws
poll_welcoming d h v positive new = (tt, add_event-Set d h false v new)

abbrev on_read :
    LoopOps (ServiceLoop DispatcherPoll ℕ)
    → List ℕ
    → Connection × ServiceLoop DispatcherPoll ℕ
    → Outcome (ℤ × Connection × ServiceLoop DispatcherPoll ℕ)
on_read ops = SessionHandler.on_read ops

abbrev others :
    Event → ℕ → State DispatcherPoll ℕ Objects → Outcome (State DispatcherPoll ℕ Objects)
others ev p s = ok s

abbrev call : ℕ → State DispatcherPoll ℕ Objects → Outcome (State DispatcherPoll ℕ Objects)
call f s = ok s

two_objects-Linked : Linked two_objects.0.handlers two_objects.1
unfolding ◌==ℤ◌
two_objects-Linked = record {
  owned = λ h p e. ground (arith, ==ℤ_iff h (pos 5), ==ℤ_iff h (pos 4));
  older = λ h p e. ground (arith, ==ℤ_iff h (pos 5), ==ℤ_iff h (pos 4));
  bounded = (omega arith, (omega arith, tt));
  fresh = (λ e. (refl, refl), tt);
}

two_objects-IsSound :
    IsSound poll_ops poll_laws poll_obliging poll_yielding poll_welcoming on_read others call
      two_objects
unfolding poll_laws ◌==ℤ◌
two_objects-IsSound = (
  (watching, record { live = refl; valid = (refl, (refl, tt)); agree = λ g. ground arith }),
  two_objects-Linked,
)

run-IsSound_example :
    Safe
      (λ s'.
        IsSound poll_ops poll_laws poll_obliging poll_yielding poll_welcoming on_read others call s'
        × (s'.0.quit ≡ true))
      (run poll_ops (on_event poll_ops on_read others) call 2 (ready ∷ ready ∷ []) two_objects)
run-IsSound_example =
    run-IsSound poll_ops poll_laws poll_obliging poll_yielding poll_welcoming on_read others call
      (λ own own_laws gone. on_read-ReadsSafely own own_laws gone) (λ ev p h k s g e o. g)
      (λ f s g. g) 2 (ready ∷ ready ∷ []) two_objects two_objects-IsSound
