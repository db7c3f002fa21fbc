-- ===== src/Tests/Loops.antt =====
-- The theorems on src/net/service_loop.cc, at concrete inputs.
use libolptnet.Base.{
  ℕ, ◌+◌, ℤ, pos, negsuc, ◌==ℤ◌, Outcome, ok, fault, assertion, ◌>>=◌, if◌then◌else◌, inl, Returns,
  Safe, is_empty, ◌≡◌, refl, inr, true, false, not, some, List, [], ◌∷◌, ◌++◌, arith,
}
use mathlib.Core.List.{foldl}
use libolptnet.Dispatcher.Base.{event_read, Event, no_flags, Ops}
use libolptnet.Dispatcher.Poll.{
  PollFd, DispatcherPoll, PollAnswer, make_pollfd, add_event, poll_ops,
}
use libolptnet.Dispatcher.Poll.Watches.{poll_laws}
use libolptnet.ThreadQueue
use libolptnet.ServiceLoop.{
  ServiceLoop, no_handlers, update, register_event, modify_event, delete_event, add_run,
}
use libolptnet.ServiceLoop.Sync.{
  InSync, Registers, Deletes, register_event-InSync, modify_event-InSync, delete_event-InSync,
}
use libolptnet.ServiceLoop.Run.{State, run, run_functors, timeout_after}
use libolptnet.ServiceLoop.Run.Deliver.{Good, run-Good}
use libolptnet.ServiceLoop.Run.Functors.{run_functors_drains}
use libolptnet.Dispatcher.Poll.Watches.{mod_event-Set}
use libolptnet.ServiceLoop.Client.{loop_ops, Obliging, IsKnown, writes_of, write_over_loop}
use libolptnet.Buffer.{empty_stream}
use libolptnet.Connection.{Connection, sent, interrupted, would_block, do_handle_write}
use libolptnet.Dispatcher.Poll.{handle_events, collect, events_of}
use libolptnet.ServiceLoop.Run.Quits.{Quiet, run_quits}
use libolptnet.ServiceLoop.Wakeup.{
  open_wakeup, EventFd, EventFdLaws, create, write_some, do_handle_read,
}
use libolptnet.ServiceLoop.Wakeup.Aborts.{wakeup_twice_aborts}
use libolptnet.ServiceLoop.Run.Timeouts.{AgreeBriefly, run_waits_briefly}

abbrev Loop : Type 0
Loop = ServiceLoop DispatcherPoll ℕ

-- Handle 5 is registered, with handler 1.
abbrev polled : DispatcherPoll
polled = record { last_errno = pos 0; pollfds = make_pollfd (pos 5) true false ∷ [] }

abbrev one_registered : Loop
one_registered = record {
  quit = false;
  dispatcher = some polled;
  handlers = update no_handlers (pos 5) (some (some 1));
  functors = 4 ∷ 6 ∷ [];
  wakeup = some (pos 3);
}

one_registered-InSync : InSync poll_ops poll_laws one_registered polled
unfolding poll_laws ◌==ℤ◌
one_registered-InSync = record { live = refl; valid = (refl, tt); agree = λ g. ground arith }

register_event-InSync_example :
    Returns
      (Registers poll_ops poll_laws one_registered polled
        (pos 6)
        true
        (some 2)
        (poll_ops.add_event polled (pos 6) true true))
      (register_event poll_ops one_registered (pos 6) true true (some 2))
unfolding ◌==ℤ◌ poll_laws
register_event-InSync_example =
    register_event-InSync poll_ops poll_laws one_registered polled (pos 6) true 2
      one_registered-InSync tt refl refl

modify_event-InSync_example :
    Returns
      (Registers poll_ops poll_laws one_registered polled
        (pos 5)
        true
        (some 2)
        (poll_ops.mod_event polled (pos 5) true true))
      (modify_event poll_ops one_registered (pos 5) true true (some 2))
unfolding ◌==ℤ◌
modify_event-InSync_example =
    modify_event-InSync poll_ops poll_laws one_registered polled (pos 5) true 2
      one_registered-InSync refl refl

delete_event-InSync_example :
    Returns
      (Deletes poll_ops poll_laws one_registered polled (pos 5) (poll_ops.del_event polled (pos 5)))
      (delete_event poll_ops one_registered (pos 5))
unfolding poll_laws
delete_event-InSync_example =
    delete_event-InSync poll_ops poll_laws one_registered polled (pos 5) one_registered-InSync tt
      refl

-- Every handler quits the loop; a functor adds its number.
abbrev quit_loop : Event → ℕ → State DispatcherPoll ℕ ℕ → Outcome (State DispatcherPoll ℕ ℕ)
quit_loop ev p (l, w) = ok (record l { quit = true }, w)

abbrev add_up : ℕ → State DispatcherPoll ℕ ℕ → Outcome (State DispatcherPoll ℕ ℕ)
add_up f (l, w) = ok (l, w + f)

abbrev five_readable : List PollFd × ℤ → PollAnswer
five_readable _ = record {
  ret = pos 1;
  errno = pos 0;
  report = λ p. record no_flags { input = true };
}

add_run_runs : (add_run poll_ops one_registered 9).functors ≡ 4 ∷ 6 ∷ 9 ∷ []
unfolding add_run ThreadQueue.push
add_run_runs = refl

timeout_after_runs : (timeout_after (negsuc 0) ≡ pos 2) × (timeout_after (pos 3) ≡ pos 1)
unfolding timeout_after
timeout_after_runs = (refl, refl)

run-Good_example :
    Safe
      (λ s'. Good poll_ops poll_laws (λ _ _. Unit {0}) s' × (s'.0.quit ≡ true))
      (run poll_ops quit_loop add_up 3 (five_readable ∷ []) (one_registered, 0))
run-Good_example =
    run-Good poll_ops poll_laws (λ _ _. Unit {0}) (λ m w h k. k) quit_loop add_up
      (λ ev p h s g e.
        ((g.0.0, record { live = g.0.1.live; valid = g.0.1.valid; agree = g.0.1.agree }), tt))
      (λ f s g. (g.0, tt)) 3 (five_readable ∷ []) (one_registered, 0)
      ((polled, one_registered-InSync), tt)

-- It never comes back from a longer wait with anything.
abbrev impatient : Ops DispatcherPoll (List PollFd × ℤ) PollAnswer
impatient = record poll_ops {
  handle_events = λ d ask t.
      if t ==ℤ pos 1
      then handle_events d ask t
      else if t ==ℤ pos 2
      then handle_events d ask t
      else (negsuc 0, [], d);
}

impatient-AgreeBriefly : AgreeBriefly poll_ops impatient
unfolding poll_ops ◌==ℤ◌
impatient-AgreeBriefly d ask t (inl e) = rw e refl
impatient-AgreeBriefly d ask t (inr e) = rw e refl

run_waits_briefly_example :
    run poll_ops quit_loop add_up 3 (five_readable ∷ []) (one_registered, 0)
    ≡ run impatient quit_loop add_up 3 (five_readable ∷ []) (one_registered, 0)
run_waits_briefly_example =
    run_waits_briefly poll_ops impatient quit_loop add_up impatient-AgreeBriefly 3
      (five_readable ∷ []) (one_registered, 0)

run_functors_drains_example :
    run_functors poll_ops quit_loop add_up 3 (one_registered, 0)
    ≡ ok (record one_registered { functors = [] }, foldl (λ w f. w + f) 0 (4 ∷ 6 ∷ []))
run_functors_drains_example =
    run_functors_drains poll_ops quit_loop add_up (λ w f. w + f) 3 one_registered 0 (λ f l w. refl)
      (omega arith)

-- The counter itself.
abbrev counter : EventFd ℕ
counter = record { write = λ e n. (pos 8, e + n); read = λ e. (pos 8, e, 0) }

abbrev counter_laws : EventFdLaws counter
counter_laws = record {
  counter = λ e. e;
  write_lem = λ e n h. (refl, refl);
  read_lem = λ e h. (refl, refl, refl);
}

wakeup_twice_aborts_example :
    (write_some counter 0 >>= write_some counter >>= do_handle_read counter) ≡ fault assertion
wakeup_twice_aborts_example = wakeup_twice_aborts counter counter_laws 0 refl

create_runs :
    Returns {A = Loop}
      (λ l. l.wakeup ≡ some (pos 3))
      (create poll_ops (pos 3) (some 8) (some (record polled { pollfds = [] })))
unfolding create open_wakeup register_event poll_ops add_event ◌==ℤ◌
create_runs = refl

-- Handle 5 is watched for writing too, and three bytes are to be sent.
abbrev busy : DispatcherPoll
busy = record { last_errno = pos 0; pollfds = make_pollfd (pos 5) true true ∷ [] }

abbrev busy_loop : Loop
busy_loop = record one_registered { dispatcher = some busy }

abbrev sending : Connection
sending = record {
  handle = pos 5;
  buffer_in = empty_stream;
  buffer_out = record { text = 1 ∷ 2 ∷ 3 ∷ []; put_at = 3 };
}

poll_obliging : Obliging poll_ops poll_laws
unfolding poll_ops poll_laws
poll_obliging d h w v old = mod_event-Set d h w v old

busy_loop-IsKnown : IsKnown {F = ℕ} poll_ops poll_laws busy_loop (pos 5)
unfolding poll_laws ◌==ℤ◌
busy_loop-IsKnown =
    (refl, refl, (busy, record { live = refl; valid = (refl, tt); agree = λ g. ground arith }))

write_over_loop_example :
    Returns
      (λ r.
        (r.0 ++ r.1.buffer_out.text ≡ 1 ∷ 2 ∷ 3 ∷ [])
        × IsKnown poll_ops poll_laws r.2 (pos 5)
        × (writes_of poll_ops poll_laws r.2 (pos 5) ≡ not (is_empty r.1.buffer_out.text)))
      (do_handle_write
        (loop_ops {F = ℕ} poll_ops 1)
        (interrupted ∷ sent 2 ∷ would_block ∷ [])
        (sending, busy_loop))
unfolding poll_laws ◌==ℤ◌
write_over_loop_example =
    write_over_loop poll_ops poll_laws (interrupted ∷ sent 2 ∷ would_block ∷ []) sending busy_loop 1
      poll_obliging (inr (omega arith, tt)) (omega arith) busy_loop-IsKnown refl

abbrev nothing_queued : Loop
nothing_queued = record one_registered { functors = [] }

nothing_queued-InSync : InSync poll_ops poll_laws nothing_queued polled
unfolding poll_laws ◌==ℤ◌
nothing_queued-InSync = record { live = refl; valid = (refl, tt); agree = λ g. ground arith }

run_quits_example :
    Returns
      (λ s'.
        Quiet poll_ops poll_laws (λ _ _. Unit {0}) (λ m w h k. k) quit_loop add_up s'
        × (s'.0.quit ≡ true))
      (run poll_ops quit_loop add_up 1 (five_readable ∷ []) (nothing_queued, 0))
unfolding poll_ops handle_events collect events_of ◌==ℤ◌
run_quits_example =
    run_quits poll_ops poll_laws (λ _ _. Unit {0}) (λ m w h k. k) quit_loop add_up
      (λ ev p h s g e. (
        (
          (
            (g.0.0.0, record { live = g.0.0.1.live; valid = g.0.0.1.valid; agree = g.0.0.1.agree }),
            tt,
          ),
          g.1,
        ),
        λ q. refl,
      ))
      0 five_readable [] nothing_queued polled 0 (pos 5) event_read 1 [] nothing_queued-InSync tt
      refl refl refl (λ t g. refl)
