-- ===== src/ServiceLoop/Threads/Polling.antt =====
-- How often src/net/dispatcher/poll.cc reports the eventfd of src/net/service_loop.cc.
use libolptnet.Base.{
  ℕ, min, zero, suc, ◌+◌, ◌≤◌, ℤ, pos, negsuc, ◌==ℤ◌, ==ℤ_iff, if◌then◌else◌, Bool-cases, ◌≡◌, refl,
  inl, inr, false, ◌&&◌, ◌||◌, List, [], ◌∷◌, ◌++◌, arith,
}
use libolptnet.Dispatcher.Base.{ReadyEvents, Flags}
use libolptnet.Dispatcher.Poll.{
  PollFd, DispatcherPoll, PollAnswer, events_of, collect, report_all, handle_events, finish,
  poll_ops,
}
use libolptnet.Dispatcher.Poll.Watches.{has, NoRepeat, poll_laws}
use libolptnet.ServiceLoop.Wakeup.{EventFd, EventFdLaws}
use libolptnet.ServiceLoop.Threads.Alive.{wakes, IsTruthful}

module _ (ev_fd : ℤ) where
  wakes-append : (r t : ReadyEvents) → wakes ev_fd (r ++ t) ≡ wakes ev_fd r + wakes ev_fd t
  wakes-append [] t = omega arith
  wakes-append ((h, ev) ∷ r) t = ground (arith, wakes-append r t)

  wakes-events_of :
      (p : PollFd)
      → wakes ev_fd (events_of p)
        ≡ (if (p.fd ==ℤ ev_fd) && (p.revents.input || p.revents.urgent) then 1 else 0)
  unfolding events_of
  wakes-events_of p = ground arith

  module _ (report : PollFd → Flags) where
    abbrev reported : List PollFd → ReadyEvents
    reported ps = collect (report_all report ps)

    wakes_more :
        (p : PollFd) (ps : List PollFd)
        → wakes ev_fd (reported (p ∷ ps))
          ≡ wakes ev_fd (events_of (record p { revents = report p })) + wakes ev_fd (reported ps)
    unfolding collect
    wakes_more p ps = wakes-append (events_of (record p { revents = report p })) (reported ps)

    wakes_absent : (ps : List PollFd) → has ev_fd ps ≡ false → wakes ev_fd (reported ps) ≡ 0
    unfolding collect
    wakes_absent [] h = refl
    wakes_absent (p ∷ ps) h = ground (
      arith,
      wakes_more p ps,
      wakes-events_of (record p { revents = report p }),
      wakes_absent ps,
      ==ℤ_iff ev_fd p.fd,
      ==ℤ_iff p.fd ev_fd,
    )

    wakes_once : (ps : List PollFd) → NoRepeat ps → wakes ev_fd (reported ps) ≤ 1
    unfolding collect
    wakes_once [] n = omega arith
    wakes_once (p ∷ ps) n = elim (Bool-cases (p.fd ==ℤ ev_fd)) [
      | inl e ↦
          let same : p.fd ≡ ev_fd = (==ℤ_iff p.fd ev_fd).0 e in
          ground (
            arith,
            wakes_more p ps,
            wakes-events_of (record p { revents = report p }),
            wakes_absent ps (rw (← same) n.0),
          )
      | inr e ↦ ground (
        arith,
        wakes_more p ps,
        wakes-events_of (record p { revents = report p }),
        wakes_once ps n.1,
      )
    ]

    wakes_never :
        ((p : PollFd) → p.fd ≡ ev_fd → ((report p).input || (report p).urgent) ≡ false)
        → (ps : List PollFd) → wakes ev_fd (reported ps) ≡ 0
    unfolding collect
    wakes_never silent [] = refl
    wakes_never silent (p ∷ ps) = ground (
      arith,
      wakes_more p ps,
      wakes-events_of (record p { revents = report p }),
      wakes_never silent ps,
      silent p,
      ==ℤ_iff p.fd ev_fd,
    )

  at_most :
      (a : PollAnswer) (d : DispatcherPoll) (ret : ℤ) (n : ℕ)
      → (n ≡ 0 → wakes ev_fd (collect d.pollfds) ≡ 0)
      → wakes ev_fd (collect d.pollfds) ≤ 1
      → wakes ev_fd (finish d a ret).1 ≤ min 1 n
  at_most a d (negsuc k) n empty once = omega arith
  at_most a d (pos zero) n empty once = omega arith
  at_most a d (pos (suc k)) zero empty once = omega (arith, empty refl)
  at_most a d (pos (suc k)) (suc n) empty once = omega arith

  module _ {E : Type 0} {fd : EventFd E} (fd_laws : EventFdLaws fd)
      (answer : E → List PollFd × ℤ → PollAnswer) where
    -- poll(2): an eventfd can be read only if something is in it.
    abbrev pub IsLevel : Type 0
    IsLevel =
        (e : E) (asked : List PollFd × ℤ) (p : PollFd)
        → fd_laws.counter e ≡ 0
        → p.fd ≡ ev_fd
        → (((answer e asked).report p).input || ((answer e asked).report p).urgent) ≡ false

    pub poll-IsTruthful : IsLevel → IsTruthful poll_ops poll_laws fd_laws ev_fd answer
    unfolding poll_ops poll_laws handle_events
    poll-IsTruthful level e d t valid =
        let a = answer e (d.pollfds, t) in
        at_most a (record d { pollfds = report_all a.report d.pollfds }) a.ret (fd_laws.counter e)
          (λ z. wakes_never a.report (λ p r. level e (d.pollfds, t) p z r) d.pollfds)
          (wakes_once a.report d.pollfds valid)
