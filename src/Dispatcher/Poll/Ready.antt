-- ===== src/Dispatcher/Poll/Ready.antt =====
-- What `DispatcherPoll::handle_events` of src/net/dispatcher/poll.cc reports.
use libolptnet.Base.{
  ℕ, suc, ℤ, pos, negsuc, ◌==ℤ◌, ==ℤ_iff, ◌≡◌, refl, Bool, false, List, [], ◌∷◌, Option, none, some,
  arith, if◌then◌else◌, ◌∙◌, Bool-cases, inl, inr,
}
use libolptnet.Dispatcher.Base.{
  Event, event_read, event_write, event_error, Flags, has_ready, has_ready-append, raises,
}
use libolptnet.Dispatcher.Poll.{
  PollFd, DispatcherPoll, PollAnswer, events_of, collect, report_all, handle_events,
}
use libolptnet.Dispatcher.Poll.Watches.{has, NoRepeat}

-- The entry of a handle.
abbrev pub entry : ℤ → List PollFd → Option PollFd
entry g [] = none
entry g (p ∷ ps) = if g ==ℤ p.fd then some p else entry g ps

abbrev pub raised : (PollFd → Flags) → Event → Option PollFd → Bool
raised report e none = false
raised report e (some p) = raises (report p) e

has_ready-events_of :
    (g : ℤ) (e : Event) (p : PollFd)
    → has_ready g e (events_of p) ≡ (if g ==ℤ p.fd then raises p.revents e else false)
unfolding events_of
has_ready-events_of g event_read p = ground arith
has_ready-events_of g event_write p = ground arith
has_ready-events_of g event_error p = ground arith

collect_absent :
    (g : ℤ) (e : Event) (report : PollFd → Flags) (ps : List PollFd)
    → has g ps ≡ false
    → has_ready g e (collect (report_all report ps)) ≡ false
unfolding collect
collect_absent g e report [] h = refl
collect_absent g e report (p ∷ ps) h =
    has_ready-append g e (events_of (record p { revents = report p }))
      (collect (report_all report ps))
    ∙ ground (
      arith,
      has_ready-events_of g e (record p { revents = report p }),
      collect_absent g e report ps,
    )

collect_lem :
    (g : ℤ) (e : Event) (report : PollFd → Flags) (ps : List PollFd)
    → NoRepeat ps
    → has_ready g e (collect (report_all report ps)) ≡ raised report e (entry g ps)
unfolding collect
collect_lem g e report [] n = refl
collect_lem g e report (p ∷ ps) n =
    has_ready-append g e (events_of (record p { revents = report p }))
      (collect (report_all report ps))
    ∙ elim (Bool-cases (g ==ℤ p.fd)) [
      | inl same ↦ ground (
        arith,
        has_ready-events_of g e (record p { revents = report p }),
        collect_absent g e report ps,
        ==ℤ_iff g p.fd,
      )
      | inr other ↦ ground (
        arith,
        has_ready-events_of g e (record p { revents = report p }),
        collect_lem g e report ps n.1,
      )
    ]

-- Where `::poll` returns a positive count and no handle has two entries in the array, an event is
-- reported for a handle exactly if the handle has an entry and the system has raised a flag of that
-- event in it.
pub handle_events_reports :
    (d : DispatcherPoll) (poll : List PollFd × ℤ → PollAnswer) (timeout_ms : ℤ) (n : ℕ)
    → NoRepeat d.pollfds
    → (poll (d.pollfds, timeout_ms)).ret ≡ pos (suc n)
    → (g : ℤ) (e : Event)
    → has_ready g e (handle_events d poll timeout_ms).1
      ≡ raised (poll (d.pollfds, timeout_ms)).report e (entry g d.pollfds)
unfolding handle_events
handle_events_reports d poll t n nr r g e =
    rw r (collect_lem g e (poll (d.pollfds, t)).report d.pollfds nr)

-- Where it returns zero or less nothing is reported, and an error's number is kept.
pub handle_events_quiet :
    (d : DispatcherPoll) (poll : List PollFd × ℤ → PollAnswer) (timeout_ms : ℤ)
    → ((poll (d.pollfds, timeout_ms)).ret ≡ pos 0
        → ((handle_events d poll timeout_ms).1 ≡ [])
          × ((handle_events d poll timeout_ms).0 ≡ pos 0))
      × ((n : ℕ)
          → (poll (d.pollfds, timeout_ms)).ret ≡ negsuc n
          → ((handle_events d poll timeout_ms).1 ≡ [])
            × ((handle_events d poll timeout_ms).0 ≡ negsuc 0)
            × ((handle_events d poll timeout_ms).2.last_errno
                ≡ (poll (d.pollfds, timeout_ms)).errno))
unfolding handle_events
handle_events_quiet d poll t = (λ e. rw e (refl, refl), λ n e. rw e (refl, refl, refl))
