-- ===== src/Tests/Dispatchers.antt =====
-- The theorems on src/net/dispatcher, at concrete inputs.
use libolptnet.Base.{
  ℕ, ℤ, pos, negsuc, ◌==ℤ◌, ok, Returns, ◌==◌, if◌then◌else◌, Option-cases, ◌≡◌, refl, inl, inr,
  true, false, Option, none, some, List, [], ◌∷◌, arith,
}
use libolptnet.Dispatcher.Create.{create_dispatcher, dispatcher_ops}
use libolptnet.Dispatcher.Create.Dispatches.{dispatcher_laws}
use libolptnet.ServiceLoop.Construct.{construct, IsReady, construct-IsReady}
use libolptnet.Dispatcher.Base.{Flags, event_read, event_write, event_error, no_flags, has_ready}
use mathlib.Core.Path.{subst}
use libolptnet.Dispatcher.Laws.{Set, Unset, Kept, Either, Sure}
use libolptnet.Dispatcher.Poll
use libolptnet.Dispatcher.Poll.Ready.{raised, entry, handle_events_reports}
use libolptnet.Dispatcher.Select
use libolptnet.Dispatcher.Select.Ready.{answered, OnlyAsked, select_reports}
use libolptnet.Dispatcher.Epoll
use libolptnet.Dispatcher.Epoll.Kernel.{
  Ctl, ctl_add, ctl_mod, ctl_del, EpollKernel, KernelLaws, enoent,
}

-- Two handles in the array; the first can be read.
abbrev two_entries : Poll.DispatcherPoll
two_entries = record {
  last_errno = pos 0;
  pollfds = Poll.make_pollfd (pos 5) true false ∷ Poll.make_pollfd (pos 6) true true ∷ [];
}

abbrev five_readable : List Poll.PollFd × ℤ → Poll.PollAnswer
five_readable _ = record {
  ret = pos 1;
  errno = pos 0;
  report = λ p. if p.fd ==ℤ pos 5 then record no_flags { input = true } else no_flags;
}

handle_events_reports_example :
    has_ready (pos 5) event_read (Poll.handle_events two_entries five_readable (pos 2)).1
    ≡ raised
        (five_readable (two_entries.pollfds, pos 2)).report
        event_read
        (entry (pos 5) two_entries.pollfds)
unfolding ◌==ℤ◌
handle_events_reports_example =
    handle_events_reports two_entries five_readable (pos 2) 0 (refl, (refl, tt)) refl (pos 5)
      event_read

-- One handle in the sets.
abbrev only_five : Select.FdSet
only_five (pos n) = n == 5
only_five (negsuc n) = false

abbrev one_watched : Select.DispatcherSelect
one_watched = record {
  maxfd = pos 5;
  last_errno = pos 0;
  rsets = only_five;
  wsets = only_five;
  esets = only_five;
}

abbrev five_writeable : Select.SelectRequest → Select.SelectAnswer
five_writeable r = record {
  ret = pos 1;
  errno = pos 0;
  readset = Select.fd_zero;
  writeset = only_five;
  exceptset = Select.fd_zero;
}

only_five_in : (g : ℤ) → only_five g ≡ true → g ≡ pos 5
only_five_in g h = ground arith

one_watched-IsValid : Select.Watches.IsValid one_watched
one_watched-IsValid = record {
  fits = λ g h. rw (only_five_in g h) refl;
  below = λ g h. rw (only_five_in g h) refl;
  reads = λ g h. h;
  writes = λ g h. h;
}

answered_asked : OnlyAsked one_watched (five_writeable (Select.request one_watched (pos 2)))
answered_asked event_read g h = cc
answered_asked event_write g h = h
answered_asked event_error g h = cc

select_reports_example :
    has_ready (pos 5) event_write (Select.handle_events one_watched five_writeable (pos 2)).1
    ≡ answered (five_writeable (Select.request one_watched (pos 2))) event_write (pos 5)
select_reports_example =
    select_reports one_watched five_writeable (pos 2) 0 one_watched-IsValid answered_asked refl
      (pos 5) event_write

-- A kernel that answers every call with success.
abbrev willing : EpollKernel ℕ
willing = record { epoll_ctl = λ k op h f. (none, k) }

abbrev created : Epoll.DispatcherEpoll ℕ
created = record { epoll_fd = pos 3; last_errno = pos 0; fd_count = 0; kernel = 0 }

init_runs : Epoll.init willing no_flags (pos 3) 0 ≡ ok created
unfolding Epoll.init
init_runs = refl

mod_event-Set_example :
    Returns
      (Sure Poll.Watches.IsValid Poll.Watches.poll_view (Set (pos 6) false) two_entries)
      (Poll.mod_event two_entries (pos 6) true false)
unfolding ◌==ℤ◌
mod_event-Set_example = Poll.Watches.mod_event-Set two_entries (pos 6) false (refl, (refl, tt)) refl

add_event-Set_example :
    Returns
      (Sure Select.Watches.IsValid Select.Watches.select_view (Set (pos 9) true) one_watched)
      (Select.add_event one_watched (pos 9) true true)
add_event-Set_example =
    Select.Watches.add_event-Set one_watched (pos 9) true one_watched-IsValid refl refl

-- An instance is its interest list.
abbrev Interest : Type 0
Interest = ℤ → Option Flags

control : Interest → Ctl → ℤ → Flags → Option ℤ × Interest
control k ctl_add h f = (none, λ g. if g ==ℤ h then some f else k g)
control k ctl_mod h f = (none, λ g. if g ==ℤ h then some f else k g)
control k ctl_del h f = elim (k h) [
  | none ↦ (some enoent, k)
  | some _ ↦ (none, λ g. if g ==ℤ h then none else k g)
]

abbrev kernel : EpollKernel Interest
kernel = record { epoll_ctl = control }

control_fails :
    (k : Interest) (op : Ctl) (h : ℤ) (f : Flags) (errno : ℤ)
    → (control k op h f).0 ≡ some errno
    → (g : ℤ) → (control k op h f).1 g ≡ k g
unfolding control
control_fails k ctl_add h f errno e g = cc
control_fails k ctl_mod h f errno e g = cc
control_fails k ctl_del h f errno e g = elim (Option-cases (k h)) [
  | inl absent ↦ rw (absent, control) refl
  | inr (p, found) ↦ cc (
      subst (λ o. (elim o [ none ↦ some enoent | some _ ↦ none ]) ≡ some errno) found
        (ground arith))
]

kernel_laws : KernelLaws kernel
unfolding control
kernel_laws = record {
  interest = λ k. k;
  fails = control_fails;
  adds = λ k h f e g. refl;
  modifies = λ k h f e g. refl;
  deletes = λ k h f e g. ground arith;
  missing = λ k h f e. ground arith;
}

abbrev one_listed : Epoll.DispatcherEpoll Interest
one_listed = record {
  epoll_fd = pos 3;
  last_errno = pos 0;
  fd_count = 1;
  kernel = λ g. if g ==ℤ pos 5 then some no_flags else none;
}

del_event-Unset_example :
    Returns
      (λ r.
        (Unit {0}
          × Either r.0
              (Unset
                (pos 5)
                (Epoll.Watches.epoll_view kernel no_flags kernel_laws one_listed)
                (Epoll.Watches.epoll_view kernel no_flags kernel_laws r.1))
              (Kept
                (Epoll.Watches.epoll_view kernel no_flags kernel_laws one_listed)
                (Epoll.Watches.epoll_view kernel no_flags kernel_laws r.1)))
        × Epoll.Watches.Asked kernel no_flags kernel_laws one_listed (pos 5) r)
      (Epoll.del_event kernel no_flags one_listed (pos 5))
del_event-Unset_example =
    Epoll.Watches.del_event-Unset kernel no_flags kernel_laws one_listed (pos 5) (omega arith)

no_dispatcher : create_dispatcher kernel no_flags (pos 3) (pos 3) (λ g. none) ≡ ok none
unfolding create_dispatcher
no_dispatcher = refl

construct-IsReady_example :
    Returns
      (IsReady ℕ
        (dispatcher_ops kernel no_flags)
        (dispatcher_laws kernel no_flags kernel_laws)
        (pos 4)
        8)
      (construct kernel no_flags (pos 2) (pos 4) (some 8) (pos 3) (λ g. none))
unfolding kernel_laws
construct-IsReady_example =
    construct-IsReady ℕ kernel no_flags kernel_laws (pos 2) (pos 4) (pos 3) 8 (λ g. none) refl refl
      refl refl (λ g. refl) refl
