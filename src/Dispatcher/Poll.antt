-- ===== src/Dispatcher/Poll.antt =====
-- src/net/dispatcher/poll.cc. The answer of `::poll` is an argument.
pub mod Watches
pub mod Ready
use libolptnet.Base.{
  ℕ, zero, suc, ℤ, pos, negsuc, ◌==ℤ◌, Outcome, ok, fault, assertion, ◌>>=◌, Bool, true, false,
  ◌||◌, List, [], ◌∷◌, ◌++◌, Option, none, some, if◌then◌else◌,
}
use libolptnet.Dispatcher.Base.{
  Event, event_read, event_write, event_error, ReadyEvents, Flags, no_flags, Ops,
}

-- `struct pollfd`.
pub record PollFd : Type 0 where
  pub fd : ℤ
  pub events : Flags
  pub revents : Flags

pub record DispatcherPoll : Type 0 where
  pub last_errno : ℤ
  pub pollfds : List PollFd

-- `DispatcherPoll::DispatcherPoll`.
abbrev pub init : DispatcherPoll
init = record { last_errno = pos 0; pollfds = [] }

-- `DispatcherPoll::~DispatcherPoll`.
destroy : DispatcherPoll → DispatcherPoll
destroy d = record d { pollfds = [] }

-- The `pfd` that `add_event` and `mod_event` fill in.
abbrev pub make_pollfd : ℤ → Bool → Bool → PollFd
make_pollfd handle readable writeable = record {
  fd = handle;
  events = record {
    input = readable;
    urgent = readable;
    output = writeable;
    error = true;
    hangup = true;
  };
  revents = no_flags;
}

unfoldable pub add_event : DispatcherPoll → ℤ → Bool → Bool → Outcome (Bool × DispatcherPoll)
add_event d handle readable writeable =
    ok (true, record d { pollfds = d.pollfds ++ make_pollfd handle readable writeable ∷ [] })

-- The loop of `mod_event`, which writes the first entry of the handle; `none` at the end.
pub replace : ℤ → PollFd → List PollFd → Option (List PollFd)
replace handle pfd [] = none
replace handle pfd (p ∷ ps) =
    if handle ==ℤ p.fd
    then some (pfd ∷ ps)
    else elim (replace handle pfd ps) [ none ↦ none | some qs ↦ some (p ∷ qs) ]

-- `assert(0)` stands behind the loop.
pub mod_event : DispatcherPoll → ℤ → Bool → Bool → Outcome (Bool × DispatcherPoll)
mod_event d handle readable writeable =
    elim (replace handle (make_pollfd handle readable writeable) d.pollfds) [
      | none ↦ fault assertion
      | some ps ↦ ok (true, record d { pollfds = ps })
    ]

-- The loop of `del_event`, and `erase` where it has stopped.
pub remove : ℤ → List PollFd → List PollFd
remove handle [] = []
remove handle (p ∷ ps) = if handle ==ℤ p.fd then ps else p ∷ remove handle ps

pub del_event : DispatcherPoll → ℤ → Outcome (Bool × DispatcherPoll)
del_event d handle = ok (true, record d { pollfds = remove handle d.pollfds })

-- `::poll` returns a count, or a negative number with `errno`, and writes the `revents`.
pub record PollAnswer : Type 0 where
  pub ret : ℤ
  pub errno : ℤ
  pub report : PollFd → Flags

-- The three `push_back`s for one entry.
unfoldable pub events_of : PollFd → ReadyEvents
events_of p =
    (if p.revents.input || p.revents.urgent then (p.fd, event_read) ∷ [] else [])
    ++ ((if p.revents.output then (p.fd, event_write) ∷ [] else [])
        ++ (if p.revents.error || p.revents.hangup then (p.fd, event_error) ∷ [] else []))

unfoldable pub collect : List PollFd → ReadyEvents
collect [] = []
collect (p ∷ ps) = events_of p ++ collect ps

abbrev pub report_all : (PollFd → Flags) → List PollFd → List PollFd
report_all report [] = []
report_all report (p ∷ ps) = record p { revents = report p } ∷ report_all report ps

-- What `handle_events` does with the answer, `n` being `ret`.
abbrev pub finish : DispatcherPoll → PollAnswer → ℤ → ℤ × ReadyEvents × DispatcherPoll
finish d a (negsuc n) = (negsuc 0, [], record d { last_errno = a.errno })
finish d a (pos zero) = (pos 0, [], d)
finish d a (pos (suc n)) = (pos (suc n), collect d.pollfds, d)

-- `::poll(&pollfds_[0], pollfds_.size(), timeout_ms)`, and what follows it.
unfoldable pub handle_events :
    DispatcherPoll → (List PollFd × ℤ → PollAnswer) → ℤ → ℤ × ReadyEvents × DispatcherPoll
handle_events d poll timeout_ms =
    let a = poll (d.pollfds, timeout_ms) in
    finish (record d { pollfds = report_all a.report d.pollfds }) a a.ret

unfoldable pub poll_ops : Ops DispatcherPoll (List PollFd × ℤ) PollAnswer
poll_ops = record {
  get_last_errno = λ d. d.last_errno;
  add_event = add_event;
  mod_event = mod_event;
  del_event = del_event;
  handle_events = handle_events;
}
