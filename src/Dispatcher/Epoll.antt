-- ===== src/Dispatcher/Epoll.antt =====
-- src/net/dispatcher/epoll.cc. The system's epoll instance is a parameter with its operation
-- `epoll_ctl`; the answer of `::epoll_wait` is an argument.
pub mod Kernel
pub mod Watches
pub mod Count
use libolptnet.Base.{
  ℕ, zero, suc, ◌+◌, ℤ, pos, negsuc, ◌==ℤ◌, is_positive, add_int, Outcome, ok, fault, assert, ◌>>=◌,
  ◌>>◌, Bool, true, false, ◌||◌, List, [], ◌∷◌, ◌++◌, length, Option, none, some, if◌then◌else◌,
}
use libolptnet.Dispatcher.Base.{
  Event, event_read, event_write, event_error, ReadyEvents, Flags, no_flags, Ops,
}
use libolptnet.NetBase.{World, close_fd}
use Kernel.{EpollKernel, Ctl, ctl_add, ctl_mod, ctl_del, enoent}

-- `kernel` is the state of the instance behind `epoll_fd`.
pub record DispatcherEpoll (K : Type 0) : Type 0 where
  pub epoll_fd : ℤ
  pub last_errno : ℤ
  pub fd_count : ℕ
  pub kernel : K

abbrev pub epollin : Flags
epollin = record no_flags { input = true }

abbrev pub epollout : Flags
epollout = record no_flags { output = true }

-- `ev.events` in `add_event` and `mod_event`: each test assigns it. It begins uninitialised, as
-- `junk`.
abbrev pub make_events : Flags → Bool → Bool → Flags
make_events junk readable writeable =
    let events = if readable then epollin else junk in if writeable then epollout else events

-- `::epoll_wait` fills an array of at most the requested length, or returns -1 with an `errno`.
pub data WaitAnswer : Type 0 where
  waited : List (ℤ × Flags) → WaitAnswer
  wait_failed : ℤ → WaitAnswer

-- The three `push_back`s for one entry.
pub events_of : ℤ → Flags → ReadyEvents
events_of fd f =
    (if f.input || f.urgent then (fd, event_read) ∷ [] else [])
    ++ ((if f.output then (fd, event_write) ∷ [] else [])
        ++ (if f.hangup || f.error then (fd, event_error) ∷ [] else []))

pub collect : List (ℤ × Flags) → ReadyEvents
collect [] = []
collect ((fd, f) ∷ es) = events_of fd f ++ collect es

-- `DispatcherEpoll::~DispatcherEpoll`, with the open descriptors.
pub destroy : {K : Type 0} → DispatcherEpoll K × World → DispatcherEpoll K × World
destroy (d, w) =
    if is_positive d.epoll_fd
    then (record d { epoll_fd = negsuc 0; fd_count = 0 }, close_fd d.epoll_fd w)
    else (d, w)

module _ {K : Type 0} (kernel_ops : EpollKernel K) (junk : Flags) where
  open kernel_ops use {epoll_ctl}

  -- `DispatcherEpoll::DispatcherEpoll`, with the result of `::epoll_create`.
  unfoldable pub init : ℤ → K → Outcome (DispatcherEpoll K)
  init epoll_fd k = do
    assert (is_positive epoll_fd)
    ok (record { epoll_fd = epoll_fd; last_errno = pos 0; fd_count = 0; kernel = k })

  -- `fd_count_++; return true;`, which ends `add_event` and also `del_event`.
  unfoldable pub counted : DispatcherEpoll K → Outcome (Bool × DispatcherEpoll K)
  counted d = add_int d.fd_count 1 >>= λ n. ok (true, record d { fd_count = n })

  -- `last_errno_ = errno; return false;`.
  abbrev refused : DispatcherEpoll K → ℤ → Outcome (Bool × DispatcherEpoll K)
  refused d errno = ok (false, record d { last_errno = errno })

  unfoldable pub add_event :
      DispatcherEpoll K → ℤ → Bool → Bool → Outcome (Bool × DispatcherEpoll K)
  unfolding counted
  add_event d handle readable writeable =
      let (error, k) = epoll_ctl d.kernel ctl_add handle (make_events junk readable writeable) in
      elim error [
        | none ↦ counted (record d { kernel = k })
        | some errno ↦ refused (record d { kernel = k }) errno
      ]

  pub mod_event : DispatcherEpoll K → ℤ → Bool → Bool → Outcome (Bool × DispatcherEpoll K)
  mod_event d handle readable writeable =
      let (error, k) = epoll_ctl d.kernel ctl_mod handle (make_events junk readable writeable) in
      elim error [
        | none ↦ ok (true, record d { kernel = k })
        | some errno ↦ refused (record d { kernel = k }) errno
      ]

  unfoldable pub del_event : DispatcherEpoll K → ℤ → Outcome (Bool × DispatcherEpoll K)
  unfolding counted
  del_event d handle =
      let (error, k) = epoll_ctl d.kernel ctl_del handle junk in
      elim error [
        | none ↦ counted (record d { kernel = k })
        | some errno ↦
            if errno ==ℤ enoent
            then counted (record d { kernel = k })
            else refused (record d { kernel = k }) errno
      ]

  -- What `handle_events` does with the answer.
  abbrev finish : DispatcherEpoll K → WaitAnswer → ℤ × ReadyEvents × DispatcherEpoll K
  finish d (wait_failed errno) = (negsuc 0, [], record d { last_errno = errno })
  finish d (waited []) = (pos 0, [], d)
  finish d (waited (e ∷ es)) = (pos (length (e ∷ es)), collect (e ∷ es), d)

  -- The request is the length of the array and the timeout.
  pub handle_events :
      DispatcherEpoll K → (ℕ × ℤ → WaitAnswer) → ℤ → ℤ × ReadyEvents × DispatcherEpoll K
  handle_events d epoll_wait timeout_ms = finish d (epoll_wait (d.fd_count, timeout_ms))

  pub epoll_ops : Ops (DispatcherEpoll K) (ℕ × ℤ) WaitAnswer
  epoll_ops = record {
    get_last_errno = λ d. d.last_errno;
    add_event = add_event;
    mod_event = mod_event;
    del_event = del_event;
    handle_events = handle_events;
  }
