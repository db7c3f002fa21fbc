-- ===== src/Dispatcher/Create.antt =====
-- `EventDispatcher::create_dispatcher` of src/net/event_dispatcher.cc, and the dispatcher that its caller has: one
-- of the three behind the virtual functions.
pub mod Dispatches
pub mod Fresh
use libolptnet.Base.{
  ℕ, zero, suc, ℤ, pos, negsuc, Outcome, ok, ◌>>=◌, ◌>>◌, Bool, Option, none, some, List,
}
use libolptnet.Dispatcher.Base.{ReadyEvents, Flags, Ops}
use libolptnet.Dispatcher.Select
use libolptnet.Dispatcher.Select.{DispatcherSelect, SelectRequest, SelectAnswer}
use libolptnet.Dispatcher.Poll
use libolptnet.Dispatcher.Poll.{DispatcherPoll, PollFd, PollAnswer}
use libolptnet.Dispatcher.Epoll
use libolptnet.Dispatcher.Epoll.{DispatcherEpoll, WaitAnswer}
use libolptnet.Dispatcher.Epoll.Kernel.{EpollKernel}

pub data EventDispatcher (K : Type 0) : Type 0 where
  by_select : DispatcherSelect → EventDispatcher K
  by_poll : DispatcherPoll → EventDispatcher K
  by_epoll : DispatcherEpoll K → EventDispatcher K

-- What the system answers to whichever of its calls is made.
pub record Waits : Type 0 where
  pub select : SelectRequest → SelectAnswer
  pub poll : List PollFd × ℤ → PollAnswer
  pub epoll_wait : ℕ × ℤ → WaitAnswer

module _ {K : Type 0} (kernel_ops : EpollKernel K) (junk : Flags) where
  -- `flg`, with what `::epoll_create` returns; `none` is NULL.
  unfoldable pub create_dispatcher : ℤ → ℤ → K → Outcome (Option (EventDispatcher K))
  create_dispatcher (pos zero) epoll_fd k = ok (some (by_select Select.init))
  create_dispatcher (pos (suc zero)) epoll_fd k = ok (some (by_poll Poll.init))
  create_dispatcher (pos (suc (suc zero))) epoll_fd k =
      Epoll.init kernel_ops junk epoll_fd k >>= λ d. ok (some (by_epoll d))
  create_dispatcher (pos (suc (suc (suc n)))) epoll_fd k = ok none
  create_dispatcher (negsuc n) epoll_fd k = ok none

  abbrev pub wrap :
      {D : Type 0}
      → (D → EventDispatcher K)
      → Outcome (Bool × D)
      → Outcome (Bool × EventDispatcher K)
  wrap as_base m = m >>= λ r. ok (r.0, as_base r.1)

  unfoldable pub add_event :
      EventDispatcher K → ℤ → Bool → Bool → Outcome (Bool × EventDispatcher K)
  add_event (by_select d) h r w = wrap by_select (Select.add_event d h r w)
  add_event (by_poll d) h r w = wrap by_poll (Poll.add_event d h r w)
  add_event (by_epoll d) h r w = wrap by_epoll (Epoll.add_event kernel_ops junk d h r w)

  unfoldable pub mod_event :
      EventDispatcher K → ℤ → Bool → Bool → Outcome (Bool × EventDispatcher K)
  mod_event (by_select d) h r w = wrap by_select (Select.mod_event d h r w)
  mod_event (by_poll d) h r w = wrap by_poll (Poll.mod_event d h r w)
  mod_event (by_epoll d) h r w = wrap by_epoll (Epoll.mod_event kernel_ops junk d h r w)

  unfoldable pub del_event : EventDispatcher K → ℤ → Outcome (Bool × EventDispatcher K)
  del_event (by_select d) h = wrap by_select (Select.del_event d h)
  del_event (by_poll d) h = wrap by_poll (Poll.del_event d h)
  del_event (by_epoll d) h = wrap by_epoll (Epoll.del_event kernel_ops junk d h)

  abbrev pub get_last_errno : EventDispatcher K → ℤ
  get_last_errno (by_select d) = d.last_errno
  get_last_errno (by_poll d) = d.last_errno
  get_last_errno (by_epoll d) = d.last_errno

  unfoldable pub handle_events :
      EventDispatcher K → (Unit {0} → Waits) → ℤ → ℤ × ReadyEvents × EventDispatcher K
  handle_events (by_select d) waits t =
      let (n, ready, d') = Select.handle_events d (waits tt).select t in (n, ready, by_select d')
  handle_events (by_poll d) waits t =
      let (n, ready, d') = Poll.handle_events d (waits tt).poll t in (n, ready, by_poll d')
  handle_events (by_epoll d) waits t =
      let (n, ready, d') = Epoll.handle_events kernel_ops junk d (waits tt).epoll_wait t in
      (n, ready, by_epoll d')

  -- The virtual calls.
  abbrev pub dispatcher_ops : Ops (EventDispatcher K) (Unit {0}) Waits
  dispatcher_ops = record {
    get_last_errno = get_last_errno;
    add_event = add_event;
    mod_event = mod_event;
    del_event = del_event;
    handle_events = handle_events;
  }
