-- ===== src/Dispatcher/Create/Fresh.antt =====
-- What `create_dispatcher` of src/net/event_dispatcher.cc returns, and what becomes of its first
-- handle.
use libolptnet.Base.{
  zero, suc, ℤ, pos, negsuc, is_positive, Returns, ltb, ◌≡◌, refl, Bool, true, false, Option, none,
  some, arith,
}
use libolptnet.Dispatcher.Base.{Flags}
use libolptnet.Dispatcher.Laws.{Set, Sure}
use libolptnet.Dispatcher.Select
use libolptnet.Dispatcher.Select.{in_range}
use libolptnet.Dispatcher.Select.Watches.{select_view}
use libolptnet.Dispatcher.Poll
use libolptnet.Dispatcher.Poll.Watches.{poll_view}
use libolptnet.Dispatcher.Epoll
use libolptnet.Dispatcher.Epoll.{DispatcherEpoll, make_events}
use libolptnet.Dispatcher.Epoll.Kernel.{EpollKernel, KernelLaws, ctl_add}
use libolptnet.Dispatcher.Epoll.Watches.{epoll_view}
use libolptnet.Dispatcher.Create.{
  EventDispatcher, by_select, by_poll, by_epoll, create_dispatcher, add_event,
}
use libolptnet.Dispatcher.Create.Dispatches.{IsValid, view, wrapped}

module _ {K : Type 0} (kernel_ops : EpollKernel K) (junk : Flags)
    (laws : KernelLaws kernel_ops) where
  -- The flag stands for a dispatcher.
  abbrev pub is_known : ℤ → Bool
  is_known (pos n) = ltb n 3
  is_known (negsuc n) = false

  -- A new kernel instance has an empty interest list.
  abbrev pub IsNew : K → Type 0
  IsNew k = (g : ℤ) → laws.interest k g ≡ none

  -- The kernel takes the handle for reading.
  abbrev pub Takes : K → ℤ → Type 0
  Takes k h = (kernel_ops.epoll_ctl k ctl_add h (make_events junk true false)).0 ≡ none

  abbrev Taken : ℤ → EventDispatcher K → Bool × EventDispatcher K → Type 0
  Taken h d = Sure (IsValid kernel_ops junk laws) (view kernel_ops junk laws) (Set h false) d

  -- It is valid, watches nothing, and takes `h`.
  pub record IsFresh (h : ℤ) (d : EventDispatcher K) : Type 0 where
    pub valid : IsValid kernel_ops junk laws d
    pub watches_none : (g : ℤ) → (view kernel_ops junk laws d).watches g ≡ false
    pub takes :
        Returns
          (Sure (IsValid kernel_ops junk laws) (view kernel_ops junk laws) (Set h false) d)
          (add_event kernel_ops junk d h true false)

  select-IsFresh : (h : ℤ) → in_range h ≡ true → IsFresh h (by_select Select.init)
  unfolding add_event
  select-IsFresh h r = record {
    valid = valid;
    watches_none = λ g. refl;
    takes =
        wrapped kernel_ops junk laws by_select (Taken h (by_select Select.init))
          (Select.add_event Select.init h true false)
          (Select.Watches.add_event-Set Select.init h false valid r refl);
  }
    where
      valid : Select.Watches.IsValid Select.init
      valid = record { fits = λ g e. cc; below = λ g e. cc; reads = λ g e. cc; writes = λ g e. cc }

  poll-IsFresh : (h : ℤ) → IsFresh h (by_poll Poll.init)
  unfolding add_event
  poll-IsFresh h = record {
    valid = tt;
    watches_none = λ g. refl;
    takes =
        wrapped kernel_ops junk laws by_poll (Taken h (by_poll Poll.init))
          (Poll.add_event Poll.init h true false)
          (Poll.Watches.add_event-Set Poll.init h false tt refl);
  }

  abbrev first : ℤ → K → DispatcherEpoll K
  first epoll_fd k = record { epoll_fd = epoll_fd; last_errno = pos 0; fd_count = 0; kernel = k }

  epoll-IsFresh :
      (h epoll_fd : ℤ) (k : K) → IsNew k → Takes k h → IsFresh h (by_epoll (first epoll_fd k))
  unfolding add_event
  epoll-IsFresh h epoll_fd k new takes = record {
    valid = tt;
    watches_none = λ g. rw (new g) refl;
    takes =
        wrapped kernel_ops junk laws by_epoll (Taken h (by_epoll (first epoll_fd k)))
          (Epoll.add_event kernel_ops junk (first epoll_fd k) h true false)
          (Epoll.Watches.add_event-Sure kernel_ops junk laws (first epoll_fd k) h false
            (omega arith) takes);
  }

  -- NULL for an unknown flag, and a fresh dispatcher for the others.
  abbrev pub Created : ℤ → ℤ → Option (EventDispatcher K) → Type 0
  Created flg h none = is_known flg ≡ false
  Created flg h (some d) = (is_known flg ≡ true) × IsFresh h d

  -- For a positive descriptor of `::epoll_create`, a new epoll instance that watches nothing and
  -- takes a handle below FD_SETSIZE: `create_dispatcher` returns NULL for an unknown flag, and else
  -- a valid dispatcher that watches nothing and takes that handle.
  pub create_dispatcher-IsFresh :
      (flg epoll_fd h : ℤ) (k : K)
      → is_positive epoll_fd ≡ true
      → in_range h ≡ true
      → IsNew k
      → Takes k h
      → Returns (Created flg h) (create_dispatcher kernel_ops junk flg epoll_fd k)
  unfolding create_dispatcher Epoll.init
  create_dispatcher-IsFresh (pos zero) epoll_fd h k p r new takes = (refl, select-IsFresh h r)
  create_dispatcher-IsFresh (pos (suc zero)) epoll_fd h k p r new takes = (refl, poll-IsFresh h)
  create_dispatcher-IsFresh (pos (suc (suc zero))) epoll_fd h k p r new takes =
      rw p (refl, epoll-IsFresh h epoll_fd k new takes)
  create_dispatcher-IsFresh (pos (suc (suc (suc n)))) epoll_fd h k p r new takes = ground arith
  create_dispatcher-IsFresh (negsuc n) epoll_fd h k p r new takes = refl
