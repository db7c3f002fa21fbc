-- ===== src/Dispatcher/Create/Dispatches.antt =====
-- The virtual calls of src/net/event_dispatcher.h and the interface's laws, over the dispatchers
-- that `create_dispatcher` of src/net/event_dispatcher.cc makes.
use libolptnet.Base.{ℤ, Outcome, ok, fault, Returns, ◌≡◌, Bool, true, false}
use libolptnet.Dispatcher.Base.{Flags}
use libolptnet.Dispatcher.Laws.{View, Kept, Set, Unset, Either, Laws, Sure-Either}
use libolptnet.Dispatcher.Select
use libolptnet.Dispatcher.Select.Watches.{select_view}
use libolptnet.Dispatcher.Poll
use libolptnet.Dispatcher.Poll.Watches.{poll_view}
use libolptnet.Dispatcher.Epoll
use libolptnet.Dispatcher.Epoll.{DispatcherEpoll, make_events}
use libolptnet.Dispatcher.Epoll.Kernel.{EpollKernel, KernelLaws}
use libolptnet.Dispatcher.Epoll.Watches.{epoll_view}
use libolptnet.Dispatcher.Create.{
  EventDispatcher, by_select, by_poll, by_epoll, Waits, wrap, add_event, mod_event, del_event,
  handle_events, dispatcher_ops,
}

module _ {K : Type 0} (kernel_ops : EpollKernel K) (junk : Flags)
    (laws : KernelLaws kernel_ops) where
  abbrev pub IsValid : EventDispatcher K → Type 0
  IsValid (by_select d) = Select.Watches.IsValid d
  IsValid (by_poll d) = Poll.Watches.IsValid d
  IsValid (by_epoll d) = Unit {0}

  abbrev pub HasRoom : EventDispatcher K → ℤ → Type 0
  HasRoom (by_select d) h = Select.Watches.HasRoom d h
  HasRoom (by_poll d) h = Unit {0}
  HasRoom (by_epoll d) h = Epoll.Watches.HasRoom kernel_ops junk laws d h

  abbrev pub view : EventDispatcher K → View
  view (by_select d) = select_view d
  view (by_poll d) = poll_view d
  view (by_epoll d) = epoll_view kernel_ops junk laws d

  -- The effect, or none, of a call that may be refused.
  abbrev pub Ends : (View → View → Type 0) → EventDispatcher K → Bool × EventDispatcher K → Type 0
  Ends Effect d r = IsValid r.1 × Either r.0 (Effect (view d) (view r.1)) (Kept (view d) (view r.1))

  -- What holds of the call of a dispatcher holds of the virtual call.
  pub wrapped :
      {D : Type 0} (as_base : D → EventDispatcher K) (P : Bool × EventDispatcher K → Type 0)
      (m : Outcome (Bool × D))
      → Returns (λ r. P (r.0, as_base r.1)) m
      → Returns P (wrap kernel_ops junk as_base m)
  wrapped as_base P (ok r) h = h
  wrapped as_base P (fault e) h = absurd h

  pub add_event-Ends :
      (d : EventDispatcher K) (h : ℤ) (w : Bool)
      → IsValid d
      → HasRoom d h
      → (view d).watches h ≡ false
      → Returns (Ends (Set h w) d) (add_event kernel_ops junk d h true w)
  unfolding add_event
  add_event-Ends (by_select d) h w v room new = wrapped by_select (Ends (Set h w) (by_select d)) _ (
      Sure-Either Select.Watches.IsValid select_view (Set h w) d _
        (Select.Watches.add_event-Set d h w v room new))
  add_event-Ends (by_poll d) h w v room new = wrapped by_poll (Ends (Set h w) (by_poll d)) _ (
      Sure-Either Poll.Watches.IsValid poll_view (Set h w) d _
        (Poll.Watches.add_event-Set d h w v new))
  add_event-Ends (by_epoll d) h w v room new =
      wrapped by_epoll (Ends (Set h w) (by_epoll d)) _
        (Epoll.Watches.add_event-Set kernel_ops junk laws d h w room)

  pub mod_event-Ends :
      (d : EventDispatcher K) (h : ℤ) (w : Bool)
      → IsValid d
      → (view d).watches h ≡ true
      → Returns (Ends (Set h w) d) (mod_event kernel_ops junk d h true w)
  unfolding mod_event
  mod_event-Ends (by_select d) h w v old = wrapped by_select (Ends (Set h w) (by_select d)) _ (
      Sure-Either Select.Watches.IsValid select_view (Set h w) d _
        (Select.Watches.mod_event-Set d h w v old))
  mod_event-Ends (by_poll d) h w v old = wrapped by_poll (Ends (Set h w) (by_poll d)) _ (
      Sure-Either Poll.Watches.IsValid poll_view (Set h w) d _
        (Poll.Watches.mod_event-Set d h w v old))
  mod_event-Ends (by_epoll d) h w v old =
      wrapped by_epoll (Ends (Set h w) (by_epoll d)) _
        (Epoll.Watches.mod_event-Set kernel_ops junk laws d h w)

  pub del_event-Ends :
      (d : EventDispatcher K) (h : ℤ)
      → IsValid d
      → HasRoom d h
      → Returns (Ends (Unset h) d) (del_event kernel_ops junk d h)
  unfolding del_event
  del_event-Ends (by_select d) h v room = wrapped by_select (Ends (Unset h) (by_select d)) _ (
      Sure-Either Select.Watches.IsValid select_view (Unset h) d _
        (Select.Watches.del_event-Unset d h v room))
  del_event-Ends (by_poll d) h v room = wrapped by_poll (Ends (Unset h) (by_poll d)) _ (
      Sure-Either Poll.Watches.IsValid poll_view (Unset h) d _ (Poll.Watches.del_event-Unset d h v))
  del_event-Ends (by_epoll d) h v room =
      wrapped by_epoll (Ends (Unset h) (by_epoll d)) _
        (Epoll.Watches.del_event-Either kernel_ops junk laws d h room)

  pub handle_events-Kept :
      (d : EventDispatcher K) (waits : Unit {0} → Waits) (t : ℤ)
      → IsValid d
      → let d' = (handle_events kernel_ops junk d waits t).2 in IsValid d' × Kept (view d) (view d')
  unfolding handle_events
  handle_events-Kept (by_select d) waits t v =
      Select.Watches.handle_events-Kept d (waits tt).select t v
  handle_events-Kept (by_poll d) waits t v = Poll.Watches.handle_events-Kept d (waits tt).poll t v
  handle_events-Kept (by_epoll d) waits t v =
      Epoll.Watches.handle_events-Kept kernel_ops junk laws d (waits tt).epoll_wait t

  -- The three dispatchers behind one interface.
  abbrev pub dispatcher_laws : Laws (dispatcher_ops kernel_ops junk)
  dispatcher_laws = record {
    IsValid = IsValid;
    HasRoom = HasRoom;
    view = view;
    add_lem = add_event-Ends;
    mod_lem = mod_event-Ends;
    del_lem = del_event-Ends;
    wait_lem = handle_events-Kept;
  }
