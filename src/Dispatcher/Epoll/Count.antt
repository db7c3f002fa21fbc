-- ===== src/Dispatcher/Epoll/Count.antt =====
-- `fd_count_` of src/net/dispatcher/epoll.cc, the length of the array that `handle_events` passes, and `epoll_fd_`.
use libolptnet.Base.{ℕ, suc, ◌+◌, ℤ, pos, ==ℤ_refl, add_int, ◌≡◌, ok, Bool, true, arith}
use libolptnet.Dispatcher.Base.{Flags}
use libolptnet.Dispatcher.Epoll.Kernel.{EpollKernel}
use libolptnet.Dispatcher.Epoll.{DispatcherEpoll, counted, init, destroy, add_event, del_event}
use libolptnet.NetBase.{World, open_fd}

module _ {K : Type 0} (kernel_ops : EpollKernel K) (junk : Flags) where
  counted_up :
      (d d' : DispatcherEpoll K) (b : Bool)
      → counted kernel_ops junk d ≡ ok (b, d')
      → d'.fd_count ≡ d.fd_count + 1
  unfolding counted add_int
  counted_up d d' b e = ground arith

  add_event_up :
      (d d' : DispatcherEpoll K) (h : ℤ) (r w : Bool)
      → add_event kernel_ops junk d h r w ≡ ok (true, d')
      → d'.fd_count ≡ d.fd_count + 1
  unfolding add_event add_int
  add_event_up d d' h r w e = ground arith

  del_event_up :
      (d d' : DispatcherEpoll K) (h : ℤ)
      → del_event kernel_ops junk d h ≡ ok (true, d')
      → d'.fd_count ≡ d.fd_count + 1
  unfolding del_event add_int
  del_event_up d d' h e = ground arith

  -- Where `add_event` and then `del_event` of a handle return true, `fd_count_` is two higher than
  -- before.
  pub count_after_round :
      (d d1 d2 : DispatcherEpoll K) (h : ℤ) (r w : Bool)
      → add_event kernel_ops junk d h r w ≡ ok (true, d1)
      → del_event kernel_ops junk d1 h ≡ ok (true, d2)
      → d2.fd_count ≡ d.fd_count + 2
  count_after_round d d1 d2 h r w e1 e2 =
      omega (arith, add_event_up d d1 h r w e1, del_event_up d1 d2 h e2)

  add_event-epoll_fd :
      (d d' : DispatcherEpoll K) (h : ℤ) (r w b : Bool)
      → add_event kernel_ops junk d h r w ≡ ok (b, d')
      → d'.epoll_fd ≡ d.epoll_fd
  unfolding add_event add_int
  add_event-epoll_fd d d' h r w b e = ground arith

  -- Where `::epoll_create` opens a descriptor other than 0, a dispatcher made with it and destroyed
  -- after a call of `add_event` leaves the descriptors that were open before.
  add_event-destroy :
      (n : ℕ) (k : K) (d d' : DispatcherEpoll K) (h : ℤ) (r w b : Bool) (world : World)
      → init kernel_ops junk (pos (suc n)) k ≡ ok d
      → add_event kernel_ops junk d h r w ≡ ok (b, d')
      → (destroy (d', open_fd (pos (suc n)) world)).1 ≡ world
  unfolding init destroy
  add_event-destroy n k d d' h r w b world made added =
      ground (arith, ==ℤ_refl (pos (suc n)), add_event-epoll_fd d d' h r w b added)
