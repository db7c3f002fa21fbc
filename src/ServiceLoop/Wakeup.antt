-- ===== src/ServiceLoop/Wakeup.antt =====
-- `WakeupHandler` and the life of a loop in src/net/service_loop.cc. The system's `eventfd` is a
-- parameter.
pub mod Aborts
pub mod Quitting
use libolptnet.Base.{
  ℕ, ◌+◌, ◌<◌, ℤ, pos, negsuc, ◌==ℤ◌, is_nonneg, Outcome, ok, ◌>>=◌, ◌>>◌, assert, ◌==◌,
  if◌then◌else◌, ◌≡◌, true, false, not, Option, none, some, [],
}
use libolptnet.Dispatcher.Base.{Ops}
use libolptnet.ServiceLoop.{ServiceLoop, HandlerPtr, no_handlers, register_event, delete_event}

-- `::write` and `::read` of 8 bytes on the descriptor: the bytes moved, or -1, and the value read.
pub record EventFd (E : Type 0) : Type 0 where
  pub write : E → ℕ → ℤ × E
  pub read : E → ℤ × ℕ × E

-- eventfd(2), without EFD_SEMAPHORE: a write adds to the counter, a read takes it and resets it.
pub record EventFdLaws {E : Type 0} (fd : EventFd E) : Type 0 where
  pub counter : E → ℕ
  pub write_lem :
      (e : E) (n : ℕ)
      → counter e + n < 0x1_0000_0000
      → ((fd.write e n).0 ≡ pos 8) × (counter (fd.write e n).1 ≡ counter e + n)
  pub read_lem :
      (e : E)
      → 0 < counter e
      → ((fd.read e).0 ≡ pos 8) × ((fd.read e).1 ≡ counter e) × (counter (fd.read e).2 ≡ 0)

module _ {E : Type 0} (fd : EventFd E) where
  -- `WakeupHandler::write_some`.
  pub write_some : E → Outcome E
  write_some e = let (n, e') = fd.write e 1 in do assert (n ==ℤ pos 8); ok e'

  -- `WakeupHandler::do_handle_read`.
  unfoldable pub do_handle_read : E → Outcome E
  do_handle_read e =
      let (n, one, e') = fd.read e in do assert (n ==ℤ pos 8); assert (1 == one); ok e'

module _ {D R A F : Type 0} (ops : Ops D R A) where
  -- `WakeupHandler::open`; `this` is the handler's pointer.
  unfoldable pub open_wakeup : ServiceLoop D F → ℤ → HandlerPtr → Outcome (ServiceLoop D F)
  open_wakeup l ev_fd this = do
    (result, l') ← register_event ops l ev_fd true false this
    assert (result ==ℤ pos 0)
    ok l'

  -- `WakeupHandler::close`, with the new value of `ev_fd_`.
  pub close_wakeup : ServiceLoop D F → ℤ → Outcome (ℤ × ServiceLoop D F)
  close_wakeup l ev_fd =
      if is_nonneg ev_fd
      then (delete_event ops l ev_fd >>= λ r. assert (r.0 ==ℤ pos 0) >> ok (negsuc 0, r.1))
      else ok (ev_fd, l)

  -- `ServiceLoop::ServiceLoop`, with the descriptor that `::eventfd` returns and the dispatcher that
  -- `create_dispatcher` returns.
  unfoldable pub create : ℤ → HandlerPtr → Option D → Outcome (ServiceLoop D F)
  unfolding open_wakeup
  create ev_fd this dispatcher = do
    assert (not (ev_fd ==ℤ negsuc 0))
    assert (elim dispatcher [ none ↦ false | some _ ↦ true ])
    open_wakeup
        (record {
          quit = false;
          dispatcher = dispatcher;
          handlers = no_handlers;
          functors = [];
          wakeup = some ev_fd;
        })
        ev_fd this

  -- `delete wakeup_; wakeup_=NULL;`.
  abbrev delete_wakeup : ServiceLoop D F → Option ℤ → Outcome (ServiceLoop D F)
  delete_wakeup l none = ok l
  delete_wakeup l (some ev_fd) = close_wakeup l ev_fd >>= λ r. ok (record r.1 { wakeup = none })

  -- `ServiceLoop::~ServiceLoop`: the dispatcher goes first, then the map, then the wake-up handler.
  pub destroy : ServiceLoop D F → Outcome (ServiceLoop D F)
  unfolding close_wakeup
  destroy l = delete_wakeup (record l { dispatcher = none; handlers = no_handlers }) l.wakeup

module _ {E D F : Type 0} (fd : EventFd E) where
  -- `ServiceLoop::wakeup_event`.
  pub wakeup_event : ServiceLoop D F → E → Outcome E
  unfolding write_some
  wakeup_event l e = elim l.wakeup [ none ↦ ok e | some ev_fd ↦ write_some fd e ]

  -- `ServiceLoop::quit`, with no other thread in between.
  pub quit : ServiceLoop D F → E → Outcome (ServiceLoop D F × E)
  unfolding wakeup_event
  quit l e = wakeup_event (record l { quit = true }) e >>= λ e'. ok (record l { quit = true }, e')
