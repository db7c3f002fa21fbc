-- ===== src/ServiceLoop/Construct.antt =====
-- `ServiceLoop::ServiceLoop` of src/net/service_loop.cc with the dispatcher that it asks for.
use libolptnet.Base.{
  ℕ, ℤ, pos, negsuc, ◌==ℤ◌, ==ℤ_iff, ==ℤ_refl, is_positive, Outcome, ok, ◌>>=◌, Returns,
  Returns-assert, Returns->>=, if◌then◌else◌, ◌≡◌, refl, Bool, true, false, not, Option, none, some,
  [], arith,
}
use libolptnet.Dispatcher.Base.{Flags, Ops}
use libolptnet.Dispatcher.Laws.{Set, Laws, Sure}
use libolptnet.Dispatcher.Select.{in_range}
use libolptnet.Dispatcher.Epoll.Kernel.{EpollKernel, KernelLaws}
use libolptnet.Dispatcher.Create.{EventDispatcher, create_dispatcher, dispatcher_ops}
use libolptnet.Dispatcher.Create.Dispatches.{dispatcher_laws}
use libolptnet.Dispatcher.Create.Fresh.{is_known, IsNew, Takes, Created, create_dispatcher-IsFresh}
use libolptnet.ServiceLoop.{ServiceLoop, HandlerPtr, no_handlers, update, register_event}
use libolptnet.ServiceLoop.Sync.{InSync, registered}
use libolptnet.ServiceLoop.Wakeup.{open_wakeup, create}

module _ {K F : Type 0} (kernel_ops : EpollKernel K) (junk : Flags) where
  -- `poll` is the argument, and the others are what the system returns.
  unfoldable pub construct :
      ℤ → ℤ → HandlerPtr → ℤ → K → Outcome (ServiceLoop (EventDispatcher K) F)
  construct poll ev_fd this epoll_fd k =
      create_dispatcher kernel_ops junk poll epoll_fd k
      >>= create (dispatcher_ops kernel_ops junk) ev_fd this

module _ {D R A : Type 0} (F : Type 0) (ops : Ops D R A) (laws : Laws ops) where
  -- In step with its dispatcher, with the wake-up handler registered and nothing else.
  pub record IsReady (ev_fd : ℤ) (p : ℕ) (l : ServiceLoop D F) : Type 0 where
    pub in_sync : (d : D) × InSync ops laws l d
    pub only_wakeup : (g : ℤ) → registered (l.handlers g) ≡ (g ==ℤ ev_fd)
    pub goes_on : l.quit ≡ false
    pub wakes : l.wakeup ≡ some ev_fd
    pub idle : l.functors ≡ []
    pub pointer_is : (g : ℤ) (q : ℕ) → l.handlers g ≡ some (some q) → q ≡ p

  -- The loop before `wakeup_->open()`.
  abbrev unopened : ℤ → D → ServiceLoop D F
  unopened ev_fd d = record {
    quit = false;
    dispatcher = some d;
    handlers = no_handlers;
    functors = [];
    wakeup = some ev_fd;
  }

  abbrev Opened : ℤ → ℕ → ℤ × ServiceLoop D F → Type 0
  Opened ev_fd p r = (r.0 ≡ pos 0) × IsReady ev_fd p r.1

  opened :
      (ev_fd : ℤ) (p : ℕ) (d : D) (r : Bool × D)
      → ((g : ℤ) → (laws.view d).watches g ≡ false)
      → Sure laws.IsValid laws.view (Set ev_fd false) d r
      → Returns (Opened ev_fd p) (
          if r.0
          then ok (
            pos 0,
            record (unopened ev_fd d) {
              dispatcher = some r.1;
              handlers = update no_handlers ev_fd (some (some p));
            },
          )
          else ok (ops.get_last_errno r.1, record (unopened ev_fd d) { dispatcher = some r.1 }))
  opened ev_fd p d (true, d') none_watched (e, v, set) = (
    refl,
    record {
      in_sync = (
        d',
        record {
          live = refl;
          valid = v;
          agree = λ g. ground (arith, set.set_watches g, none_watched g);
        },
      );
      only_wakeup = λ g. ground arith;
      goes_on = refl;
      wakes = refl;
      idle = refl;
      pointer_is = λ g q e. ground arith;
    },
  )
  opened ev_fd p d (false, d') none_watched (e, v, set) = cc

  register_first :
      (ev_fd : ℤ) (p : ℕ) (d : D)
      → ((g : ℤ) → (laws.view d).watches g ≡ false)
      → Returns (Sure laws.IsValid laws.view (Set ev_fd false) d) (ops.add_event d ev_fd true false)
      → is_positive ev_fd ≡ true
      → Returns (Opened ev_fd p) (register_event ops (unopened ev_fd d) ev_fd true false (some p))
  unfolding register_event
  register_first ev_fd p d none_watched taken positive = Returns-assert _ _ _ positive (
      Returns->>= _ (Sure laws.IsValid laws.view (Set ev_fd false) d) _ _ taken
        (λ (r : Bool × D) k. opened ev_fd p d r none_watched k))

  open_wakeup-IsReady :
      (ev_fd : ℤ) (p : ℕ) (d : D)
      → Returns (Opened ev_fd p) (register_event ops (unopened ev_fd d) ev_fd true false (some p))
      → Returns (IsReady ev_fd p) (open_wakeup ops (unopened ev_fd d) ev_fd (some p))
  unfolding open_wakeup
  open_wakeup-IsReady ev_fd p d h =
      Returns->>= (IsReady ev_fd p) (Opened ev_fd p) _ _ h (λ (r : ℤ × ServiceLoop D F) k.
        Returns-assert (IsReady ev_fd p) (r.0 ==ℤ pos 0) (ok r.1) (rw k.0 (==ℤ_refl (pos 0))) k.1)

  pub create-IsReady :
      (ev_fd : ℤ) (p : ℕ) (d : D)
      → ((g : ℤ) → (laws.view d).watches g ≡ false)
      → Returns (Sure laws.IsValid laws.view (Set ev_fd false) d) (ops.add_event d ev_fd true false)
      → is_positive ev_fd ≡ true
      → Returns (IsReady ev_fd p) (create ops ev_fd (some p) (some d))
  unfolding create
  create-IsReady ev_fd p d none_watched taken positive =
      Returns-assert (IsReady ev_fd p) (not (ev_fd ==ℤ negsuc 0))
        (open_wakeup ops (unopened ev_fd d) ev_fd (some p)) (not_failed ev_fd positive)
        (open_wakeup-IsReady ev_fd p d (register_first ev_fd p d none_watched taken positive))
    where
      not_failed : (h : ℤ) → is_positive h ≡ true → not (h ==ℤ negsuc 0) ≡ true
      not_failed (pos n) e = ground (arith, ==ℤ_iff (pos n) (negsuc 0))
      not_failed (negsuc n) e = cc

module _ {K : Type 0} (F : Type 0) (kernel_ops : EpollKernel K) (junk : Flags)
    (laws : KernelLaws kernel_ops) where
  -- For the flags 0, 1 and 2, where `::eventfd` and `::epoll_create` return positive descriptors,
  -- the first below FD_SETSIZE, a new epoll instance watches nothing and takes the eventfd: the
  -- constructor of `ServiceLoop` returns a loop that is in step with its dispatcher, in which the
  -- wake-up handler's descriptor is registered under its pointer and nothing else, with `quit_` not
  -- set and no functor queued.
  pub construct-IsReady :
      (poll ev_fd epoll_fd : ℤ) (p : ℕ) (k : K)
      → is_known kernel_ops junk laws poll ≡ true
      → is_positive ev_fd ≡ true
      → in_range ev_fd ≡ true
      → is_positive epoll_fd ≡ true
      → IsNew kernel_ops junk laws k
      → Takes kernel_ops junk laws k ev_fd
      → Returns
          (IsReady F
            (dispatcher_ops kernel_ops junk)
            (dispatcher_laws kernel_ops junk laws)
            ev_fd
            p)
          (construct kernel_ops junk poll ev_fd (some p) epoll_fd k)
  unfolding construct
  construct-IsReady poll ev_fd epoll_fd p k known positive small made new takes =
      Returns->>= _ (Created kernel_ops junk laws poll ev_fd)
        (create_dispatcher kernel_ops junk poll epoll_fd k) _
        (create_dispatcher-IsFresh kernel_ops junk laws poll epoll_fd ev_fd k made small new takes)
        started
    where
      started :
          (o : Option (EventDispatcher K))
          → Created kernel_ops junk laws poll ev_fd o
          → Returns
              (IsReady F
                (dispatcher_ops kernel_ops junk)
                (dispatcher_laws kernel_ops junk laws)
                ev_fd
                p)
              (create (dispatcher_ops kernel_ops junk) ev_fd (some p) o)
      started none e = cc
      started (some d) (e, fresh) =
          create-IsReady F (dispatcher_ops kernel_ops junk) (dispatcher_laws kernel_ops junk laws)
            ev_fd p d fresh.watches_none fresh.takes positive
