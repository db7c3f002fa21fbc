-- ===== src/Dispatcher/Epoll/Watches.antt =====
-- Which handles the epoll instance of src/net/dispatcher/epoll.cc watches, and the interface's laws.
use libolptnet.Base.{
  ℕ, ◌+◌, ◌<◌, int_limit, add_int_small, ℤ, ◌==ℤ◌, ==ℤ_iff, ◌≡◌, refl, sym, ap, ◌∙◌, Bool, true,
  false, not, Option, none, some, arith, if◌then◌else◌, Returns, Returns-both, Option-cases,
  Bool-cases, inl, inr, [], ◌∷◌,
}
use libolptnet.Dispatcher.Base.{Flags}
use libolptnet.Dispatcher.Laws.{View, Kept, Set, Unset, Either, Sure, Sure-Either, Laws}
use libolptnet.Dispatcher.Epoll.Kernel.{EpollKernel, KernelLaws, ctl_add, ctl_mod, ctl_del, enoent}
use libolptnet.Dispatcher.Epoll.{
  DispatcherEpoll, WaitAnswer, waited, wait_failed, make_events, add_event, mod_event, del_event,
  handle_events, finish, epoll_ops,
}

abbrev listed : Option Flags → Bool
listed none = false
listed (some f) = true

abbrev outputs : Option Flags → Bool
outputs none = false
outputs (some f) = f.output

abbrev inputs : Option Flags → Bool
inputs none = false
inputs (some f) = f.input

inputs-make_events : (junk : Flags) (w : Bool) → (make_events junk true w).input ≡ not w
inputs-make_events junk true = refl
inputs-make_events junk false = refl

outputs-make_events : (junk : Flags) (w : Bool) → (make_events junk true w).output ≡ w
outputs-make_events junk true = refl
outputs-make_events junk false = refl

module _ {K : Type 0} (kernel_ops : EpollKernel K) (junk : Flags)
    (laws : KernelLaws kernel_ops) where
  open laws use {interest}

  abbrev pub epoll_view : DispatcherEpoll K → View
  epoll_view d = record {
    watches = λ g. listed (interest d.kernel g);
    reads = λ g. inputs (interest d.kernel g);
    reads_beside = not;
    writes = λ g. outputs (interest d.kernel g);
  }

  abbrev pub HasRoom : DispatcherEpoll K → ℤ → Type 0
  HasRoom d h = d.fd_count + 1 < int_limit

  -- The kernel does not refuse, so neither does the call.
  pub add_event-Sure :
      (d : DispatcherEpoll K) (h : ℤ) (w : Bool)
      → HasRoom d h
      → (kernel_ops.epoll_ctl d.kernel ctl_add h (make_events junk true w)).0 ≡ none
      → Returns (Sure (λ _. Unit {0}) epoll_view (Set h w) d) (add_event kernel_ops junk d h true w)
  unfolding add_event
  add_event-Sure d h w room e =
      rw (e, add_event)
        (rw (add_int_small d.fd_count 1 room) (
          refl,
          tt,
          record {
            set_watches = λ g. ground (arith, laws.adds d.kernel h (make_events junk true w) e g);
            set_reads = λ g. ground (
              arith,
              laws.adds d.kernel h (make_events junk true w) e g,
              inputs-make_events junk w,
            );
            set_writes = λ g. ground (
              arith,
              laws.adds d.kernel h (make_events junk true w) e g,
              outputs-make_events junk w,
            );
          },
        ))

  pub add_event-Set :
      (d : DispatcherEpoll K) (h : ℤ) (w : Bool)
      → HasRoom d h
      → Returns
          (λ r.
            Unit {0}
            × Either r.0
                (Set h w (epoll_view d) (epoll_view r.1))
                (Kept (epoll_view d) (epoll_view r.1)))
          (add_event kernel_ops junk d h true w)
  unfolding add_event
  add_event-Set d h w room =
      elim (Option-cases (kernel_ops.epoll_ctl d.kernel ctl_add h (make_events junk true w)).0) [
        | inl e ↦ Sure-Either (λ _. Unit {0}) epoll_view (Set h w) d _ (add_event-Sure d h w room e)
        | inr (errno, e) ↦
            rw (e, add_event)
              (
                tt,
                record {
                  same_watches =
                      λ g. rw (laws.fails d.kernel ctl_add h (make_events junk true w) errno e g);
                  same_reads =
                      λ g. rw (laws.fails d.kernel ctl_add h (make_events junk true w) errno e g);
                  same_writes =
                      λ g. rw (laws.fails d.kernel ctl_add h (make_events junk true w) errno e g);
                },
              )
      ]

  pub mod_event-Set :
      (d : DispatcherEpoll K) (h : ℤ) (w : Bool)
      → Returns
          (λ r.
            Unit {0}
            × Either r.0
                (Set h w (epoll_view d) (epoll_view r.1))
                (Kept (epoll_view d) (epoll_view r.1)))
          (mod_event kernel_ops junk d h true w)
  unfolding mod_event
  mod_event-Set d h w =
      elim (Option-cases (kernel_ops.epoll_ctl d.kernel ctl_mod h (make_events junk true w)).0) [
        | inl e ↦
            rw (e, mod_event)
              (
                tt,
                record {
                  set_watches =
                      λ g. ground (arith, laws.modifies d.kernel h (make_events junk true w) e g);
                  set_reads = λ g. ground (
                    arith,
                    laws.modifies d.kernel h (make_events junk true w) e g,
                    inputs-make_events junk w,
                  );
                  set_writes = λ g. ground (
                    arith,
                    laws.modifies d.kernel h (make_events junk true w) e g,
                    outputs-make_events junk w,
                  );
                },
              )
        | inr (errno, e) ↦
            rw (e, mod_event)
              (
                tt,
                record {
                  same_watches =
                      λ g. rw (laws.fails d.kernel ctl_mod h (make_events junk true w) errno e g);
                  same_reads =
                      λ g. rw (laws.fails d.kernel ctl_mod h (make_events junk true w) errno e g);
                  same_writes =
                      λ g. rw (laws.fails d.kernel ctl_mod h (make_events junk true w) errno e g);
                },
              )
      ]

  -- Deleting a handle that is not listed succeeds, and the list stays as it was.
  Unset-missing :
      (k k' : K) (h : ℤ)
      → interest k h ≡ none
      → ((g : ℤ) → interest k' g ≡ interest k g)
      → ((g : ℤ) → listed (interest k' g) ≡ (if g ==ℤ h then false else listed (interest k g)))
        × ((g : ℤ) → (g ==ℤ h) ≡ false → inputs (interest k' g) ≡ inputs (interest k g))
        × ((g : ℤ) → (g ==ℤ h) ≡ false → outputs (interest k' g) ≡ outputs (interest k g))
  Unset-missing k k' h absent same =
      (λ g. ground (arith, same g, ==ℤ_iff g h), λ g e. rw (same g), λ g e. rw (same g))

  pub del_event-Either :
      (d : DispatcherEpoll K) (h : ℤ)
      → HasRoom d h
      → Returns
          (λ r.
            Unit {0}
            × Either r.0
                (Unset h (epoll_view d) (epoll_view r.1))
                (Kept (epoll_view d) (epoll_view r.1)))
          (del_event kernel_ops junk d h)
  unfolding del_event
  del_event-Either d h room = elim (Option-cases (kernel_ops.epoll_ctl d.kernel ctl_del h junk).0) [
    | inl e ↦
        rw (e, del_event)
          (rw (add_int_small d.fd_count 1 room) (
            tt,
            record {
              unset_watches = λ g. ground (arith, laws.deletes d.kernel h junk e g);
              unset_reads = λ g o. ground (arith, laws.deletes d.kernel h junk e g);
              unset_writes = λ g o. ground (arith, laws.deletes d.kernel h junk e g);
            },
          ))
    | inr (errno, e) ↦ elim (Bool-cases (errno ==ℤ enoent)) [
      | inl gone ↦
          let same = (==ℤ_iff errno enoent).0 gone in
          let u =
            Unset-missing d.kernel (kernel_ops.epoll_ctl d.kernel ctl_del h junk).1 h
              (laws.missing d.kernel h junk (rw same at e))
              (laws.fails d.kernel ctl_del h junk errno e) in
          rw (e, del_event)
            (rw (gone, add_int_small d.fd_count 1 room)
              (tt, record { unset_watches = u.0; unset_reads = u.1; unset_writes = u.2 }))
      | inr other ↦
          rw (e, del_event)
            (rw other (
              tt,
              record {
                same_watches = λ g. rw (laws.fails d.kernel ctl_del h junk errno e g);
                same_reads = λ g. rw (laws.fails d.kernel ctl_del h junk errno e g);
                same_writes = λ g. rw (laws.fails d.kernel ctl_del h junk errno e g);
              },
            ))
    ]
  ]

  -- The handle is gone: it has been deleted, or it was not there.
  abbrev pub is_gone : Option ℤ → Bool
  is_gone none = true
  is_gone (some errno) = errno ==ℤ enoent

  -- The kernel was asked once to delete the handle, and its answer decides.
  abbrev pub Asked : DispatcherEpoll K → ℤ → Bool × DispatcherEpoll K → Type 0
  Asked d h r =
      let (error, k) = kernel_ops.epoll_ctl d.kernel ctl_del h junk in
      (r.1.kernel ≡ k) × (r.0 ≡ is_gone error) × (r.0 ≡ false → error ≡ some r.1.last_errno)

  del_event-Asked :
      (d : DispatcherEpoll K) (h : ℤ)
      → HasRoom d h
      → Returns (Asked d h) (del_event kernel_ops junk d h)
  unfolding del_event
  del_event-Asked d h room = elim (Option-cases (kernel_ops.epoll_ctl d.kernel ctl_del h junk).0) [
    | inl e ↦
        rw (e, del_event) (rw (add_int_small d.fd_count 1 room) (refl, sym (ap is_gone e), λ k. cc))
    | inr (errno, e) ↦ elim (Bool-cases (errno ==ℤ enoent)) [
      | inl gone ↦
          rw (e, del_event)
            (rw (gone, add_int_small d.fd_count 1 room) (refl, sym (ap is_gone e ∙ gone), λ k. cc))
      | inr other ↦ rw (e, del_event) (rw other (refl, sym (ap is_gone e ∙ other), λ k. e))
    ]
  ]

  -- For a kernel with the documented laws of `epoll_ctl`, where `fd_count_` can be raised by one
  -- without overflow, `del_event` returns, with the kernel as one EPOLL_CTL_DEL of the handle has
  -- left it; it returns true exactly if the kernel did not fail or answered ENOENT, and then the
  -- handle is not watched and nothing has changed for the others; if it returns false nothing has
  -- changed for any handle, and `last_errno_` is the kernel's error number.
  pub del_event-Unset :
      (d : DispatcherEpoll K) (h : ℤ)
      → HasRoom d h
      → Returns
          (λ r.
            (Unit {0}
              × Either r.0
                  (Unset h (epoll_view d) (epoll_view r.1))
                  (Kept (epoll_view d) (epoll_view r.1)))
            × Asked d h r)
          (del_event kernel_ops junk d h)
  del_event-Unset d h room =
      Returns-both _ (Asked d h) _ (del_event-Either d h room) (del_event-Asked d h room)

  pub handle_events-Kept :
      (d : DispatcherEpoll K) (ask : ℕ × ℤ → WaitAnswer) (timeout_ms : ℤ)
      → let d' = (handle_events kernel_ops junk d ask timeout_ms).2 in
        Unit {0} × Kept (epoll_view d) (epoll_view d')
  unfolding handle_events
  handle_events-Kept d ask t = kept (ask (d.fd_count, t))
    where
      kept :
          (a : WaitAnswer)
          → Unit {0} × Kept (epoll_view d) (epoll_view (finish kernel_ops junk d a).2)
      kept (wait_failed errno) =
          (tt, record { same_watches = λ g. refl; same_reads = λ g. refl; same_writes = λ g. refl })
      kept (waited []) =
          (tt, record { same_watches = λ g. refl; same_reads = λ g. refl; same_writes = λ g. refl })
      kept (waited (e ∷ es)) =
          (tt, record { same_watches = λ g. refl; same_reads = λ g. refl; same_writes = λ g. refl })

  -- The instance fills the interface.
  abbrev pub epoll_laws : Laws (epoll_ops kernel_ops junk)
  unfolding epoll_ops
  epoll_laws = record {
    IsValid = λ _. Unit {0};
    HasRoom = HasRoom;
    view = epoll_view;
    add_lem = λ d h w _ room _. add_event-Set d h w room;
    mod_lem = λ d h w _ _. mod_event-Set d h w;
    del_lem = λ d h _ room. del_event-Either d h room;
    wait_lem = λ d ask t _. handle_events-Kept d ask t;
  }
