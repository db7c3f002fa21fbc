-- ===== src/ServiceLoop/Wakeup/Aborts.antt =====
-- When the assertions of `WakeupHandler` in src/net/service_loop.cc hold.
use libolptnet.Base.{
  zero, suc, ◌+◌, ◌<◌, ℤ, pos, negsuc, ==ℤ_refl, is_positive, assertion, ok, fault, ◌>>=◌, Returns,
  ◌≡◌, refl, sym, ◌∙◌, true, none, some, arith,
}
use mathlib.Core.Path.{subst}
use libolptnet.Dispatcher.Base.{Ops}
use libolptnet.ServiceLoop.{ServiceLoop, no_handlers, delete_event}
use libolptnet.ServiceLoop.Wakeup.{
  EventFd, EventFdLaws, write_some, do_handle_read, delete_wakeup, destroy,
}

module _ {E : Type 0} (fd : EventFd E) (laws : EventFdLaws fd) where
  pub write_some_lem :
      (e : E)
      → laws.counter e < 2
      → (e' : E) × (write_some fd e ≡ ok e') × (laws.counter e' ≡ laws.counter e + 1)
  unfolding write_some
  write_some_lem e h =
      let (n, c) = laws.write_lem e 1 (omega arith) in
      ((fd.write e 1).1, rw (n, ==ℤ_refl (pos 8)) refl, c)

  pub received :
      (e : E) → (fd.read e).0 ≡ pos 8 → (fd.read e).1 ≡ 1 → do_handle_read fd e ≡ ok (fd.read e).2
  unfolding do_handle_read
  received e n v = rw (n, ==ℤ_refl (pos 8)) (rw v refl)

  refused :
      (e : E) → (fd.read e).0 ≡ pos 8 → (fd.read e).1 ≡ 2 → do_handle_read fd e ≡ fault assertion
  unfolding do_handle_read
  refused e n v = rw (n, ==ℤ_refl (pos 8)) (rw v refl)

  -- With the eventfd's counter at 0, one `write_some` and then `do_handle_read` return, and the
  -- counter is 0 again.
  pub wakeup_received :
      (e : E)
      → laws.counter e ≡ 0
      → (e' : E) × ((write_some fd e >>= do_handle_read fd) ≡ ok e') × (laws.counter e' ≡ 0)
  wakeup_received e z =
      let (e1, w, c) = write_some_lem e (omega arith) in
      let (n, v, c') = laws.read_lem e1 (omega arith) in
      ((fd.read e1).2, rw w (received e1 n (v ∙ omega arith)), c')

  -- For an eventfd that adds up what is written and is emptied by a read: with its counter at 0,
  -- two `write_some` and then one `do_handle_read` of the wake-up handler fail the assertion that
  -- the value read is 1.
  pub wakeup_twice_aborts :
      (e : E)
      → laws.counter e ≡ 0
      → (write_some fd e >>= write_some fd >>= do_handle_read fd) ≡ fault assertion
  wakeup_twice_aborts e z =
      let (e1, w1, c1) = write_some_lem e (omega arith) in
      let (e2, w2, c2) = write_some_lem e1 (omega arith) in
      let (n, v, c') = laws.read_lem e2 (omega arith) in
      rw w1 (rw w2 (refused e2 n (v ∙ omega arith)))

module _ {D R A F : Type 0} (ops : Ops D R A) where
  -- The destructor of a loop whose wake-up handler has a positive descriptor returns, with neither
  -- wake-up handler nor dispatcher, though the wake-up handler is closed when the dispatcher is
  -- gone already.
  pub destroy-Returns :
      (l : ServiceLoop D F) (ev_fd : ℤ)
      → l.wakeup ≡ some ev_fd
      → is_positive ev_fd ≡ true
      → Returns (λ l'. (l'.wakeup ≡ none) × (l'.dispatcher ≡ none)) (destroy ops l)
  unfolding destroy delete_event
  destroy-Returns l ev_fd e p =
      subst
        (λ o.
          Returns (λ l'. (l'.wakeup ≡ none) × (l'.dispatcher ≡ none)) (delete_wakeup ops emptied o))
        (sym e) (closed ev_fd p)
    where
      emptied : ServiceLoop D F
      emptied = record l { dispatcher = none; handlers = no_handlers }

      closed :
          (ev_fd : ℤ)
          → is_positive ev_fd ≡ true
          → Returns
              (λ l'. (l'.wakeup ≡ none) × (l'.dispatcher ≡ none))
              (delete_wakeup ops emptied (some ev_fd))
      closed (pos zero) p = cc
      closed (pos (suc n)) p = rw (==ℤ_refl (pos 0)) (refl, refl)
      closed (negsuc n) p = cc
