-- ===== src/ServiceLoop/Wakeup/Quitting.antt =====
-- `ServiceLoop::quit` of src/net/service_loop.cc, and a `run` that comes after it.
use libolptnet.Base.{
  ℕ, ◌+◌, ◌<◌, ◌≤◌, arith, Option-cases, inl, inr, ℤ, Outcome, ok, Returns, Returns-map, ◌≡◌, refl,
  sym, ap, true, some, List, [], ◌∷◌,
}
use mathlib.Core.Path.{subst}
use libolptnet.Dispatcher.Base.{Event, Ops}
use libolptnet.ServiceLoop.{ServiceLoop}
use libolptnet.ServiceLoop.Run.{State, run, run_from}
use libolptnet.ServiceLoop.Wakeup.{EventFd, EventFdLaws, wakeup_event, quit}
use libolptnet.ServiceLoop.Wakeup.Aborts.{write_some_lem}

module _ {E D F : Type 0} (fd : EventFd E) (laws : EventFdLaws fd) where
  -- At most one is added.
  pub wakeup_event_lem :
      (l : ServiceLoop D F) (e : E)
      → laws.counter e < 2
      → (e' : E) × (wakeup_event fd l e ≡ ok e')
        × (laws.counter e ≤ laws.counter e')
        × (laws.counter e' ≤ laws.counter e + 1)
  unfolding wakeup_event
  wakeup_event_lem l e small = elim (Option-cases l.wakeup) [
    | inl none_there ↦ (e, rw none_there refl, omega arith, omega arith)
    | inr (ev_fd, there) ↦
        let (e', written, counted) = write_some_lem fd laws e small in
        (e', rw there written, omega arith, omega arith)
  ]

  quit_lem :
      (l : ServiceLoop D F) (e : E) (ev_fd : ℤ)
      → l.wakeup ≡ some ev_fd
      → laws.counter e < 2
      → Returns
          (λ r. (r.0 ≡ record l { quit = true }) × (laws.counter r.1 ≡ laws.counter e + 1))
          (quit fd l e)
  unfolding quit wakeup_event
  quit_lem l e ev_fd w small =
      let (e', written, counted) = write_some_lem fd laws e small in
      rw w (rw written (refl, counted))

module _ {D R A F W E : Type 0} (ops : Ops D R A)
    (on_event : Event → ℕ → State D F W → Outcome (State D F W))
    (call : F → State D F W → Outcome (State D F W)) (fd : EventFd E) (laws : EventFdLaws fd) where
  -- `run` returns at once, whatever the system would have to report.
  abbrev pub Stops : ServiceLoop D F → Type 0
  Stops l =
      (fuel : ℕ) (answers : List (R → A)) (w : W)
      → run ops on_event call fuel answers (l, w) ≡ ok (l, w)

  stopped : (l : ServiceLoop D F) → Stops (record l { quit = true })
  unfolding run run_from
  stopped l fuel [] w = refl
  stopped l fuel (answer ∷ answers) w = refl

  -- For a loop with its wake-up handler and an eventfd's counter below 2, `quit` returns, the
  -- counter is raised by one, `quit_` is set, and a `run` that begins then returns at once.
  pub quit-Stops :
      (l : ServiceLoop D F) (e : E) (ev_fd : ℤ)
      → l.wakeup ≡ some ev_fd
      → laws.counter e < 2
      → Returns
          (λ r. Stops r.0 × (r.0.quit ≡ true) × (laws.counter r.1 ≡ laws.counter e + 1))
          (quit fd l e)
  quit-Stops l e ev_fd w small =
      Returns-map _
        (λ r. (r.0 ≡ record l { quit = true }) × (laws.counter r.1 ≡ laws.counter e + 1)) _
        (quit_lem fd laws l e ev_fd w small)
        (λ r k. (subst Stops (sym k.0) (stopped l), ap (λ q. q.quit) k.0, k.1))
