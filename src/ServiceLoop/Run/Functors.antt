-- ===== src/ServiceLoop/Run/Functors.antt =====
-- The queue of functors in `ServiceLoop::run`, src/net/service_loop.cc.
use libolptnet.Base.{ℕ, zero, suc, ◌<◌, Outcome, ok, length, ◌≡◌, refl, List, [], ◌∷◌, arith}
use mathlib.Core.List.{foldl}
use libolptnet.ThreadQueue
use libolptnet.Dispatcher.Base.{Event, Ops}
use libolptnet.ServiceLoop.{ServiceLoop}
use libolptnet.ServiceLoop.Run.{State, run_functors}

module _ {D R A F W : Type 0} (ops : Ops D R A)
    (on_event : Event → ℕ → State D F W → Outcome (State D F W))
    (call : F → State D F W → Outcome (State D F W)) (effect : W → F → W) where
  drained :
      (fuel : ℕ) (fs : List F) (l : ServiceLoop D F) (w : W)
      → ((f : F) (l : ServiceLoop D F) (w : W) → call f (l, w) ≡ ok (l, effect w f))
      → length fs < fuel
      → run_functors ops on_event call fuel (record l { functors = fs }, w)
        ≡ ok (record l { functors = [] }, foldl effect w fs)
  unfolding run_functors ThreadQueue.pop
  drained zero fs l w only h = elim h [ ]
  drained (suc fuel) [] l w only h = refl
  drained (suc fuel) (f ∷ fs) l w only h =
      rw (only f (record l { functors = fs }) w) (drained fuel fs l (effect w f) only (omega arith))

  -- Where functors leave the loop alone, and the fuel is more than the number of queued ones, the
  -- loop over the functors returns: they have been run in the order in which they were queued, each
  -- once, and the queue is empty.
  pub run_functors_drains :
      (fuel : ℕ) (l : ServiceLoop D F) (w : W)
      → ((f : F) (l : ServiceLoop D F) (w : W) → call f (l, w) ≡ ok (l, effect w f))
      → length l.functors < fuel
      → run_functors ops on_event call fuel (l, w)
        ≡ ok (record l { functors = [] }, foldl effect w l.functors)
  run_functors_drains fuel l w only h = drained fuel l.functors l w only h
