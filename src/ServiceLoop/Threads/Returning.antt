-- ===== src/ServiceLoop/Threads/Returning.antt =====
-- `run` of src/net/service_loop.cc returns once `quit_` is set.
use libolptnet.Base.{ℕ, ℤ, Outcome, Returns, Returns-map, ◌≡◌, sym, true, some, List, ◌∷◌}
use mathlib.Core.Path.{subst}
use libolptnet.Dispatcher.Base.{Event, Ops}
use libolptnet.Dispatcher.Laws.{Laws}
use libolptnet.ServiceLoop.{Handlers}
use libolptnet.ServiceLoop.Run.Deliver.{Good, Looks}
use libolptnet.ServiceLoop.Threads.Safety.{Good-Upheld, IsSteady}
use libolptnet.ServiceLoop.Run.{State}
use libolptnet.ServiceLoop.Wakeup.{EventFd, EventFdLaws}
use libolptnet.ServiceLoop.Threads.{returned, Threads, exec}
use libolptnet.ServiceLoop.Threads.Mirrors.{alone}
use libolptnet.ServiceLoop.Threads.Alive.{Upheld}
use libolptnet.ServiceLoop.Threads.Steps.{OthersKeep}
use libolptnet.ServiceLoop.Threads.Stopping.{
  Quitting, Quitting-Upheld, CallsReturn, Alive, Stops, alive-Stops,
}

module _ {D R A F W E : Type 0} (ops : Ops D R A) (laws : Laws ops) (fd : EventFd E)
    (fd_laws : EventFdLaws fd) (Keeps : Handlers → W → Type 0) (looks : Looks Keeps) (this : ℕ)
    (ev_fd : ℤ)
    (exclusive : (m : Handlers) (w : W) (h : ℤ) → Keeps m w → m h ≡ some (some this) → h ≡ ev_fd)
    (others : Event → ℕ → State D F W → Outcome (State D F W))
    (call : F → State D F W → Outcome (State D F W)) where
  abbrev pub good_upheld : Upheld ops laws fd_laws ev_fd this (Good {F = F} ops laws Keeps)
  good_upheld = Good-Upheld ops laws fd fd_laws Keeps looks this ev_fd exclusive others call

  -- A good state with `quit_` set.
  abbrev pub IsQuitting : State D F W → Type 0
  IsQuitting =
      Quitting ops laws fd fd_laws this ev_fd others call (Good {F = F} ops laws Keeps) good_upheld

  abbrev pub OthersReturn : Type 0
  OthersReturn =
      OthersKeep ops laws fd fd_laws this ev_fd others call IsQuitting
        (Quitting-Upheld ops laws fd fd_laws this ev_fd others call (Good {F = F} ops laws Keeps)
          good_upheld)
        true

  -- Over any dispatcher with the interface's laws, where looking a handler up does not break the
  -- owner's condition on the map and the rest, under which the wake-up handler is registered for
  -- the eventfd at most; for handlers (called while registered) and functors that leave the eventfd
  -- alone and, called in a good state with `quit_` set, return and leave such a state, the functors
  -- queueing no others: in a steady state with `quit_` set, wherever the loop's thread is, if the
  -- system answers at least one more wait, then a number of turns of the loop's thread alone lead
  -- out of `run`, into a steady state with `quit_` set.
  pub quitting_returns :
      OthersReturn
      → CallsReturn ops laws fd fd_laws this ev_fd others call
          (Good {F = F} ops laws Keeps)
          good_upheld
      → (answer : E → R → A) (rest : List (E → R → A)) (s : Threads D R A E F W)
      → s.answers ≡ answer ∷ rest
      → IsSteady ops laws fd fd_laws Keeps looks this ev_fd exclusive others call s
      → s.state.0.quit ≡ true
      → (n : ℕ) × Returns
          (λ s'.
            (s'.point ≡ returned)
            × IsSteady ops laws fd fd_laws Keeps looks this ev_fd exclusive others call s'
            × (s'.state.0.quit ≡ true))
          (exec ops fd this others call (alone n) s)
  quitting_returns keep return answer rest s e v q =
      let (n, h) =
        subst
          (λ left.
            Alive ops laws fd fd_laws this ev_fd others call (Good {F = F} ops laws Keeps)
              good_upheld (record s { answers = left })
            → Stops ops laws fd fd_laws this ev_fd others call (Good {F = F} ops laws Keeps)
                good_upheld (record s { answers = left }))
          (sym e)
          (alive-Stops ops laws fd fd_laws this ev_fd others call (Good {F = F} ops laws Keeps)
            good_upheld keep return s.point s.quitter answer rest s.state.0 s.state.1.0 s.state.1.1)
          (record {
            good = (v.good, q);
            counted = v.counted;
            owed = v.owed;
            truthful = v.truthful;
          }) in
      (
        n,
        Returns-map _
            (λ s'.
              (s'.point ≡ returned)
              × Alive ops laws fd fd_laws this ev_fd others call (Good {F = F} ops laws Keeps)
                  good_upheld s')
            _ h
            (λ s' k. (
              k.0,
              record {
                good = k.1.good.0;
                counted = k.1.counted;
                owed = k.1.owed;
                truthful = k.1.truthful;
              },
              k.1.good.1,
            )),
      )
