-- ===== src/ServiceLoop/Threads/Safety.antt =====
-- No interleaving with `add_run` and `quit` breaks `run` of src/net/service_loop.cc.
use libolptnet.Base.{
  ℕ, ℤ, Outcome, Returns, Ends-map, Returns-Safe, Safe, Safe->>=, if◌then◌else◌, ◌≡◌, Bool, true,
  false, some, List, [], ◌∷◌, arith,
}
use libolptnet.ThreadQueue
use libolptnet.Dispatcher.Base.{Event, Ops}
use libolptnet.Dispatcher.Laws.{Laws}
use libolptnet.ServiceLoop.{ServiceLoop, Handlers, add_run}
use libolptnet.ServiceLoop.Run.{State}
use libolptnet.ServiceLoop.Run.Deliver.{Good, Looks, index-Good, waited-Good}
use libolptnet.ServiceLoop.Wakeup.{EventFd, EventFdLaws}
use libolptnet.ServiceLoop.Wakeup.Quitting.{wakeup_event_lem}
use libolptnet.ServiceLoop.Threads.{
  Point, testing, waiting, delivering, draining, calling, returned, Quitter, unasked, flagged,
  woken, Turn, own, adds, quits, Threads, wait, deliver_next, own_step, quit_step, take_turn, exec,
}
use libolptnet.ServiceLoop.Threads.Alive.{AllTruthful, Owed-more, Upheld, IsAlive}
use libolptnet.ServiceLoop.Threads.Steps.{
  OthersKeep, CallsKeep, deliver_next-IsAlive, wait-IsAlive, calling-IsAlive, popped-IsAlive, moved,
}

module _ {D R A F W E : Type 0} (ops : Ops D R A) (laws : Laws ops) (fd : EventFd E)
    (fd_laws : EventFdLaws fd) (this : ℕ) (ev_fd : ℤ)
    (others : Event → ℕ → State D F W → Outcome (State D F W))
    (call : F → State D F W → Outcome (State D F W)) (P : State D F W → Type 0)
    (upheld : Upheld ops laws fd_laws ev_fd this P) where
  abbrev Alive : Threads D R A E F W → Type 0
  Alive = IsAlive ops laws fd_laws ev_fd this P

  -- The state is named by its parts.
  abbrev now : Quitter → List (E → R → A) → Point F → ServiceLoop D F → E → W → Threads D R A E F W
  now q answers point l e w = record {
    point = point;
    quitter = q;
    answers = answers;
    state = (l, (e, w));
  }

  module _ (keep : OthersKeep ops laws fd fd_laws this ev_fd others call P upheld false)
      (keep' : CallsKeep ops laws fd fd_laws this ev_fd others call P upheld false) where
    own_step-Safe :
        (q : Quitter) (answers : List (E → R → A)) (p : Point F) (l : ServiceLoop D F) (e : E)
        (w : W)
        → Alive (now q answers p l e w)
        → Safe Alive (own_step ops fd this others call p (now q answers p l e w))
    unfolding own_step wait deliver_next
    own_step-Safe q answers (testing t) l e w v = tested l.quit
      where
        tested : (b : Bool) → Alive (now q answers (if b then returned else waiting t) l e w)
        tested true =
            moved ops laws fd fd_laws this ev_fd others call P upheld false q answers (testing t)
              returned l e w tt v
        tested false =
            moved ops laws fd fd_laws this ev_fd others call P upheld false q answers (testing t)
              (waiting t) l e w tt v
    own_step-Safe q answers (waiting t) l e w v = waited answers v.truthful
      where
        waited :
            (rest : List (E → R → A))
            → AllTruthful ops laws fd_laws ev_fd rest
            → Safe Alive (wait ops fd this others call t rest (now q answers (waiting t) l e w))
        waited [] said = tt
        waited (answer ∷ rest) said = Returns-Safe Alive _ (
            Ends-map Alive true _ _
              (wait-IsAlive ops laws fd fd_laws this ev_fd others call P upheld false q answers t
                answer rest l e w said v)
              (λ s k. k.0))
    own_step-Safe q answers (delivering t []) l e w v =
        moved ops laws fd fd_laws this ev_fd others call P upheld false q answers (delivering t [])
          (draining t) l e w tt v
    own_step-Safe q answers (delivering t ((h, ev) ∷ ready)) l e w v =
        Ends-map Alive false _ _
          (deliver_next-IsAlive ops laws fd fd_laws this ev_fd others call P upheld false q answers
            keep t h ev ready l e w v)
          (λ s k. k.0)
    own_step-Safe q answers (draining t) l e w v =
        popped-IsAlive ops laws fd fd_laws this ev_fd others call P upheld false q answers t
          (ThreadQueue.pop l.functors) l e w v
    own_step-Safe q answers (calling t f) l e w v =
        Ends-map Alive false _ _
          (calling-IsAlive ops laws fd fd_laws this ev_fd others call P upheld false q answers keep'
            t f l e w v)
          (λ s k. k.0)
    own_step-Safe q answers returned l e w v = v

    quit_step-Safe :
        (q : Quitter) (answers : List (E → R → A)) (p : Point F) (l : ServiceLoop D F) (e : E)
        (w : W)
        → Alive (now q answers p l e w)
        → Returns Alive (quit_step ops fd this others call q (now q answers p l e w))
    unfolding quit_step
    quit_step-Safe unasked answers p l e w v = record {
      good = upheld.flag_set l w v.good;
      counted = v.counted;
      owed = v.owed;
      truthful = v.truthful;
    }
    quit_step-Safe flagged answers p l e w v =
        let zero_there : fd_laws.counter e ≡ 0 = v.counted in
        let (e', written, more, less) = wakeup_event_lem fd fd_laws l e (omega arith) in
        rw written (record {
          good = v.good;
          counted = omega arith;
          owed = Owed-more ev_fd p (fd_laws.counter e) (fd_laws.counter e') more v.owed;
          truthful = v.truthful;
        })
    quit_step-Safe woken answers p l e w v = v

    take_turn-Safe :
        (turn : Turn F) (s : Threads D R A E F W)
        → Alive s
        → Safe Alive (take_turn ops fd this others call turn s)
    unfolding take_turn add_run
    take_turn-Safe own s v =
        own_step-Safe s.quitter s.answers s.point s.state.0 s.state.1.0 s.state.1.1 v
    take_turn-Safe (adds f) s v = record {
      good = upheld.queued s.state.0 s.state.1.1 (ThreadQueue.push s.state.0.functors f) v.good;
      counted = v.counted;
      owed = v.owed;
      truthful = v.truthful;
    }
    take_turn-Safe quits s v =
        Returns-Safe Alive _
          (quit_step-Safe s.quitter s.answers s.point s.state.0 s.state.1.0 s.state.1.1 v)

    pub exec-Safe :
        (turns : List (Turn F)) (s : Threads D R A E F W)
        → Alive s
        → Safe Alive (exec ops fd this others call turns s)
    unfolding exec
    exec-Safe [] s v = v
    exec-Safe (turn ∷ turns) s v =
        Safe->>= Alive Alive (take_turn ops fd this others call turn s) _ (take_turn-Safe turn s v)
          (exec-Safe turns)

module _ {D R A F W E : Type 0} (ops : Ops D R A) (laws : Laws ops) (fd : EventFd E)
    (fd_laws : EventFdLaws fd) (Keeps : Handlers → W → Type 0) (looks : Looks Keeps) (this : ℕ)
    (ev_fd : ℤ)
    (exclusive : (m : Handlers) (w : W) (h : ℤ) → Keeps m w → m h ≡ some (some this) → h ≡ ev_fd)
    (others : Event → ℕ → State D F W → Outcome (State D F W))
    (call : F → State D F W → Outcome (State D F W)) where
  -- The flag and the queue are of no consequence for it.
  still_good :
      (l : ServiceLoop D F) (w : W) (quit : Bool) (fs : List F)
      → Good ops laws Keeps (l, w)
      → Good ops laws Keeps (record l { quit = quit; functors = fs }, w)
  still_good l w quit fs ((d, s), k) =
      ((d, record { live = s.live; valid = s.valid; agree = s.agree }), k)

  pub Good-Upheld : Upheld ops laws fd_laws ev_fd this (Good {F = F} ops laws Keeps)
  Good-Upheld = record {
    in_sync = λ s g. g.0;
    exclusive = λ s h g e. exclusive s.0.handlers s.1 h g.1 e;
    looked = λ l w h g. index-Good ops laws Keeps looks others call l w h g;
    waited =
        λ l d w answer t s g. waited-Good ops laws Keeps looks others call l d w answer t s g.1;
    queued = λ l w fs g. still_good l w l.quit fs g;
    flag_set = λ l w g. still_good l w true l.functors g;
  }

  -- In step with the dispatcher, what is in the eventfd comes from the one call of `quit`, and what is
  -- left of the system's answers is true of it.
  abbrev pub IsSteady : Threads D R A E F W → Type 0
  IsSteady = IsAlive ops laws fd_laws ev_fd this (Good {F = F} ops laws Keeps)

  -- Over any dispatcher with the interface's laws, where looking a handler up does not break the
  -- owner's condition on the map and the rest, under which the wake-up handler is registered for
  -- the eventfd at most, and the system reports the eventfd as readable once at most and only if
  -- something is in it; for other handlers and functors that leave the eventfd alone and, called in
  -- a good state (a handler: while it is registered), end well, in a good state or by not coming
  -- back: from a steady state, which is one in step with the dispatcher, with the owner's
  -- condition, and with no more in the eventfd than one call of `quit` has written, in whatever
  -- order the loop's thread, any number of calls of `add_run` and the two steps of one call of
  -- `quit` take their turns, no assertion of `run`, of the wake-up handler or of `quit` fails and
  -- no null pointer is followed; the state is steady again, or a call does not come back.
  pub exec-IsSteady :
      OthersKeep ops laws fd fd_laws this ev_fd others call
        (Good {F = F} ops laws Keeps)
        Good-Upheld
        false
      → CallsKeep ops laws fd fd_laws this ev_fd others call
          (Good {F = F} ops laws Keeps)
          Good-Upheld
          false
      → (turns : List (Turn F)) (s : Threads D R A E F W) → IsSteady s
      → Safe IsSteady (exec ops fd this others call turns s)
  exec-IsSteady keep keep' turns s v =
      exec-Safe ops laws fd fd_laws this ev_fd others call (Good {F = F} ops laws Keeps) Good-Upheld
        keep keep' turns s v
