-- ===== src/ServiceLoop/Threads/Stopping.antt =====
-- When `run` of src/net/service_loop.cc returns, once another thread has called `quit`.
use libolptnet.Base.{
  ℕ, suc, ℤ, Outcome, ok, ◌>>=◌, Returns, Returns->>=, Returns-eq, Returns-both, Returns-map,
  if◌then◌else◌, ◌≡◌, refl, sym, ap, Bool, true, false, some, List, [], ◌∷◌,
}
use mathlib.Core.Path.{subst}
use libolptnet.ThreadQueue
use libolptnet.Dispatcher.Base.{Event, ReadyEvents, Ops}
use libolptnet.Dispatcher.Laws.{Laws}
use libolptnet.ServiceLoop.{ServiceLoop}
use libolptnet.ServiceLoop.Run.{State}
use libolptnet.ServiceLoop.Wakeup.{EventFd, EventFdLaws}
use libolptnet.ServiceLoop.Threads.{
  Point, testing, waiting, delivering, draining, calling, returned, Quitter, own, Threads,
  call_functor, popped, deliver_next, own_step, take_turn, exec,
}
use libolptnet.ServiceLoop.Threads.Mirrors.{alone}
use libolptnet.ServiceLoop.Threads.Alive.{Upheld, IsAlive}
use libolptnet.ServiceLoop.Threads.Steps.{
  OthersKeep, deliver_next-IsAlive, wait-IsAlive, calling-IsAlive, popped-IsAlive, moved,
}

module _ {D R A F W E : Type 0} (ops : Ops D R A) (laws : Laws ops) (fd : EventFd E)
    (fd_laws : EventFdLaws fd) (this : ℕ) (ev_fd : ℤ)
    (others : Event → ℕ → State D F W → Outcome (State D F W))
    (call : F → State D F W → Outcome (State D F W)) (P : State D F W → Type 0)
    (upheld : Upheld ops laws fd_laws ev_fd this P) where
  -- The condition, with `quit_` set.
  abbrev pub Quitting : State D F W → Type 0
  Quitting s = P s × (s.0.quit ≡ true)

  pub Quitting-Upheld : Upheld ops laws fd_laws ev_fd this Quitting
  Quitting-Upheld = record {
    in_sync = λ s g. upheld.in_sync s g.0;
    exclusive = λ s h g e. upheld.exclusive s h g.0 e;
    looked = λ l w h g. (upheld.looked l w h g.0, g.1);
    waited = λ l d w answer t s g. (upheld.waited l d w answer t s g.0, g.1);
    queued = λ l w fs g. (upheld.queued l w fs g.0, g.1);
    flag_set = λ l w g. (upheld.flag_set l w g.0, refl);
  }

  -- What is asked of a functor, called while `quit_` is set: it returns, queues none, and keeps the
  -- condition.
  abbrev pub CallsReturn : Type 0
  CallsReturn =
      (f : F) (s : State D F W)
      → Quitting s
      → Returns (λ s'. Quitting s' × (s'.0.functors ≡ s.0.functors)) (call f s)

  abbrev pub Alive : Threads D R A E F W → Type 0
  Alive = IsAlive ops laws fd_laws ev_fd this Quitting

  -- A number of turns of the loop's thread alone leads out of `run`.
  abbrev pub Stops : Threads D R A E F W → Type 0
  Stops s =
      (n : ℕ) × Returns (λ s'. (s'.point ≡ returned) × Alive s')
        (exec ops fd this others call (alone n) s)

  one_turn :
      (s s1 : Threads D R A E F W)
      → take_turn ops fd this others call own s ≡ ok s1
      → Stops s1
      → Stops s
  unfolding exec
  one_turn s s1 e (n, k) = (
    suc n,
    subst (Returns (λ s'. (s'.point ≡ returned) × Alive s'))
        (ap (λ m. m >>= exec ops fd this others call (alone n)) (sym e)) k,
  )

  one_step :
      (Q : Threads D R A E F W → Type 0) (s : Threads D R A E F W)
      → Returns Q (take_turn ops fd this others call own s)
      → ((s1 : Threads D R A E F W) → Q s1 → Stops s1)
      → Stops s
  unfolding exec
  one_step Q s h next =
      let (s1, e, q) = Returns-eq Q (take_turn ops fd this others call own s) h in
      one_turn s s1 e (next s1 q)

  -- At a point that is known.
  at_point :
      (p : Point F) (s : Threads D R A E F W)
      → s.point ≡ p
      → (Alive (record s { point = p }) → Stops (record s { point = p }))
      → Alive s
      → Stops s
  at_point p s e there =
      subst (λ k. Alive (record s { point = k }) → Stops (record s { point = k })) (sym e) there

  abbrev now : Quitter → List (E → R → A) → Point F → ServiceLoop D F → E → W → Threads D R A E F W
  now q answers point l e w = record {
    point = point;
    quitter = q;
    answers = answers;
    state = (l, (e, w));
  }

  module _
      (keep : OthersKeep ops laws fd fd_laws this ev_fd others call Quitting Quitting-Upheld true)
      (return : CallsReturn) where
    testing-Stops :
        (t : ℤ) (q : Quitter) (answers : List (E → R → A)) (l : ServiceLoop D F) (e : E) (w : W)
        → Alive (now q answers (testing t) l e w)
        → Stops (now q answers (testing t) l e w)
    unfolding exec take_turn own_step
    testing-Stops t q answers l e w v = (1, stopped l.quit v.good.1)
      where
        stopped :
            (b : Bool)
            → b ≡ true
            → (◌≡◌ {A = Point F} (if b then returned else waiting t) returned)
              × Alive (now q answers (if b then returned else waiting t) l e w)
        stopped true e1 = (
          refl,
          moved ops laws fd fd_laws this ev_fd others call Quitting Quitting-Upheld true q answers
              (testing t) returned l e w tt v,
        )
        stopped false e1 = cc

    called :
        (t : ℤ) (f : F) (q : Quitter) (answers : List (E → R → A)) (l : ServiceLoop D F) (e : E)
        (w : W)
        → Alive (now q answers (calling t f) l e w)
        → Returns
            (λ s. (Alive s × (s.point ≡ draining t)) × (s.state.0.functors ≡ l.functors))
            (take_turn ops fd this others call own (now q answers (calling t f) l e w))
    unfolding take_turn own_step call_functor
    called t f q answers l e w v =
        Returns-both (λ s. Alive s × (s.point ≡ draining t)) (λ s. s.state.0.functors ≡ l.functors)
          _
          (calling-IsAlive ops laws fd fd_laws this ev_fd others call Quitting Quitting-Upheld true
            q answers (λ f s g. Returns-map Quitting _ (call f s) (return f s g) (λ s' k. k.0)) t f
            l e w v)
          (Returns->>= _ (λ (s : State D F (E × W)). s.0.functors ≡ l.functors) _ _
            (Returns->>= (λ (s : State D F (E × W)). s.0.functors ≡ l.functors) _ (call f (l, w)) _
              (return f (l, w) v.good) (λ s k. k.1))
            (λ s k. k))

    draining-Stops :
        (fs : List F) (t : ℤ) (q : Quitter) (answers : List (E → R → A)) (l : ServiceLoop D F)
        (e : E) (w : W)
        → l.functors ≡ fs
        → Alive (now q answers (draining t) l e w)
        → Stops (now q answers (draining t) l e w)
    unfolding take_turn own_step popped ThreadQueue.pop
    draining-Stops [] t q answers l e w none_queued v =
        one_turn (now q answers (draining t) l e w) (now q answers (testing t) l e w)
          (ap
            (λ o. ok (
              popped ops fd this others call t (ThreadQueue.pop o)
                (now q answers (draining t) l e w)))
            none_queued)
          (testing-Stops t q answers l e w (
            moved ops laws fd fd_laws this ev_fd others call Quitting Quitting-Upheld true q answers
              (draining t) (testing t) l e w tt v))
    draining-Stops (f ∷ fs) t q answers l e w queued v =
        let l' : ServiceLoop D F = record l { functors = fs } in
        one_turn (now q answers (draining t) l e w) (now q answers (calling t f) l' e w)
          (ap
            (λ o. ok (
              popped ops fd this others call t (ThreadQueue.pop o)
                (now q answers (draining t) l e w)))
            queued)
          (one_step (λ s. (Alive s × (s.point ≡ draining t)) × (s.state.0.functors ≡ fs))
            (now q answers (calling t f) l' e w)
            (called t f q answers l' e w (
              popped-IsAlive ops laws fd fd_laws this ev_fd others call Quitting Quitting-Upheld
                true q answers t (some (f, fs)) l e w v))
            (λ s1 k.
              at_point (draining t) s1 k.0.1
                (draining-Stops fs t s1.quitter s1.answers s1.state.0 s1.state.1.0 s1.state.1.1 k.1)
                k.0.0))

    drained : (t : ℤ) (s : Threads D R A E F W) → s.point ≡ draining t → Alive s → Stops s
    drained t s e v =
        at_point (draining t) s e
          (draining-Stops s.state.0.functors t s.quitter s.answers s.state.0 s.state.1.0 s.state.1.1
            refl)
          v

    delivering-Stops :
        (t : ℤ) (ready : ReadyEvents) (s : Threads D R A E F W)
        → s.point ≡ delivering t ready
        → Alive s
        → Stops s
    unfolding take_turn own_step deliver_next
    delivering-Stops t [] s e v =
        at_point (delivering t []) s e
          (λ v'.
            one_turn (record s { point = delivering t [] }) (record s { point = draining t }) refl
              (drained t (record s { point = draining t }) refl
                (moved ops laws fd fd_laws this ev_fd others call Quitting Quitting-Upheld true
                  s.quitter s.answers (delivering t []) (draining t) s.state.0 s.state.1.0
                  s.state.1.1 tt v')))
          v
    delivering-Stops t ((h, ev) ∷ ready) s e v =
        at_point (delivering t ((h, ev) ∷ ready)) s e
          (λ v'.
            one_step (λ s1. Alive s1 × (s1.point ≡ delivering t ready))
              (record s { point = delivering t ((h, ev) ∷ ready) })
              (deliver_next-IsAlive ops laws fd fd_laws this ev_fd others call Quitting
                Quitting-Upheld true s.quitter s.answers keep t h ev ready s.state.0 s.state.1.0
                s.state.1.1 v')
              (λ s1 k. delivering-Stops t ready s1 k.1 k.0))
          v

    waiting-Stops :
        (t : ℤ) (q : Quitter) (answer : E → R → A) (rest : List (E → R → A)) (l : ServiceLoop D F)
        (e : E) (w : W)
        → Alive (now q (answer ∷ rest) (waiting t) l e w)
        → Stops (now q (answer ∷ rest) (waiting t) l e w)
    unfolding take_turn own_step
    waiting-Stops t q answer rest l e w v =
        one_step _ (now q (answer ∷ rest) (waiting t) l e w)
          (wait-IsAlive ops laws fd fd_laws this ev_fd others call Quitting Quitting-Upheld true q
            (answer ∷ rest) t answer rest l e w v.truthful v)
          (λ s1 k. delivering-Stops k.1.0 k.1.1 s1 k.1.2 k.0)

    pub alive-Stops :
        (p : Point F) (q : Quitter) (answer : E → R → A) (rest : List (E → R → A))
        (l : ServiceLoop D F) (e : E) (w : W)
        → Alive (now q (answer ∷ rest) p l e w)
        → Stops (now q (answer ∷ rest) p l e w)
    unfolding exec take_turn own_step
    alive-Stops (testing t) q answer rest l e w v = testing-Stops t q (answer ∷ rest) l e w v
    alive-Stops (waiting t) q answer rest l e w v = waiting-Stops t q answer rest l e w v
    alive-Stops (delivering t ready) q answer rest l e w v = delivering-Stops t ready _ refl v
    alive-Stops (draining t) q answer rest l e w v = drained t _ refl v
    alive-Stops (calling t f) q answer rest l e w v =
        one_step _ _ (called t f q (answer ∷ rest) l e w v) (λ s1 k. drained t s1 k.0.1 k.0.0)
    alive-Stops returned q answer rest l e w v = (0, (refl, v))
