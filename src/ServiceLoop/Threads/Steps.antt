-- ===== src/ServiceLoop/Threads/Steps.antt =====
-- The steps of the threads on a loop, src/net/service_loop.cc, and what they keep.
use libolptnet.Base.{
  ℕ, suc, ◌≤◌, ◌<◌, ℤ, Outcome, ok, Returns, Returns->>=, Ends, Ends->>=, Ends-if, Returns-Ends,
  ◌==◌, ◌≡◌, refl, ap, ◌∙◌, ◌≢◌, Bool, Option, none, some, List, ◌∷◌, arith,
}
use mathlib.Core.Path.{subst}
use libolptnet.Dispatcher.Base.{Event, event_read, event_write, event_error, ReadyEvents, Ops}
use libolptnet.Dispatcher.Laws.{Laws}
use libolptnet.ServiceLoop.{ServiceLoop, HandlerPtr, index, Returns-deref}
use libolptnet.ServiceLoop.Run.{State, notify}
use libolptnet.ServiceLoop.Run.Deliver.{index-found}
use libolptnet.ServiceLoop.Wakeup.{EventFd, EventFdLaws}
use libolptnet.ServiceLoop.Wakeup.Aborts.{received}
use libolptnet.ServiceLoop.Threads.{
  Point, waiting, delivering, draining, calling, Quitter, Threads, wakeup_called, on_event,
  call_functor, wait, popped, deliver_next, own_step,
}
use libolptnet.ServiceLoop.Threads.Alive.{
  Counted, Counted_small, Counted_zero, wakes, wakes_less, wakes_read, Owed, AllTruthful, Upheld,
  IsAlive,
}

le_trans : {a b c : ℕ} → a ≤ b → b ≤ c → a ≤ c
le_trans h k = omega arith

module _ {D R A F W E : Type 0} (ops : Ops D R A) (laws : Laws ops) (fd : EventFd E)
    (fd_laws : EventFdLaws fd) (this : ℕ) (ev_fd : ℤ)
    (others : Event → ℕ → State D F W → Outcome (State D F W))
    (call : F → State D F W → Outcome (State D F W)) (P : State D F W → Type 0)
    (upheld : Upheld ops laws fd_laws ev_fd this P) (must : Bool) where
  open upheld use {in_sync, exclusive, looked, waited, queued, flag_set}

  abbrev pub Alive : Threads D R A E F W → Type 0
  Alive = IsAlive ops laws fd_laws ev_fd this P

  -- What is asked of the other handlers: called while registered, they keep the condition.
  abbrev pub OthersKeep : Type 0
  OthersKeep =
      (ev : Event) (p : ℕ) (h : ℤ) (s : State D F W)
      → P s
      → s.0.handlers h ≡ some (some p)
      → p ≢ this
      → Ends must P (others ev p s)

  abbrev pub CallsKeep : Type 0
  CallsKeep = (f : F) (s : State D F W) → P s → Ends must P (call f s)

  module _ (q : Quitter) (answers : List (E → R → A)) where
    -- The state is named by its parts.
    abbrev now : Point F → ServiceLoop D F → E → W → Threads D R A E F W
    now point l e w = record { point = point; quitter = q; answers = answers; state = (l, (e, w)) }

    -- The wake-up handler is called for the eventfd.
    wakeup_called-IsAlive :
        (t : ℤ) (ev : Event) (ready : ReadyEvents) (l : ServiceLoop D F) (e : E) (w : W)
        → P (l, w)
        → Counted q (fd_laws.counter e)
        → wakes ev_fd ((ev_fd, ev) ∷ ready) ≤ fd_laws.counter e
        → AllTruthful ops laws fd_laws ev_fd answers
        → Returns
            (λ e'. Alive (now (delivering t ready) l e' w))
            (wakeup_called ops fd this others call ev e)
    unfolding wakeup_called
    wakeup_called-IsAlive t event_read ready l e w g c o said =
        let least : suc (wakes ev_fd ready) ≤ fd_laws.counter e = rw (← wakes_read ev_fd ready) o in
        let small : fd_laws.counter e < 2 = Counted_small q (fd_laws.counter e) c in
        let (n, v, z) = fd_laws.read_lem e (omega arith) in
        rw (received fd fd_laws e n (v ∙ omega arith)) (record {
          good = g;
          counted = rw z (Counted_zero q);
          owed = omega arith;
          truthful = said;
        })
    wakeup_called-IsAlive t event_write ready l e w g c o said = record {
      good = g;
      counted = c;
      owed = le_trans (wakes_less ev_fd ev_fd event_write ready) o;
      truthful = said;
    }
    wakeup_called-IsAlive t event_error ready l e w g c o said = record {
      good = g;
      counted = c;
      owed = le_trans (wakes_less ev_fd ev_fd event_error ready) o;
      truthful = said;
    }

    abbrev Delivered : ℤ → ReadyEvents → State D F (E × W) → Type 0
    Delivered t ready s = Alive (now (delivering t ready) s.0 s.1.0 s.1.1)

    called-IsAlive :
        OthersKeep
        → (t : ℤ) (h : ℤ) (ev : Event) (p : ℕ) (ready : ReadyEvents) (l : ServiceLoop D F) (e : E)
          (w : W)
        → P (l, w)
        → Counted q (fd_laws.counter e)
        → wakes ev_fd ((h, ev) ∷ ready) ≤ fd_laws.counter e
        → AllTruthful ops laws fd_laws ev_fd answers
        → l.handlers h ≡ some (some p)
        → Ends must (Delivered t ready) (on_event ops fd this others call ev p (l, (e, w)))
    unfolding on_event
    called-IsAlive keep t h ev p ready l e w g c o said found =
        Ends-if (Delivered t ready) must (p == this) _ _
          (λ mine.
            let e1 : h ≡ ev_fd =
              exclusive (l, w) h g (found ∙ ap (λ (k : ℕ). some (some k)) (ground arith)) in
            Returns-Ends (Delivered t ready) must _ (
              Returns->>= (Delivered t ready) (λ e'. Alive (now (delivering t ready) l e' w)) _ _
                (wakeup_called-IsAlive t ev ready l e w g c
                  (subst (λ k. wakes ev_fd ((k, ev) ∷ ready) ≤ fd_laws.counter e) e1 o) said)
                (λ e' v. v)))
          (λ other.
            Ends->>= (Delivered t ready) must P (others ev p (l, w)) _
              (keep ev p h (l, w) g found (λ r. ground arith))
              (λ s g'. Returns-Ends (Delivered t ready) must (ok (s.0, (e, s.1))) (record {
                good = g';
                counted = c;
                owed = le_trans (wakes_less ev_fd h ev ready) o;
                truthful = said;
              })))

    -- Alive, and at this point.
    abbrev pub AliveAt : Point F → Threads D R A E F W → Type 0
    AliveAt p s = Alive s × (s.point ≡ p)

    notified :
        OthersKeep
        → (t h : ℤ) (ev : Event) (ready : ReadyEvents) (o : HandlerPtr) (l : ServiceLoop D F)
          (e : E) (w : W)
        → P (l, w)
        → Counted q (fd_laws.counter e)
        → wakes ev_fd ((h, ev) ∷ ready) ≤ fd_laws.counter e
        → AllTruthful ops laws fd_laws ev_fd answers
        → l.handlers h ≡ some o
        → Ends must (Delivered t ready) (
            notify ops
              (on_event ops fd this others call)
              (call_functor ops fd this others call)
              ev
              o
              (l, (e, w)))
    notified keep t h ev ready none l e w g c o said found =
        Returns-Ends (Delivered t ready) must (ok (l, (e, w))) (record {
          good = g;
          counted = c;
          owed = le_trans (wakes_less ev_fd h ev ready) o;
          truthful = said;
        })
    notified keep t h ev ready (some p) l e w g c o said found =
        called-IsAlive keep t h ev p ready l e w g c o said found

    pub deliver_next-IsAlive :
        OthersKeep
        → (t h : ℤ) (ev : Event) (ready : ReadyEvents) (l : ServiceLoop D F) (e : E) (w : W)
        → Alive (now (delivering t ((h, ev) ∷ ready)) l e w)
        → Ends must (AliveAt (delivering t ready)) (
            deliver_next ops fd this others call t
              ((h, ev) ∷ ready)
              (now (delivering t ((h, ev) ∷ ready)) l e w))
    unfolding deliver_next
    deliver_next-IsAlive keep t h ev ready l e w v =
        Ends->>= (AliveAt (delivering t ready)) must (Delivered t ready) _ _
          (notified keep t h ev ready (index l.handlers h).0
            (record l { handlers = (index l.handlers h).1 }) e w (looked l w h v.good) v.counted
            v.owed v.truthful (index-found l.handlers h))
          (λ s k. Returns-Ends (AliveAt (delivering t ready)) must (ok _) (k, refl))

    pub wait-IsAlive :
        (t : ℤ) (answer : E → R → A) (rest : List (E → R → A)) (l : ServiceLoop D F) (e : E) (w : W)
        → AllTruthful ops laws fd_laws ev_fd (answer ∷ rest)
        → Alive (now (waiting t) l e w)
        → Returns
            (λ s. Alive s × ((t' : ℤ) × (ready : ReadyEvents) × (s.point ≡ delivering t' ready)))
            (wait ops fd this others call t (answer ∷ rest) (now (waiting t) l e w))
    unfolding wait
    wait-IsAlive t answer rest l e w said v =
        let (d, s) = in_sync (l, w) v.good in
        let seen = said.0 e d t s.valid in
        Returns-deref _ l.dispatcher d _ s.live (
          record {
            good = waited l d w (answer e) t s v.good;
            counted = v.counted;
            owed = omega arith;
            truthful = said.1;
          },
          (_, _, refl),
        )

    pub calling-IsAlive :
        CallsKeep
        → (t : ℤ) (f : F) (l : ServiceLoop D F) (e : E) (w : W) → Alive (now (calling t f) l e w)
        → Ends must
            (AliveAt (draining t))
            (own_step ops fd this others call (calling t f) (now (calling t f) l e w))
    unfolding own_step call_functor
    calling-IsAlive keep t f l e w v =
        Ends->>= (AliveAt (draining t)) must (λ s. Alive (now (draining t) s.0 s.1.0 s.1.1)) _ _
          (Ends->>= (λ (s : State D F (E × W)). Alive (now (draining t) s.0 s.1.0 s.1.1)) must P
            (call f (l, w)) _ (keep f (l, w) v.good)
            (λ s g.
              Returns-Ends _ must (ok (s.0, (e, s.1)))
                (record { good = g; counted = v.counted; owed = tt; truthful = v.truthful })))
          (λ s k. Returns-Ends (AliveAt (draining t)) must (ok _) (k, refl))

    pub popped-IsAlive :
        (t : ℤ) (o : Option (F × List F)) (l : ServiceLoop D F) (e : E) (w : W)
        → Alive (now (draining t) l e w)
        → Alive (popped ops fd this others call t o (now (draining t) l e w))
    unfolding popped
    popped-IsAlive t none l e w v = record {
      good = v.good;
      counted = v.counted;
      owed = tt;
      truthful = v.truthful;
    }
    popped-IsAlive t (some (f, fs)) l e w v = record {
      good = queued l w fs v.good;
      counted = v.counted;
      owed = tt;
      truthful = v.truthful;
    }

    -- A step that changes nothing but the point.
    pub moved :
        (p p' : Point F) (l : ServiceLoop D F) (e : E) (w : W)
        → Owed ev_fd p' (fd_laws.counter e)
        → Alive (now p l e w)
        → Alive (now p' l e w)
    moved p p' l e w o v = record {
      good = v.good;
      counted = v.counted;
      owed = o;
      truthful = v.truthful;
    }
