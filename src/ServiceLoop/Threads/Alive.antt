-- ===== src/ServiceLoop/Threads/Alive.antt =====
-- What `run` of src/net/service_loop.cc and its wake-up handler rely on, while other threads call `add_run` and
-- `quit`.
use libolptnet.Base.{
  ℕ, suc, ◌≤◌, ◌<◌, min, ℤ, ◌==ℤ◌, ==ℤ_refl, if◌then◌else◌, ◌≡◌, refl, true, ◌&&◌, some, List, [],
  ◌∷◌, arith,
}
use libolptnet.Dispatcher.Base.{Event, event_read, ReadyEvents, Ops, same_event}
use libolptnet.Dispatcher.Laws.{Laws}
use libolptnet.ServiceLoop.{ServiceLoop, index}
use libolptnet.ServiceLoop.Sync.{InSync}
use libolptnet.ServiceLoop.Run.{State}
use libolptnet.ServiceLoop.Wakeup.{EventFd, EventFdLaws}
use libolptnet.ServiceLoop.Threads.{
  Point, testing, waiting, delivering, draining, calling, returned, Quitter, unasked, flagged,
  woken, Threads,
}

-- What is in the eventfd comes from the call of `quit`.
abbrev pub Counted : Quitter → ℕ → Type 0
Counted unasked n = n ≡ 0
Counted flagged n = n ≡ 0
Counted woken n = n < 2

pub Counted_small : (q : Quitter) (n : ℕ) → Counted q n → n < 2
Counted_small unasked n c = omega arith
Counted_small flagged n c = omega arith
Counted_small woken n c = c

pub Counted_zero : (q : Quitter) → Counted q 0
Counted_zero unasked = refl
Counted_zero flagged = refl
Counted_zero woken = omega arith

module _ (ev_fd : ℤ) where
  -- How often the list has a read event for the eventfd.
  abbrev pub wakes : ReadyEvents → ℕ
  wakes [] = 0
  wakes ((h, ev) ∷ ready) =
      if (h ==ℤ ev_fd) && same_event ev event_read then suc (wakes ready) else wakes ready

  pub wakes_less :
      (h : ℤ) (ev : Event) (ready : ReadyEvents) → wakes ready ≤ wakes ((h, ev) ∷ ready)
  wakes_less h ev ready = ground arith

  pub wakes_read : (ready : ReadyEvents) → wakes ((ev_fd, event_read) ∷ ready) ≡ suc (wakes ready)
  wakes_read ready = rw (==ℤ_refl ev_fd) refl

  -- A read that is still to be delivered finds something in the eventfd.
  abbrev pub Owed : {F : Type 0} → Point F → ℕ → Type 0
  Owed (testing t) n = Unit {0}
  Owed (waiting t) n = Unit {0}
  Owed (delivering t ready) n = wakes ready ≤ n
  Owed (draining t) n = Unit {0}
  Owed (calling t f) n = Unit {0}
  Owed returned n = Unit {0}

  pub Owed-more : {F : Type 0} (p : Point F) (n n' : ℕ) → n ≤ n' → Owed p n → Owed p n'
  Owed-more (testing t) n n' le o = tt
  Owed-more (waiting t) n n' le o = tt
  Owed-more (delivering t ready) n n' le o = omega arith
  Owed-more (draining t) n n' le o = tt
  Owed-more (calling t f) n n' le o = tt
  Owed-more returned n n' le o = tt

module _ {D R A E : Type 0} (ops : Ops D R A) (laws : Laws ops) {fd : EventFd E}
    (fd_laws : EventFdLaws fd) (ev_fd : ℤ) where
  -- The eventfd is reported as readable once at most, and only if something is in it.
  abbrev pub IsTruthful : (E → R → A) → Type 0
  IsTruthful answer =
      (e : E) (d : D) (t : ℤ)
      → laws.IsValid d
      → wakes ev_fd (ops.handle_events d (answer e) t).1 ≤ min 1 (fd_laws.counter e)

  abbrev pub AllTruthful : List (E → R → A) → Type 0
  AllTruthful [] = Unit {0}
  AllTruthful (answer ∷ answers) = IsTruthful answer × AllTruthful answers

  module _ {F W : Type 0} (this : ℕ) (P : State D F W → Type 0) where
    -- A condition on the loop and on what its handlers work on that the loop's own steps keep, and
    -- other threads; `this` is registered for the eventfd at most.
    pub record Upheld : Type 0 where
      pub in_sync : (s : State D F W) → P s → (d : D) × InSync ops laws s.0 d
      pub exclusive :
          (s : State D F W) (h : ℤ) → P s → s.0.handlers h ≡ some (some this) → h ≡ ev_fd
      pub looked :
          (l : ServiceLoop D F) (w : W) (h : ℤ)
          → P (l, w)
          → P (record l { handlers = (index l.handlers h).1 }, w)
      pub waited :
          (l : ServiceLoop D F) (d : D) (w : W) (answer : R → A) (t : ℤ)
          → InSync ops laws l d
          → P (l, w)
          → P (record l { dispatcher = some (ops.handle_events d answer t).2 }, w)
      pub queued :
          (l : ServiceLoop D F) (w : W) (fs : List F) → P (l, w) → P (record l { functors = fs }, w)
      pub flag_set : (l : ServiceLoop D F) (w : W) → P (l, w) → P (record l { quit = true }, w)

    pub record IsAlive (s : Threads D R A E F W) : Type 0 where
      pub good : P (s.state.0, s.state.1.1)
      pub counted : Counted s.quitter (fd_laws.counter s.state.1.0)
      pub owed : Owed ev_fd s.point (fd_laws.counter s.state.1.0)
      pub truthful : AllTruthful s.answers
