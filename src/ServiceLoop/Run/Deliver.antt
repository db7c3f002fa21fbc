-- ===== src/ServiceLoop/Run/Deliver.antt =====
-- Which handlers `ServiceLoop::run` of src/net/service_loop.cc calls, and the map and the
-- dispatcher meanwhile.
use libolptnet.Base.{
  ℕ, zero, suc, ℤ, pos, ==ℤ_iff, Outcome, Safe, Safe-if, Safe->>=, Option-cases, ◌≡◌, refl, sym,
  ◌∙◌, inl, inr, true, Option, none, some, List, [], ◌∷◌, arith,
}
use libolptnet.ThreadQueue
use libolptnet.Dispatcher.Base.{Event, ReadyEvents, Ops}
use libolptnet.Dispatcher.Laws.{Laws}
use libolptnet.ServiceLoop.{ServiceLoop, Safe-deref, HandlerPtr, Handlers, index}
use libolptnet.ServiceLoop.Sync.{InSync, registered}
use libolptnet.ServiceLoop.Run.{
  State, notify, deliver, run_popped, run_functors, round, run_from, run,
}

-- Looking a handler up changes nothing for the registered ones.
pub registered-index : (m : Handlers) (h g : ℤ) → registered ((index m h).1 g) ≡ registered (m g)
registered-index m h g = elim (Option-cases (m h)) [
  | inl absent ↦ rw absent (ground (arith, ==ℤ_iff g h))
  | inr (p, found) ↦ rw found refl
]

-- Afterwards the map has the pointer that was found.
pub index-found : (m : Handlers) (h : ℤ) → (index m h).1 h ≡ some (index m h).0
index-found m h = elim (Option-cases (m h)) [
  | inl absent ↦ rw absent (ground (arith, ==ℤ_iff h h))
  | inr (p, found) ↦ rw found found
]

-- A handler that is found afterwards was there before.
pub index-back :
    (m : Handlers) (h g : ℤ) (p : ℕ) → (index m h).1 g ≡ some (some p) → m g ≡ some (some p)
index-back m h g p = elim (Option-cases (m h)) [
  | inl absent ↦ rw absent (λ e. ground arith)
  | inr (q, found) ↦ rw found (λ e. e)
]

module _ {D R A F W : Type 0} (ops : Ops D R A) (laws : Laws ops)
    (Keeps : Handlers → W → Type 0) where
  -- The loop is in step with its dispatcher, and the map and the rest of the state are as their
  -- owner wants them.
  abbrev pub Good : State D F W → Type 0
  Good s = ((d : D) × InSync ops laws s.0 d) × Keeps s.0.handlers s.1

-- Looking a handler up, which may add a NULL, is of no consequence.
abbrev pub Looks : {W : Type 0} → (Handlers → W → Type 0) → Type 0
Looks Keeps = (m : Handlers) (w : _) (h : ℤ) → Keeps m w → Keeps (index m h).1 w

module _ {D R A F W : Type 0} (ops : Ops D R A) (laws : Laws ops) (Keeps : Handlers → W → Type 0)
    (looks : Looks Keeps) (on_event : Event → ℕ → State D F W → Outcome (State D F W))
    (call : F → State D F W → Outcome (State D F W)) where
  pub index-Good :
      (l : ServiceLoop D F) (w : W) (h : ℤ)
      → Good ops laws Keeps (l, w)
      → Good ops laws Keeps (record l { handlers = (index l.handlers h).1 }, w)
  index-Good l w h ((d, s), k) = (
    (
      d,
      record {
        live = s.live;
        valid = s.valid;
        agree = λ g. s.agree g ∙ sym (registered-index l.handlers h g);
      },
    ),
    looks l.handlers w h k,
  )

  -- What is asked of a handler: called while it is registered, it keeps the state good.
  abbrev pub HandlersKeep : Type 0
  HandlersKeep =
      (ev : Event) (p : ℕ) (h : ℤ) (s : State D F W)
      → Good ops laws Keeps s
      → s.0.handlers h ≡ some (some p)
      → Safe (Good ops laws Keeps) (on_event ev p s)

  abbrev pub FunctorsKeep : Type 0
  FunctorsKeep =
      (f : F) (s : State D F W) → Good ops laws Keeps s → Safe (Good ops laws Keeps) (call f s)

  notify-Good :
      HandlersKeep
      → (ev : Event) (h : ℤ) (p : HandlerPtr) (s : State D F W) → Good ops laws Keeps s
      → s.0.handlers h ≡ some p
      → Safe (Good ops laws Keeps) (notify ops on_event call ev p s)
  notify-Good keep ev h none s g e = g
  notify-Good keep ev h (some p) s g e = keep ev p h s g e

  -- Whatever is ready, handlers are called only while they are registered, also where an earlier
  -- event of the same round has removed some, and the loop and its dispatcher stay in step.
  pub deliver-Good :
      HandlersKeep
      → (ready : ReadyEvents) (s : State D F W) → Good ops laws Keeps s
      → Safe (Good ops laws Keeps) (deliver ops on_event call ready s)
  unfolding deliver
  deliver-Good keep [] s g = g
  deliver-Good keep ((h, ev) ∷ ready) (l, w) g =
      Safe->>= (Good ops laws Keeps) (Good ops laws Keeps)
        (notify ops on_event call ev (index l.handlers h).0
          (record l { handlers = (index l.handlers h).1 }, w))
        _
        (notify-Good keep ev h (index l.handlers h).0
          (record l { handlers = (index l.handlers h).1 }, w) (index-Good l w h g)
          (index-found l.handlers h))
        (deliver-Good keep ready)

  run_popped-Good :
      FunctorsKeep
      → (rest : State D F W → Outcome (State D F W))
      → ((s : State D F W) → Good ops laws Keeps s → Safe (Good ops laws Keeps) (rest s))
      → (o : Option (F × List F)) (s : State D F W) → Good ops laws Keeps s
      → Safe (Good ops laws Keeps) (run_popped ops on_event call rest o s)
  unfolding run_popped
  run_popped-Good keep rest h none s g = g
  run_popped-Good keep rest h (some (f, fs)) (l, w) ((d, s), k) =
      Safe->>= (Good ops laws Keeps) (Good ops laws Keeps) (call f (record l { functors = fs }, w))
        rest
        (keep f (record l { functors = fs }, w)
          ((d, record { live = s.live; valid = s.valid; agree = s.agree }), k))
        h

  run_functors-Good :
      FunctorsKeep
      → (fuel : ℕ) (s : State D F W) → Good ops laws Keeps s
      → Safe (Good ops laws Keeps) (run_functors ops on_event call fuel s)
  unfolding run_functors
  run_functors-Good keep zero s g = tt
  run_functors-Good keep (suc fuel) s g =
      run_popped-Good keep (run_functors ops on_event call fuel) (run_functors-Good keep fuel)
        (ThreadQueue.pop s.0.functors) s g

  pub waited-Good :
      (l : ServiceLoop D F) (d : D) (w : W) (answer : R → A) (t : ℤ)
      → InSync ops laws l d
      → Keeps l.handlers w
      → Good ops laws Keeps (record l { dispatcher = some (ops.handle_events d answer t).2 }, w)
  waited-Good l d w answer t s k =
      let (v, kept) = laws.wait_lem d answer t s.valid in
      (
        (
          (ops.handle_events d answer t).2,
          record { live = refl; valid = v; agree = λ g. kept.same_watches g ∙ s.agree g },
        ),
        k,
      )

  round-Good :
      HandlersKeep
      → FunctorsKeep
      → (fuel : ℕ) (answer : R → A) (timeout_ms : ℤ) (s : State D F W) → Good ops laws Keeps s
      → Safe (λ r. Good ops laws Keeps r.1) (round ops on_event call fuel answer timeout_ms s)
  unfolding round
  round-Good keep keep' fuel answer t (l, w) ((d, s), k) =
      Safe-deref (λ r. Good ops laws Keeps r.1) _ d _ s.live
        (Safe->>= (λ r. Good ops laws Keeps r.1) (Good ops laws Keeps)
          (deliver ops on_event call (ops.handle_events d answer t).1
            (record l { dispatcher = some (ops.handle_events d answer t).2 }, w))
          _ (deliver-Good keep (ops.handle_events d answer t).1 _ (waited-Good l d w answer t s k))
          (λ s1 g1.
            Safe->>= (λ r. Good ops laws Keeps r.1) (Good ops laws Keeps)
              (run_functors ops on_event call fuel s1) _ (run_functors-Good keep' fuel s1 g1)
              (λ s2 g2. g2)))

  -- Over any dispatcher with the interface's laws, where a state is good if map and dispatcher
  -- agree and its owner's condition on the map and the rest holds, which looking a handler up does
  -- not break; for handlers and functors that, called in a good state (a handler: while it is
  -- registered), do not abort and leave a good state: `run` from a good state never aborts and
  -- never follows a null pointer, whatever the system reports and in whatever order: it is still
  -- waiting, or out of fuel in the loop over the functors, or it returns, and then `quit_` is set
  -- and the state is good.
  pub run-Good :
      HandlersKeep
      → FunctorsKeep
      → (fuel : ℕ) (answers : List (R → A)) (s : State D F W) → Good ops laws Keeps s
      → Safe
          (λ s'. Good ops laws Keeps s' × (s'.0.quit ≡ true))
          (run ops on_event call fuel answers s)
  unfolding run
  run-Good keep keep' fuel answers s g = from answers (pos 2) s g
    where
      from :
          (answers : List (R → A)) (t : ℤ) (s : State D F W)
          → Good ops laws Keeps s
          → Safe
              (λ s'. Good ops laws Keeps s' × (s'.0.quit ≡ true))
              (run_from ops on_event call fuel answers t s)
      from [] t s g = ground arith
      from (a ∷ answers) t s g =
          Safe-if _ s.0.quit _ _ (λ q. (g, q))
            (λ _.
              Safe->>= _ (λ r. Good ops laws Keeps r.1) (round ops on_event call fuel a t s) _
                (round-Good keep keep' fuel a t s g) (λ r k. from answers r.0 r.1 k))
