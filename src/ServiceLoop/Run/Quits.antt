-- ===== src/ServiceLoop/Run/Quits.antt =====
-- When `ServiceLoop::run` of src/net/service_loop.cc returns.
use libolptnet.Base.{
  ℕ, suc, ℤ, pos, Outcome, ok, fault, Returns, Returns->>=, Returns-map, Returns-if, ◌≡◌, refl,
  true, none, some, List, [], ◌∷◌,
}
use libolptnet.ThreadQueue
use libolptnet.Dispatcher.Base.{Event, ReadyEvents, Ops}
use libolptnet.Dispatcher.Laws.{Laws}
use libolptnet.ServiceLoop.{ServiceLoop, Handlers, HandlerPtr, index, Returns-deref}
use libolptnet.ServiceLoop.Sync.{InSync}
use libolptnet.ServiceLoop.Run.{
  State, notify, deliver, run_popped, run_functors, round, run_from, run,
}
use libolptnet.ServiceLoop.Run.Deliver.{Good, Looks, index-Good, index-found, waited-Good}

module _ {D R A F W : Type 0} (ops : Ops D R A) (laws : Laws ops) (Keeps : Handlers → W → Type 0)
    (looks : Looks Keeps) (on_event : Event → ℕ → State D F W → Outcome (State D F W))
    (call : F → State D F W → Outcome (State D F W)) where
  -- A good state in which no functor is queued.
  abbrev pub Quiet : State D F W → Type 0
  Quiet s = Good ops laws Keeps s × (s.0.functors ≡ [])

  -- It is quiet still, and `quit_` has not been taken back.
  abbrev pub Later : State D F W → State D F W → Type 0
  Later s s' = Quiet s' × (s.0.quit ≡ true → s'.0.quit ≡ true)

  abbrev pub HandlersReturn : Type 0
  HandlersReturn =
      (ev : Event) (p : ℕ) (h : ℤ) (s : State D F W)
      → Quiet s
      → s.0.handlers h ≡ some (some p)
      → Returns (Later s) (on_event ev p s)

  notify-Later :
      HandlersReturn
      → (ev : Event) (h : ℤ) (p : HandlerPtr) (s : State D F W) → Quiet s
      → s.0.handlers h ≡ some p
      → Returns (Later s) (notify ops on_event call ev p s)
  notify-Later keep ev h none s g e = (g, λ q. q)
  notify-Later keep ev h (some p) s g e = keep ev p h s g e

  deliver-Later :
      HandlersReturn
      → (ready : ReadyEvents) (s : State D F W) → Quiet s
      → Returns (Later s) (deliver ops on_event call ready s)
  unfolding deliver
  deliver-Later keep [] s g = (g, λ q. q)
  deliver-Later keep ((h, ev) ∷ ready) (l, w) (g, none_queued) =
      Returns->>= _ (Later (l, w)) _ _
        (notify-Later keep ev h (index l.handlers h).0
          (record l { handlers = (index l.handlers h).1 }, w)
          (index-Good ops laws Keeps looks on_event call l w h g, none_queued)
          (index-found l.handlers h))
        (λ s1 k1.
          Returns-map _ (Later s1) _ (deliver-Later keep ready s1 k1.0)
            (λ s2 k2. (k2.0, λ q. k2.1 (k1.1 q))))

  deliver-quits :
      HandlersReturn
      → (h : ℤ) (ev : Event) (p : ℕ) (ready : ReadyEvents) (s : State D F W) → Quiet s
      → s.0.handlers h ≡ some (some p)
      → ((t : State D F W) → Quiet t → Returns (λ t'. t'.0.quit ≡ true) (on_event ev p t))
      → Returns
          (λ s'. Quiet s' × (s'.0.quit ≡ true))
          (deliver ops on_event call ((h, ev) ∷ ready) s)
  unfolding deliver
  deliver-quits keep h ev p ready (l, w) g e quits = rw e (
      Returns->>= _ (λ s1. Quiet s1 × (s1.0.quit ≡ true)) (on_event ev p (l, w)) _
        (both (l, w) (on_event ev p (l, w)) (keep ev p h (l, w) g e) (quits (l, w) g))
        (λ s1 k1.
          Returns-map _ (Later s1) _ (deliver-Later keep ready s1 k1.0)
            (λ s2 k2. (k2.0, k2.1 k1.1))))
    where
      both :
          (s : State D F W) (m : Outcome (State D F W))
          → Returns (Later s) m
          → Returns (λ t. t.0.quit ≡ true) m
          → Returns (λ t. Quiet t × (t.0.quit ≡ true)) m
      both s (ok t) k q = (k.0, q)
      both s (fault x) k q = absurd q

  run_functors-none :
      (fuel : ℕ) (s : State D F W)
      → s.0.functors ≡ []
      → run_functors ops on_event call (suc fuel) s ≡ ok s
  unfolding run_functors run_popped ThreadQueue.pop
  run_functors-none fuel s e = rw e refl

  round-quits :
      HandlersReturn
      → (fuel : ℕ) (answer : R → A) (t : ℤ) (l : ServiceLoop D F) (d : D) (w : W) (h : ℤ)
        (ev : Event) (p : ℕ) (ready : ReadyEvents)
      → InSync ops laws l d
      → Keeps l.handlers w
      → l.functors ≡ []
      → (ops.handle_events d answer t).1 ≡ (h, ev) ∷ ready
      → l.handlers h ≡ some (some p)
      → ((t : State D F W) → Quiet t → Returns (λ t'. t'.0.quit ≡ true) (on_event ev p t))
      → Returns
          (λ r. Quiet r.1 × (r.1.0.quit ≡ true))
          (round ops on_event call (suc fuel) answer t (l, w))
  unfolding round
  round-quits keep fuel answer t l d w h ev p ready s k none_queued reported e quits =
      Returns-deref _ _ d _ s.live (
        rw reported (
          Returns->>= _ (λ s1. Quiet s1 × (s1.0.quit ≡ true)) _ _
            (deliver-quits keep h ev p ready _
              (waited-Good ops laws Keeps looks on_event call l d w answer t s k, none_queued) e
              quits)
            (λ s1 k1. rw (run_functors-none fuel s1 k1.0.1) k1)))

  -- Over any dispatcher with the interface's laws, in a loop in step with its dispatcher with no
  -- functor queued, where the owner's condition on the map and the rest holds, which looking a
  -- handler up does not break, and every handler, called while it is registered, returns, leaves
  -- such a loop and does not take `quit_` back: if the first event of the first wait is for a
  -- registered handle, and its handler sets `quit_`, `run` returns, with fuel for one round of the
  -- loop over the functors, whatever else is ready; `quit_` is set, and the loop is such a loop.
  pub run_quits :
      HandlersReturn
      → (fuel : ℕ) (answer : R → A) (answers : List (R → A)) (l : ServiceLoop D F) (d : D) (w : W)
        (h : ℤ) (ev : Event) (p : ℕ) (ready : ReadyEvents)
      → InSync ops laws l d
      → Keeps l.handlers w
      → l.functors ≡ []
      → (ops.handle_events d answer (pos 2)).1 ≡ (h, ev) ∷ ready
      → l.handlers h ≡ some (some p)
      → ((t : State D F W) → Quiet t → Returns (λ t'. t'.0.quit ≡ true) (on_event ev p t))
      → Returns
          (λ s'. Quiet s' × (s'.0.quit ≡ true))
          (run ops on_event call (suc fuel) (answer ∷ answers) (l, w))
  unfolding run
  run_quits keep fuel answer answers l d w h ev p ready s k none_queued reported e quits =
      Returns-if _ l.quit _ _ (λ q. ((((d, s), k), none_queued), q))
        (λ _.
          Returns->>= _ (λ r. Quiet r.1 × (r.1.0.quit ≡ true)) _ _
            (round-quits keep fuel answer (pos 2) l d w h ev p ready s k none_queued reported e
              quits)
            (λ r k'. stops answers r.0 r.1 k'))
    where
      stops :
          (answers : List (R → A)) (t : ℤ) (s : State D F W)
          → Quiet s × (s.0.quit ≡ true)
          → Returns
              (λ s'. Quiet s' × (s'.0.quit ≡ true))
              (run_from ops on_event call (suc fuel) answers t s)
      stops [] t s k = Returns-if _ s.0.quit _ _ (λ q. k) (λ q. cc (q, k.1))
      stops (a ∷ answers) t s k = Returns-if _ s.0.quit _ _ (λ q. k) (λ q. cc (q, k.1))
