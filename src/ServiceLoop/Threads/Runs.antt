-- ===== src/ServiceLoop/Threads/Runs.antt =====
-- `ServiceLoop::run` of src/net/service_loop.cc as turns of its thread.
use libolptnet.Base.{
  ℕ, zero, suc, ℤ, pos, blocked, Outcome, ok, fault, ◌>>=◌, >>=_assoc, if◌then◌else◌, ◌≡◌, refl,
  sym, ap, ◌∙◌, ◌⊎◌, inl, inr, true, false, Bool, Option, none, some, List, [], ◌∷◌,
}
use mathlib.Core.Path.{subst}
use libolptnet.ThreadQueue
use libolptnet.Dispatcher.Base.{Event, ReadyEvents, Ops}
use libolptnet.ServiceLoop.{ServiceLoop}
use libolptnet.ServiceLoop.Run.{
  State, timeout_after, deliver, run_popped, run_functors, round, run_from, run,
}
use libolptnet.ServiceLoop.Wakeup.{EventFd}
use libolptnet.ServiceLoop.Threads.{
  Point, testing, waiting, delivering, draining, calling, returned, Quitter, unasked, Threads,
  begun, on_event, call_functor, wait, popped, deliver_next, own_step, take_turn, exec,
}
use libolptnet.ServiceLoop.Threads.Mirrors.{
  alone, Mirrors, MirrorsIn, mirrored, stepped, Mirrors->>=,
}

-- A second call whose result is returned with a label, and then the rest.
>>=_labelled :
    {S T B : Type 0} (m : Outcome S) (n : S → Outcome S) (label : T) (f : T × S → Outcome B)
    → ((m >>= λ s. n s >>= λ s'. ok (label, s')) >>= f) ≡ (m >>= λ s. n s >>= λ s'. f (label, s'))
>>=_labelled (ok s) n label f = >>=_assoc (n s) (λ s'. ok (label, s')) f
>>=_labelled (fault e) n label f = refl

-- What the system answers, whatever is in the eventfd.
abbrev pub given : {R A E : Type 0} → List (R → A) → List (E → R → A)
given [] = []
given (answer ∷ answers) = (λ _. answer) ∷ given answers

-- What of the end is compared: where the thread has come to, and the state.
abbrev pub end_of : {D R A E F W : Type 0} → Threads D R A E F W → Point F × State D F (E × W)
end_of s = (s.point, s.state)

abbrev pub returning : {D F V : Type 0} → State D F V → Point F × State D F V
returning s = (returned, s)

module _ {D R A F W E : Type 0} (ops : Ops D R A) (fd : EventFd E) (this : ℕ)
    (others : Event → ℕ → State D F W → Outcome (State D F W))
    (call : F → State D F W → Outcome (State D F W)) (q : Quitter) where
  -- The loop's functions over the two kinds of handlers.
  abbrev delivers : ReadyEvents → State D F (E × W) → Outcome (State D F (E × W))
  delivers = deliver ops (on_event ops fd this others call) (call_functor ops fd this others call)

  abbrev runs_functors : ℕ → State D F (E × W) → Outcome (State D F (E × W))
  runs_functors =
      run_functors ops (on_event ops fd this others call) (call_functor ops fd this others call)

  abbrev goes_round : ℕ → (R → A) → ℤ → State D F (E × W) → Outcome (ℤ × State D F (E × W))
  goes_round = round ops (on_event ops fd this others call) (call_functor ops fd this others call)

  abbrev runs_from : ℕ → List (R → A) → ℤ → State D F (E × W) → Outcome (State D F (E × W))
  runs_from = run_from ops (on_event ops fd this others call) (call_functor ops fd this others call)

  abbrev now : List (R → A) → Point F → State D F (E × W) → Threads D R A E F W
  now answers point s = record { point = point; quitter = q; answers = given answers; state = s }

  -- The end of a call of the loop, at the point that its thread has come to.
  abbrev then_at :
      List (R → A) → Point F → Outcome (State D F (E × W)) → Outcome (Threads D R A E F W)
  then_at answers point m = m >>= λ s. ok (now answers point s)

  abbrev Same : Threads D R A E F W → Outcome (Threads D R A E F W) → Type 0
  Same = Mirrors ops fd this others call

  module _ (left : List (R → A)) where
    deliver-Mirrors :
        (t : ℤ) (ready : ReadyEvents) (s : State D F (E × W))
        → Same (now left (delivering t ready) s) (then_at left (draining t) (delivers ready s))
    unfolding deliver take_turn own_step deliver_next
    deliver-Mirrors t [] s = mirrored ops fd this others call (now left (delivering t []) s) _ refl
    deliver-Mirrors t ((h, ev) ∷ ready) (l, m) =
        subst (Same (now left (delivering t ((h, ev) ∷ ready)) (l, m)))
          (sym (>>=_assoc _ (delivers ready) (λ s. ok (now left (draining t) s))))
          (Mirrors->>= ops fd this others call _ (now left (delivering t ((h, ev) ∷ ready)) (l, m))
            _ (now left (delivering t ready)) _
            (mirrored ops fd this others call (now left (delivering t ((h, ev) ∷ ready)) (l, m)) _
              refl)
            (deliver-Mirrors t ready))

    popped-Mirrors :
        (t : ℤ) (rest : State D F (E × W) → Outcome (State D F (E × W)))
        → ((s : State D F (E × W))
            → Same (now left (draining t) s) (then_at left (testing t) (rest s)))
        → (o : Option (F × List F)) (s : State D F (E × W)) → ThreadQueue.pop s.0.functors ≡ o
        → Same (now left (draining t) s) (
            then_at left (testing t) (
              run_popped ops
                (on_event ops fd this others call)
                (call_functor ops fd this others call)
                rest
                o
                s))
    unfolding run_popped take_turn own_step popped
    popped-Mirrors t rest next none s e =
        mirrored ops fd this others call (now left (draining t) s) _ (rw e refl)
    popped-Mirrors t rest next (some (f, fs)) (l, m) e =
        let s1 : State D F (E × W) = (record l { functors = fs }, m) in
        stepped ops fd this others call _ (now left (draining t) (l, m)) (now left (calling t f) s1)
          _ (rw e refl)
          (subst (Same (now left (calling t f) s1))
            (sym (>>=_assoc _ rest (λ s. ok (now left (testing t) s))))
            (Mirrors->>= ops fd this others call _ (now left (calling t f) s1) _
              (now left (draining t)) _
              (mirrored ops fd this others call (now left (calling t f) s1) _ refl) next))

    run_functors-Mirrors :
        (fuel : ℕ) (t : ℤ) (s : State D F (E × W))
        → Same (now left (draining t) s) (then_at left (testing t) (runs_functors fuel s))
    unfolding run_functors
    run_functors-Mirrors zero t s = inl refl
    run_functors-Mirrors (suc fuel) t s =
        popped-Mirrors t _ (run_functors-Mirrors fuel t) (ThreadQueue.pop s.0.functors) s refl

    abbrev at_test : ℤ × State D F (E × W) → Outcome (Threads D R A E F W)
    at_test r = ok (now left (testing r.0) r.1)

    -- A round from where the wait is over.
    after_wait : ℕ → ℤ × ReadyEvents × D → State D F (E × W) → Outcome (Threads D R A E F W)
    after_wait fuel (ret, ready, d') s =
        delivers ready (record (s.0) { dispatcher = some d' }, s.1) >>= λ s1.
        then_at left (testing (timeout_after ret)) (runs_functors fuel s1)

    round_waited :
        (fuel : ℕ) (answer : R → A) (t : ℤ) (l : ServiceLoop D F) (m : E × W) (d : D)
        → l.dispatcher ≡ some d
        → (goes_round fuel answer t (l, m) >>= at_test)
          ≡ after_wait fuel (ops.handle_events d answer t) (l, m)
    unfolding round after_wait
    round_waited fuel answer t l m d live = rw live (
        >>=_labelled _ (runs_functors fuel) (timeout_after (ops.handle_events d answer t).0)
          at_test)

    round-Mirrors :
        (fuel : ℕ) (answer : R → A) (t : ℤ) (s : State D F (E × W)) (o : Option D)
        → s.0.dispatcher ≡ o
        → Same (now (answer ∷ left) (waiting t) s) (goes_round fuel answer t s >>= at_test)
    unfolding round take_turn own_step wait after_wait
    round-Mirrors fuel answer t (l, m) none gone =
        mirrored ops fd this others call (now (answer ∷ left) (waiting t) (l, m)) _ (rw gone refl)
    round-Mirrors fuel answer t (l, m) (some d) live =
        let (ret, ready, d') = ops.handle_events d answer t in
        let s1 : State D F (E × W) = (record l { dispatcher = some d' }, m) in
        subst (Same (now (answer ∷ left) (waiting t) (l, m)))
          (sym (round_waited fuel answer t l m d live))
          (stepped ops fd this others call _ (now (answer ∷ left) (waiting t) (l, m))
            (now left (delivering (timeout_after ret) ready) s1) _ (rw live refl)
            (Mirrors->>= ops fd this others call _
              (now left (delivering (timeout_after ret) ready) s1) _
              (now left (draining (timeout_after ret))) _
              (deliver-Mirrors (timeout_after ret) ready s1)
              (run_functors-Mirrors fuel (timeout_after ret))))

  abbrev returns : Outcome (State D F (E × W)) → Outcome (Point F × State D F (E × W))
  returns m = m >>= λ s. ok (returning s)

  going_on :
      (fuel : ℕ) (a : R → A) (answers : List (R → A)) (t : ℤ) (s : State D F (E × W))
      → s.0.quit ≡ false
      → returns (runs_from fuel (a ∷ answers) t s)
        ≡ (goes_round fuel a t s >>= λ r. returns (runs_from fuel answers r.0 r.1))
  unfolding run_from
  going_on fuel a answers t s e =
      let later = λ (r : ℤ × State D F (E × W)). runs_from fuel answers r.0 r.1 in
      ap (λ b. returns (if b then ok s else (goes_round fuel a t s >>= later))) e
      ∙ >>=_assoc (goes_round fuel a t s) later (λ s'. ok (returning s'))

  run_from-Mirrors :
      (fuel : ℕ) (answers : List (R → A)) (t : ℤ) (s : State D F (E × W)) (b : Bool)
      → s.0.quit ≡ b
      → MirrorsIn ops fd this others call end_of
          (now answers (testing t) s)
          (returns (runs_from fuel answers t s))
  unfolding run_from take_turn own_step exec
  run_from-Mirrors fuel [] t s true e = inr (1, rw e refl)
  run_from-Mirrors fuel [] t s false e = inl (rw e refl)
  run_from-Mirrors fuel (a ∷ answers) t s true e = inr (1, rw e refl)
  run_from-Mirrors fuel (a ∷ answers) t s false e =
      stepped ops fd this others call end_of (now (a ∷ answers) (testing t) s)
        (now (a ∷ answers) (waiting t) s) _ (rw e refl)
        (subst (MirrorsIn ops fd this others call end_of (now (a ∷ answers) (waiting t) s))
          (sym (going_on fuel a answers t s e))
          (Mirrors->>= ops fd this others call end_of (now (a ∷ answers) (waiting t) s) _
            (λ r. now answers (testing r.0) r.1) _
            (round-Mirrors answers fuel a t s s.0.dispatcher refl)
            (λ r. run_from-Mirrors fuel answers r.0 r.1 r.1.0.quit refl)))

returned_blocked :
    {S T : Type 0} (m : Outcome S) (f : S → T)
    → (m >>= λ s. ok (f s)) ≡ fault blocked
    → m ≡ fault blocked
returned_blocked (ok s) f e = cc
returned_blocked (fault x) f e = cc

module _ {D R A F W E : Type 0} (ops : Ops D R A) (fd : EventFd E) (this : ℕ)
    (others : Event → ℕ → State D F W → Outcome (State D F W))
    (call : F → State D F W → Outcome (State D F W)) where
  -- For a wake-up handler on an eventfd, and any other handlers and functors that leave the eventfd
  -- alone: a `run` either does not come back, from a wait, from a call or for lack of fuel in the
  -- loop over the functors, or a number of turns of the loop's thread alone, from the beginning of
  -- `run` and with the same answers of the system, comes to the same end, be it a fault, or the
  -- return from `run` in the same state.
  pub exec-run :
      (fuel : ℕ) (answers : List (R → A)) (s : State D F (E × W))
      → (run ops
            (on_event ops fd this others call)
            (call_functor ops fd this others call)
            fuel
            answers
            s
          ≡ fault blocked)
        ⊎ ((n : ℕ) × ((exec ops fd this others call (alone n) (begun (given answers) s) >>= λ t.
                ok (end_of t))
              ≡ (run ops
                    (on_event ops fd this others call)
                    (call_functor ops fd this others call)
                    fuel
                    answers
                    s
                  >>= λ s'. ok (returning s'))))
  unfolding run
  exec-run fuel answers s =
      elim (run_from-Mirrors ops fd this others call unasked fuel answers (pos 2) s s.0.quit refl) [
        | inl b ↦ inl (returned_blocked _ returning b)
        | inr same ↦ inr same
      ]
