-- ===== src/ServiceLoop/Run/Timeouts.antt =====
-- The timeouts that `run` of src/net/service_loop.cc passes to its dispatcher.
use libolptnet.Base.{
  ℕ, zero, suc, ℤ, pos, negsuc, Outcome, ok, fault, ◌>>=◌, ◌≡◌, refl, ap, ◌∙◌, ◌⊎◌, inl, inr,
  Option, none, some, List, [], ◌∷◌, if◌then◌else◌,
}
use libolptnet.Dispatcher.Base.{Event, Ops}
use libolptnet.ServiceLoop.{ServiceLoop}
use libolptnet.ServiceLoop.Run.{State, timeout_after, deliver, run_functors, round, run_from, run}

-- One or two milliseconds.
abbrev pub IsBrief : ℤ → Type 0
IsBrief t = (t ≡ pos 1) ⊎ (t ≡ pos 2)

timeout_after-IsBrief : (ret : ℤ) → IsBrief (timeout_after ret)
unfolding timeout_after
timeout_after-IsBrief (negsuc zero) = inr refl
timeout_after-IsBrief (negsuc (suc n)) = inl refl
timeout_after-IsBrief (pos zero) = inr refl
timeout_after-IsBrief (pos (suc n)) = inl refl

-- What holds if the call returns.
abbrev After : {A : Type 0} → (A → Type 0) → Outcome A → Type 0
After P (ok a) = P a
After P (fault e) = Unit {0}

After->>= :
    {A B : Type 0} (P : B → Type 0) (m : Outcome A) (f : A → Outcome B)
    → ((a : A) → After P (f a))
    → After P (m >>= f)
After->>= P (ok a) f k = k a
After->>= P (fault e) f k = tt

>>=-same :
    {A B : Type 0} (P : A → Type 0) (m : Outcome A) (f g : A → Outcome B)
    → After P m
    → ((a : A) → P a → f a ≡ g a)
    → (m >>= f) ≡ (m >>= g)
>>=-same P (ok a) f g h k = k a h
>>=-same P (fault e) f g h k = refl

-- The dispatchers do the same when they are asked to wait briefly.
abbrev pub AgreeBriefly : {D R A : Type 0} → Ops D R A → Ops D R A → Type 0
AgreeBriefly {D} {R} {A} ops ops' =
    (d : D) (ask : R → A) (t : ℤ)
    → IsBrief t
    → ops.handle_events d ask t ≡ ops'.handle_events d ask t

module _ {D R A F W : Type 0} (ops ops' : Ops D R A)
    (on_event : Event → ℕ → State D F W → Outcome (State D F W))
    (call : F → State D F W → Outcome (State D F W)) where
  round-IsBrief :
      (fuel : ℕ) (answer : R → A) (t : ℤ) (l : ServiceLoop D F) (w : W) (o : Option D)
      → l.dispatcher ≡ o
      → After (λ r. IsBrief r.0) (round ops on_event call fuel answer t (l, w))
  unfolding round
  round-IsBrief fuel answer t l w none e = rw e tt
  round-IsBrief fuel answer t l w (some d) e =
      let (ret, ready, d') = ops.handle_events d answer t in
      rw e (
        After->>= (λ r. IsBrief r.0)
          (deliver ops on_event call ready (record l { dispatcher = some d' }, w)) _
          (λ s.
            After->>= (λ r. IsBrief r.0) (run_functors ops on_event call fuel s) _
              (λ s'. timeout_after-IsBrief ret)))

  module _ (agree : AgreeBriefly ops ops') where
    round-same :
        (fuel : ℕ) (answer : R → A) (t : ℤ) (l : ServiceLoop D F) (w : W) (o : Option D)
        → IsBrief t
        → l.dispatcher ≡ o
        → round ops on_event call fuel answer t (l, w)
          ≡ round ops' on_event call fuel answer t (l, w)
    unfolding round deliver run_functors
    round-same fuel answer t l w none brief e = rw e refl
    round-same fuel answer t l w (some d) brief e = rw e (rw (agree d answer t brief) refl)

    run_from-same :
        (fuel : ℕ) (answers : List (R → A)) (t : ℤ) (s : State D F W)
        → IsBrief t
        → run_from ops on_event call fuel answers t s ≡ run_from ops' on_event call fuel answers t s
    unfolding run_from
    run_from-same fuel [] t s brief = refl
    run_from-same fuel (a ∷ answers) t s brief =
        ap (λ m. if s.0.quit then ok s else m)
          (>>=-same (λ r. IsBrief r.0) (round ops on_event call fuel a t s) _
              (λ r. run_from ops' on_event call fuel answers r.0 r.1)
              (round-IsBrief fuel a t s.0 s.1 s.0.dispatcher refl)
              (λ r k. run_from-same fuel answers r.0 r.1 k)
            ∙ ap (λ m. m >>= λ r. run_from ops' on_event call fuel answers r.0 r.1)
                (round-same fuel a t s.0 s.1 s.0.dispatcher brief refl))

    -- Where two dispatchers do the same whenever they are asked to wait for 1 or for 2
    -- milliseconds, whatever they do when asked to wait for longer or without a limit: `run` over
    -- the one and `run` over the other, with the same handlers, functors, fuel and answers, from
    -- the same state, come to the same end.
    pub run_waits_briefly :
        (fuel : ℕ) (answers : List (R → A)) (s : State D F W)
        → run ops on_event call fuel answers s ≡ run ops' on_event call fuel answers s
    unfolding run
    run_waits_briefly fuel answers s = run_from-same fuel answers (pos 2) s (inr refl)
