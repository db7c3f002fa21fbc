-- ===== src/ServiceLoop/Threads/Mirrors.antt =====
-- Turns of the loop's thread alone: src/net/service_loop.cc with no other thread.
use libolptnet.Base.{
  ℕ, zero, suc, ◌+◌, blocked, Outcome, ok, fault, ◌>>=◌, >>=-ok, >>=_assoc, ◌≡◌, refl, sym, ap, ◌∙◌,
  arith, fun_ext, ◌⊎◌, inl, inr, List, [], ◌∷◌, ◌++◌,
}
use libolptnet.Dispatcher.Base.{Event, Ops}
use libolptnet.ServiceLoop.Run.{State}
use libolptnet.ServiceLoop.Wakeup.{EventFd}
use libolptnet.ServiceLoop.Threads.{Turn, own, Threads, take_turn, exec}

-- `n` turns of the loop's thread.
abbrev pub alone : {F : Type 0} → ℕ → List (Turn F)
alone zero = []
alone (suc n) = own ∷ alone n

module _ {D R A F W E : Type 0} (ops : Ops D R A) (fd : EventFd E) (this : ℕ)
    (others : Event → ℕ → State D F W → Outcome (State D F W))
    (call : F → State D F W → Outcome (State D F W)) where
  pub exec-append :
      (ts us : List (Turn F)) (s : Threads D R A E F W)
      → exec ops fd this others call (ts ++ us) s
        ≡ (exec ops fd this others call ts s >>= exec ops fd this others call us)
  unfolding exec
  exec-append [] us s = refl
  exec-append (t ∷ ts) us s =
      ap (λ k. take_turn ops fd this others call t s >>= k) (fun_ext (λ s1. exec-append ts us s1))
      ∙ sym (
          >>=_assoc (take_turn ops fd this others call t s) (exec ops fd this others call ts)
            (exec ops fd this others call us))

  alone-append : (n k : ℕ) → alone {F = F} (n + k) ≡ alone n ++ alone k
  alone-append zero k = ap alone {x = 0 + k} {y = k} (omega arith)
  alone-append (suc n) k =
      ap alone {x = suc n + k} {y = suc (n + k)} (omega arith) ∙ ap (◌∷◌ own) (alone-append n k)

  -- The loop's thread alone comes to such an end, of which `view` is a part; or the end is that a call
  -- does not come back.
  abbrev pub MirrorsIn :
      {Y : Type 0} → (Threads D R A E F W → Y) → Threads D R A E F W → Outcome Y → Type 0
  MirrorsIn view s m =
      (m ≡ fault blocked)
      ⊎ ((n : ℕ) × ((exec ops fd this others call (alone n) s >>= λ t. ok (view t)) ≡ m))

  abbrev pub Mirrors : Threads D R A E F W → Outcome (Threads D R A E F W) → Type 0
  Mirrors = MirrorsIn (λ t. t)

  -- One step, where nothing else is left to do.
  pub mirrored :
      (s : Threads D R A E F W) (m : Outcome (Threads D R A E F W))
      → take_turn ops fd this others call own s ≡ m
      → Mirrors s m
  unfolding exec
  mirrored s m e = inr (
    1,
    >>=-ok (take_turn ops fd this others call own s >>= λ t. ok t)
        ∙ >>=-ok (take_turn ops fd this others call own s)
        ∙ e,
  )

  -- A step that returns, and then what mirrors the rest.
  pub stepped :
      {Y : Type 0} (view : Threads D R A E F W → Y) (s s1 : Threads D R A E F W) (m : Outcome Y)
      → take_turn ops fd this others call own s ≡ ok s1
      → MirrorsIn view s1 m
      → MirrorsIn view s m
  unfolding exec
  stepped view s s1 m e (inl b) = inl b
  stepped view s s1 m e (inr (n, e')) = inr (suc n, rw e e')

  pub Mirrors->>= :
      {X Y : Type 0} (view : Threads D R A E F W → Y) (s : Threads D R A E F W) (m : Outcome X)
      (f : X → Threads D R A E F W) (k : X → Outcome Y)
      → Mirrors s (m >>= λ x. ok (f x))
      → ((x : X) → MirrorsIn view (f x) (k x))
      → MirrorsIn view s (m >>= k)
  Mirrors->>= view s (fault e) f k (inl b) rest = inl cc
  Mirrors->>= view s (fault e) f k (inr (n, e')) rest = inr (n, rw (sym (>>=-ok _) ∙ e') refl)
  Mirrors->>= view s (ok x) f k (inl e) rest = cc
  Mirrors->>= view s (ok x) f k (inr (n, e)) rest = elim (rest x) [
    | inl b ↦ inl b
    | inr (j, e') ↦ inr (
      n + j,
      rw (alone-append n j) (rw (exec-append (alone n) (alone j) s) (rw (sym (>>=-ok _) ∙ e) e')),
    )
  ]
