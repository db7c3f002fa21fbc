-- ===== src/ServiceLoop/Sync.antt =====
-- The map of handlers and the dispatcher of src/net/service_loop.cc: what is registered and what is
-- watched.
use libolptnet.Base.{
  ℕ, ℤ, pos, ◌==ℤ◌, ==ℤ_iff, is_positive, Outcome, ok, Returns, Returns-assert, Returns->>=_eq,
  if◌then◌else◌, Option-cases, ◌≡◌, refl, ap, ◌∙◌, ◌⊎◌, inl, inr, Bool, true, false, Option, none,
  some, arith,
}
use libolptnet.Dispatcher.Base.{Ops}
use libolptnet.Dispatcher.Laws.{Kept, Set, Unset, Either, Laws, SetResult, UnsetResult}
use libolptnet.ServiceLoop.{
  ServiceLoop, HandlerPtr, update, register_event, modify_event, Returns-deref, delete_event,
}

-- A key with a handler that is not NULL.
abbrev pub registered : Option HandlerPtr → Bool
registered none = false
registered (some none) = false
registered (some (some p)) = true

module _ {D R A F : Type 0} (ops : Ops D R A) (laws : Laws ops) where
  -- The loop has its dispatcher, which watches exactly the registered handles.
  pub record InSync (l : ServiceLoop D F) (d : D) : Type 0 where
    pub live : l.dispatcher ≡ some d
    pub valid : laws.IsValid d
    pub agree : (g : ℤ) → (laws.view d).watches g ≡ registered (l.handlers g)

  -- `register_event` and `modify_event` return 0, the handler is stored, and the dispatcher watches
  -- the handle as `Set` says; or the dispatcher has refused, and nothing else has changed.
  abbrev pub Registers :
      ServiceLoop D F
      → D
      → ℤ
      → Bool
      → HandlerPtr
      → Outcome (Bool × D)
      → ℤ × ServiceLoop D F
      → Type 0
  Registers l d h w p answer (ret, l') =
      (d' : D) × InSync l' d'
      × (((ret ≡ pos 0)
            × Set h w (laws.view d) (laws.view d')
            × ((g : ℤ) → l'.handlers g ≡ update l.handlers h (some p) g))
          ⊎ ((answer ≡ ok (false, d'))
              × (ret ≡ ops.get_last_errno d')
              × Kept (laws.view d) (laws.view d')
              × ((g : ℤ) → l'.handlers g ≡ l.handlers g)))

  -- The end of `register_event` and of `modify_event`, by what the dispatcher has answered.
  stored :
      (l : ServiceLoop D F) (d d' : D) (h : ℤ) (w b : Bool) (p : ℕ) (answer : Outcome (Bool × D))
      → InSync l d
      → answer ≡ ok (b, d')
      → laws.IsValid d'
      → Either b (Set h w (laws.view d) (laws.view d')) (Kept (laws.view d) (laws.view d'))
      → Returns (Registers l d h w (some p) answer) (
          if b
          then ok (
            pos 0,
            record l { dispatcher = some d'; handlers = update l.handlers h (some (some p)) },
          )
          else ok (ops.get_last_errno d', record l { dispatcher = some d' }))
  stored l d d' h w true p answer s a v e = (
    d',
    record { live = refl; valid = v; agree = λ g. ground (arith, e.set_watches g, s.agree g) },
    inl (refl, e, λ g. refl),
  )
  stored l d d' h w false p answer s a v e = (
    d',
    record { live = refl; valid = v; agree = λ g. ground (arith, e.same_watches g, s.agree g) },
    inr (a, refl, e, λ g. refl),
  )

  -- `register_event` for reading of a positive handle that is not registered, that the dispatcher
  -- has room for, with a handler that is not NULL and where map and dispatcher agree: it returns,
  -- map and dispatcher agree again, and either it returns 0, the handler is stored and the
  -- dispatcher watches the handle, for writing exactly if asked and for reading as far as it can do
  -- that beside the interest in writing, and the others as before, or the dispatcher has refused,
  -- it returns the dispatcher's error number, and neither the map nor what is watched has changed.
  pub register_event-InSync :
      (l : ServiceLoop D F) (d : D) (h : ℤ) (w : Bool) (p : ℕ)
      → InSync l d
      → laws.HasRoom d h
      → is_positive h ≡ true
      → registered (l.handlers h) ≡ false
      → Returns
          (Registers l d h w (some p) (ops.add_event d h true w))
          (register_event ops l h true w (some p))
  unfolding register_event
  register_event-InSync l d h w p s room positive new = Returns-assert _ _ _ positive (
      Returns-deref _ _ d _ s.live (
        Returns->>=_eq _ (SetResult laws d h w) _ _
          (laws.add_lem d h w s.valid room (s.agree h ∙ new))
          (λ (r : Bool × D) a k. stored l d r.1 h w r.0 p (ops.add_event d h true w) s a k.0 k.1)))

  -- `modify_event` for reading of a positive handle that is registered, with a handler that is not
  -- NULL and where map and dispatcher agree: it returns, map and dispatcher agree again, and either
  -- it returns 0, the handler is stored and the dispatcher watches the handle, for writing exactly
  -- if asked and for reading as far as it can do that beside the interest in writing, and the
  -- others as before, or the dispatcher has refused, it returns the dispatcher's error number, and
  -- neither the map nor what is watched has changed.
  pub modify_event-InSync :
      (l : ServiceLoop D F) (d : D) (h : ℤ) (w : Bool) (p : ℕ)
      → InSync l d
      → is_positive h ≡ true
      → registered (l.handlers h) ≡ true
      → Returns
          (Registers l d h w (some p) (ops.mod_event d h true w))
          (modify_event ops l h true w (some p))
  unfolding modify_event
  modify_event-InSync l d h w p s positive old = Returns-assert _ _ _ positive (
      Returns-deref _ _ d _ s.live (
        Returns->>=_eq _ (SetResult laws d h w) _ _ (laws.mod_lem d h w s.valid (s.agree h ∙ old))
          (λ (r : Bool × D) a k. stored l d r.1 h w r.0 p (ops.mod_event d h true w) s a k.0 k.1)))

  -- `delete_event` returns 0, the handle has no entry and is no longer watched; or the dispatcher has
  -- refused, and nothing else has changed.
  abbrev pub Deletes : ServiceLoop D F → D → ℤ → Outcome (Bool × D) → ℤ × ServiceLoop D F → Type 0
  Deletes l d h answer (ret, l') =
      (d' : D) × InSync l' d'
      × (((ret ≡ pos 0)
            × Unset h (laws.view d) (laws.view d')
            × ((g : ℤ) → l'.handlers g ≡ (if g ==ℤ h then none else l.handlers g)))
          ⊎ ((answer ≡ ok (false, d'))
              × (ret ≡ ops.get_last_errno d')
              × Kept (laws.view d) (laws.view d')
              × ((g : ℤ) → l'.handlers g ≡ l.handlers g)))

  erased :
      (l : ServiceLoop D F) (d d' : D) (h : ℤ) (b : Bool) (answer : Outcome (Bool × D))
      → InSync l d
      → answer ≡ ok (b, d')
      → laws.IsValid d'
      → Either b (Unset h (laws.view d) (laws.view d')) (Kept (laws.view d) (laws.view d'))
      → Returns (Deletes l d h answer) (
          if b
          then ok (pos 0, record l { dispatcher = some d'; handlers = update l.handlers h none })
          else ok (ops.get_last_errno d', record l { dispatcher = some d' }))
  erased l d d' h true answer s a v e = (
    d',
    record { live = refl; valid = v; agree = λ g. ground (arith, e.unset_watches g, s.agree g) },
    inl (refl, e, λ g. refl),
  )
  erased l d d' h false answer s a v e = (
    d',
    record { live = refl; valid = v; agree = λ g. ground (arith, e.same_watches g, s.agree g) },
    inr (a, refl, e, λ g. refl),
  )

  -- A handle without an entry is not watched, so there is nothing to take back.
  Unset-absent :
      (l : ServiceLoop D F) (d : D) (h : ℤ)
      → InSync l d
      → l.handlers h ≡ none
      → Unset h (laws.view d) (laws.view d)
  Unset-absent l d h s absent = record {
    unset_watches = λ g. ground (arith, s.agree g, ap registered absent, ==ℤ_iff g h);
    unset_reads = λ g o. refl;
    unset_writes = λ g o. refl;
  }

  -- `delete_event` of a positive handle that the dispatcher has room for, registered or not, where
  -- map and dispatcher agree: it returns, map and dispatcher agree again, and either it returns 0,
  -- the handle has no entry and is not watched while the others are as they were, or the dispatcher
  -- has refused, it returns the dispatcher's error number, and neither the map nor what is watched
  -- has changed.
  pub delete_event-InSync :
      (l : ServiceLoop D F) (d : D) (h : ℤ)
      → InSync l d
      → laws.HasRoom d h
      → is_positive h ≡ true
      → Returns (Deletes l d h (ops.del_event d h)) (delete_event ops l h)
  unfolding delete_event
  delete_event-InSync l d h s room positive =
      Returns-assert _ _ _ positive (elim (Option-cases (l.handlers h)) [
        | inl absent ↦
            rw absent
              (d, s, inl (refl, Unset-absent l d h s absent, λ g. ground (arith, ==ℤ_iff g h)))
        | inr (p, found) ↦ rw found (
            Returns-deref _ _ d _ s.live (
              Returns->>=_eq _ (UnsetResult laws d h) _ _ (laws.del_lem d h s.valid room)
                (λ (r : Bool × D) a k. erased l d r.1 h r.0 (ops.del_event d h) s a k.0 k.1)))
      ])
