-- ===== src/EventHandler/Registering.antt =====
-- What a connection may rely on in the `ServiceLoop` that calls it, and what it leaves of the map of handlers.
use libolptnet.Base.{
  ℕ, ℤ, pos, ◌==ℤ◌, ==ℤ_iff, ==ℤ_refl, is_positive, Returns, Returns-map, if◌then◌else◌, ◌≡◌, refl,
  sym, ap, ◌∙◌, inl, inr, Bool, true, false, none, some, arith,
}
use mathlib.Core.Path.{subst}
use libolptnet.Dispatcher.Base.{Ops}
use libolptnet.Dispatcher.Laws.{Set, Unset, Laws, Sure}
use libolptnet.ServiceLoop.{ServiceLoop, Handlers, update}
use libolptnet.ServiceLoop.Sync.{
  InSync, registered, Registers, Deletes, modify_event-InSync, delete_event-InSync,
}
use libolptnet.ServiceLoop.Client.{loop_ops, Obliging, writes_of}
use libolptnet.ServiceLoop
use libolptnet.Connection.Writing.{LoopLaws}
use libolptnet.Connection.Surviving.{Deletable}

pub refused_never : {b : Bool} {P : Type 0} → b ≡ true → b ≡ false → P
refused_never e f = cc

module _ {D R A : Type 0} (ops : Ops D R A) (laws : Laws ops) where
  -- A dispatcher that never refuses to delete a handle that it watches.
  abbrev pub Yielding : Type 0
  Yielding =
      (d : D) (h : ℤ)
      → laws.IsValid d
      → (laws.view d).watches h ≡ true
      → laws.HasRoom d h × Returns (Sure laws.IsValid laws.view (Unset h) d) (ops.del_event d h)

module _ {D R A F : Type 0} (ops : Ops D R A) (laws : Laws ops) (willing : Obliging ops laws)
    (m : Handlers) (h : ℤ) (p : ℕ) (positive : is_positive h ≡ true)
    (mine : m h ≡ some (some p)) where
  -- In step, and the map is `m`.
  abbrev pub Unchanged : ServiceLoop D F → ℤ → Type 0
  Unchanged l g = (g ≡ h) × ((d : D) × InSync ops laws l d) × ((k : ℤ) → l.handlers k ≡ m k)

  -- In step, and the map is `m` without the handle.
  abbrev pub Gone : ServiceLoop D F → ℤ → Type 0
  Gone l g =
      ((d : D) × InSync ops laws l d) × ((k : ℤ) → l.handlers k ≡ (if k ==ℤ h then none else m k))

  abbrev Watched : Bool → ℤ × ServiceLoop D F → Type 0
  Watched w r = (r.0 ≡ pos 0) × Unchanged r.1 h × (writes_of ops laws r.1 h ≡ w)

  watched :
      (l : ServiceLoop D F) (d : D) (w : Bool) (r : ℤ × ServiceLoop D F)
      → InSync ops laws l d
      → ((k : ℤ) → l.handlers k ≡ m k)
      → Registers ops laws l d h w (some p) (ops.mod_event d h true w) r
      → Watched w r
  watched l d w r s same (d', s', inl (e, set, stored)) = (
    e,
    (refl, (d', s'), λ k. stored k ∙ ground (arith, same k, mine, ==ℤ_iff k h)),
    rw (s'.live) (set.set_writes h ∙ rw (==ℤ_refl h) refl),
  )
  watched l d w r s same (d', s', inr (refused, e, kept, handlers)) =
      refused_never
        (subst (Returns (Sure laws.IsValid laws.view (Set h w) d)) refused
          (willing d h w s.valid (s.agree h ∙ ap registered (same h ∙ mine)))).0
        refl

  pub modify_event-Unchanged :
      (l : ServiceLoop D F) (g : ℤ) (w : Bool)
      → Unchanged l g
      → Returns
          (λ r. (r.0 ≡ pos 0) × Unchanged r.1 g × (writes_of ops laws r.1 g ≡ w))
          (ServiceLoop.modify_event ops l g true w (some p))
  modify_event-Unchanged l g w (e, (d, s), same) =
      subst
        (λ g.
          Returns (λ r. (r.0 ≡ pos 0) × Unchanged r.1 g × (writes_of ops laws r.1 g ≡ w))
            (ServiceLoop.modify_event ops l g true w (some p)))
        (sym e)
        (Returns-map (Watched w) (Registers ops laws l d h w (some p) (ops.mod_event d h true w))
          (ServiceLoop.modify_event ops l h true w (some p))
          (modify_event-InSync ops laws l d h w p s positive (ap registered (same h ∙ mine)))
          (λ r k. watched l d w r s same k))

  -- A connection's calls of the loop, while it is called.
  abbrev pub calls_laws : LoopLaws (loop_ops {F = F} ops p)
  calls_laws = record {
    Registered = Unchanged;
    writes = writes_of ops laws;
    modify_lem = modify_event-Unchanged;
  }

  unset :
      Yielding ops laws
      → (l : ServiceLoop D F) (d : D) (r : ℤ × ServiceLoop D F) → InSync ops laws l d
      → ((k : ℤ) → l.handlers k ≡ m k)
      → Deletes ops laws l d h (ops.del_event d h) r
      → (r.0 ≡ pos 0) × Gone r.1 h
  unset yields l d r s same (d', s', inl (e, gone, handlers)) =
      (e, ((d', s'), λ k. handlers k ∙ ap (λ o. if k ==ℤ h then none else o) (same k)))
  unset yields l d r s same (d', s', inr (refused, e, kept, handlers)) =
      refused_never
        (subst (Returns (Sure laws.IsValid laws.view (Unset h) d)) refused
          (yields d h s.valid (s.agree h ∙ ap registered (same h ∙ mine))).1).0
        refl

  pub calls_delete : Yielding ops laws → Deletable (loop_ops {F = F} ops p) calls_laws Gone
  calls_delete yields l g (e, (d, s), same) =
      subst
        (λ g.
          (is_positive g ≡ true)
          × Returns (λ r. (r.0 ≡ pos 0) × Gone r.1 g) (ServiceLoop.delete_event ops l g))
        (sym e)
        (
          positive,
          Returns-map (λ r. (r.0 ≡ pos 0) × Gone r.1 h) (Deletes ops laws l d h (ops.del_event d h))
              (ServiceLoop.delete_event ops l h)
              (delete_event-InSync ops laws l d h s
                (yields d h s.valid (s.agree h ∙ ap registered (same h ∙ mine))).0 positive)
              (λ r k. unset yields l d r s same k),
        )
