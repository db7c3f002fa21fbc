-- ===== src/ServiceLoop/Client.antt =====
-- What a handler sees of its loop: src/net/service_loop.cc as the interface that
-- src/net/connection_handler.cc relies on.
use libolptnet.Base.{
  ℕ, ◌<◌, ℤ, pos, ==ℤ_refl, is_positive, int_limit, Returns, Returns-map, length, is_empty, ◌≡◌,
  refl, sym, ap, ◌∙◌, ◌≢◌, inl, inr, Bool, true, false, not, none, some, List, [], ◌++◌,
}
use mathlib.Core.Path.{subst}
use libolptnet.Dispatcher.Base.{Ops}
use libolptnet.Dispatcher.Laws.{Set, Laws, Sure}
use libolptnet.ServiceLoop.{ServiceLoop, register_event, modify_event, delete_event}
use libolptnet.ServiceLoop.Sync.{InSync, registered, Registers, modify_event-InSync}
use libolptnet.Connection.{LoopOps, Connection, SendAnswer, do_handle_write}
use libolptnet.Connection.Writing.{LoopLaws, Serves, Conserves, do_handle_write-Conserves}

module _ {D R A F : Type 0} (ops : Ops D R A) where
  -- The calls that the handler `p` makes, with `this` as the last argument.
  abbrev pub loop_ops : ℕ → LoopOps (ServiceLoop D F)
  loop_ops p = record {
    register_event = λ l h readable writeable. register_event ops l h readable writeable (some p);
    modify_event = λ l h readable writeable. modify_event ops l h readable writeable (some p);
    delete_event = λ l h. delete_event ops l h;
  }

module _ {D R A : Type 0} (ops : Ops D R A) (laws : Laws ops) where
  -- A dispatcher that never refuses to change a handle that it watches.
  abbrev pub Obliging : Type 0
  Obliging =
      (d : D) (h : ℤ) (w : Bool)
      → laws.IsValid d
      → (laws.view d).watches h ≡ true
      → Returns (Sure laws.IsValid laws.view (Set h w) d) (ops.mod_event d h true w)

module _ {D R A F : Type 0} (ops : Ops D R A) (laws : Laws ops) where
  abbrev pub IsKnown : ServiceLoop D F → ℤ → Type 0
  IsKnown l h =
      (is_positive h ≡ true) × (registered (l.handlers h) ≡ true) × ((d : D) × InSync ops laws l d)

  abbrev pub writes_of : ServiceLoop D F → ℤ → Bool
  writes_of l h = elim l.dispatcher [ none ↦ false | some d ↦ (laws.view d).writes h ]

  abbrev Changed : ℤ → Bool → ℤ × ServiceLoop D F → Type 0
  Changed h w r = (r.0 ≡ pos 0) × IsKnown r.1 h × (writes_of r.1 h ≡ w)

  changed :
      (l : ServiceLoop D F) (d : D) (h : ℤ) (w : Bool) (p : ℕ) (r : ℤ × ServiceLoop D F)
      → Obliging ops laws
      → is_positive h ≡ true
      → registered (l.handlers h) ≡ true
      → InSync ops laws l d
      → Registers ops laws l d h w (some p) (ops.mod_event d h true w) r
      → Changed h w r
  changed l d h w p r willing positive old s (d', s', inl (e, set, stored)) = (
    e,
    (positive, ap registered (stored h) ∙ rw (==ℤ_refl h) refl, (d', s')),
    rw (s'.live) (set.set_writes h ∙ rw (==ℤ_refl h) refl),
  )
  changed l d h w p r willing positive old s (d', s', inr (refused, e, kept, same)) = absurd (
      never
        (subst (Returns (Sure laws.IsValid laws.view (Set h w) d)) refused
          (willing d h w s.valid (s.agree h ∙ old))).0)
    where
      never : false ≢ true
      never e = cc

  -- Changing the interest in a known handle is not refused, and takes effect.
  pub modify_event-IsKnown :
      (l : ServiceLoop D F) (h : ℤ) (w : Bool) (p : ℕ)
      → Obliging ops laws
      → IsKnown l h
      → Returns (Changed h w) (modify_event ops l h true w (some p))
  modify_event-IsKnown l h w p willing (positive, old, (d, s)) =
      Returns-map _ (Registers ops laws l d h w (some p) (ops.mod_event d h true w)) _
        (modify_event-InSync ops laws l d h w p s positive old)
        (λ r k. changed l d h w p r willing positive old s k)

  abbrev pub loop_laws : Obliging ops laws → (p : ℕ) → LoopLaws (loop_ops {F = F} ops p)
  loop_laws willing p = record {
    Registered = IsKnown;
    writes = writes_of;
    modify_lem = λ l h w known. modify_event-IsKnown l h w p willing known;
  }

  -- Over a `ServiceLoop` whose dispatcher has the interface's laws and does not refuse to change a
  -- handle that it watches: for a positive handle that is registered in a loop in step with its
  -- dispatcher, and watched for writing exactly if the connection's buffer, shorter than INT_MAX +
  -- 1, is not empty, and for answers of `::send` that never count more bytes than there are and
  -- that do not end before the loop does, `do_handle_write` returns; no byte is lost or handed over
  -- twice, the handle is still registered in a loop in step with its dispatcher, and the dispatcher
  -- watches it for writing exactly if some bytes are left.
  pub write_over_loop :
      (answers : List SendAnswer) (c : Connection) (l : ServiceLoop D F) (p : ℕ)
      (willing : Obliging ops laws)
      → Serves answers (length c.buffer_out.text)
      → length c.buffer_out.text < int_limit
      → IsKnown l c.handle
      → writes_of l c.handle ≡ not (is_empty c.buffer_out.text)
      → Returns
          (λ r.
            (r.0 ++ r.1.buffer_out.text ≡ c.buffer_out.text)
            × IsKnown r.2 c.handle
            × (writes_of r.2 c.handle ≡ not (is_empty r.1.buffer_out.text)))
          (do_handle_write (loop_ops ops p) answers (c, l))
  write_over_loop answers c l p willing s small known armed =
      Returns-map _ (Conserves (loop_ops ops p) (loop_laws willing p) [] c) _
        (do_handle_write-Conserves (loop_ops ops p) (loop_laws willing p) answers c l s small
          (record { known = known; armed = armed }))
        (λ r k. (k.0, subst (IsKnown r.2) k.2 k.1.known, sym (ap (writes_of r.2) k.2) ∙ k.1.armed))
