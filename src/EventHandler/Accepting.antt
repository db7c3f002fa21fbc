-- ===== src/EventHandler/Accepting.antt =====
-- A new connection at a loop: src/net/async_acceptor.cc, `on_accept` of src/example/example-1.cc and `open` of
-- src/net/connection_handler.cc.
use libolptnet.Base.{
  ℕ, suc, ◌<◌, ℤ, pos, ◌==ℤ◌, ==ℤ_iff, ==ℤ_refl, is_positive, Outcome, ok, Returns, Returns-assert,
  Returns->>=, Returns-map, Returns-if, ◌==◌, Bool-cases, ◌≡◌, refl, sym, ap, ◌∙◌, ◌⊎◌, inl, inr,
  Bool, true, false, some, List, [], ◌∷◌, arith,
}
use mathlib.Core.Path.{subst}
use libolptnet.Dispatcher.Base.{Event, Ops}
use libolptnet.Dispatcher.Laws.{Set, Laws, Sure}
use libolptnet.Connection.{LoopOps, Connection, open_connection}
use libolptnet.Acceptor
use libolptnet.Acceptor.{Acceptor}
use libolptnet.ServiceLoop
use libolptnet.ServiceLoop.{ServiceLoop, Handlers, update}
use libolptnet.ServiceLoop.Sync.{InSync, registered, Registers, register_event-InSync}
use libolptnet.ServiceLoop.Client.{loop_ops}
use libolptnet.ServiceLoop.Run.{State}
use libolptnet.ServiceLoop.Run.Deliver.{Good}
use libolptnet.EventHandler.{
  connection, Objects, replace, accept_of, new_connection, on_accept, accept_event,
}
use libolptnet.EventHandler.Owners.{Owns, Linked, among, IsFresh, IsFresh-less}
use libolptnet.EventHandler.Registering.{refused_never}

IsFresh-later : (m : Handlers) (fds : List ℤ) → IsFresh m fds → IsFresh m (accept_of fds).1
IsFresh-later m [] f = tt
IsFresh-later m (fd ∷ later) f = f.1

IsFresh-now :
    (m : Handlers) (fds : List ℤ)
    → IsFresh m fds
    → is_positive (accept_of fds).0 ≡ true
    → (registered (m (accept_of fds).0) ≡ false)
      × (among (accept_of fds).0 (accept_of fds).1 ≡ false)
IsFresh-now m [] f e = cc
IsFresh-now m (fd ∷ later) f e = f.0 e

-- The new object is registered for its handle, and for no other.
module _ (m m' : Handlers) (w : Objects) (linked : Linked m w) (fd : ℤ) (c : Connection)
    (stored : (g : ℤ) → m' g ≡ update m fd (some (some w.next)) g) (handle_is : c.handle ≡ fd)
    (positive : is_positive fd ≡ true) where
  -- A handle of the new map has the new pointer, or is an old one.
  which : (g : ℤ) (q : ℕ) → m' g ≡ some (some q) → ((g ≡ fd) × (q ≡ w.next)) ⊎ (m g ≡ some (some q))
  which g q k = elim (Bool-cases (g ==ℤ fd)) [
    | inl e ↦
        let there : m' g ≡ some (some w.next) = stored g ∙ rw e refl in
        inl ((==ℤ_iff g fd).0 e, cc (k, there))
    | inr e ↦ let same : m' g ≡ m g = stored g ∙ rw e refl in inr (sym same ∙ k)
  ]

  owned_new :
      (g : ℤ) (q : ℕ) → m' g ≡ some (some q) → Owns (replace w.objects w.next (connection c) q) g
  owned_new g q k = elim (which g q k) [
    | inl (e, r) ↦ rw r (rw (self w.next) (handle_is ∙ sym e, ap is_positive e ∙ positive))
    | inr old ↦ rw (distinct (linked.older g q old)) (linked.owned g q old)
  ]
    where
      self : (n : ℕ) → (n == n) ≡ true
      self n = ground arith

      distinct : {n k : ℕ} → n < k → (n == k) ≡ false
      distinct h = ground arith

  older_new : (g : ℤ) (q : ℕ) → m' g ≡ some (some q) → q < suc w.next
  older_new g q k = elim (which g q k) [
    | inl (e, r) ↦ omega (arith, r)
    | inr old ↦ omega (arith, linked.older g q old)
  ]

  fresh_new : (later : List ℤ) → among fd later ≡ false → IsFresh m later → IsFresh m' later
  fresh_new later once f =
      IsFresh-less m m' later
        (λ g there free. elim (Bool-cases (g ==ℤ fd)) [
          | inl e ↦ cc (there, once, ap (λ x. among x later) ((==ℤ_iff g fd).0 e))
          | inr e ↦ let same : m' g ≡ m g = stored g ∙ rw e refl in ap registered same ∙ free
        ])
        f

module _ {D R A : Type 0} (ops : Ops D R A) (laws : Laws ops) where
  -- A dispatcher that never refuses to watch a positive handle that it does not watch yet.
  abbrev pub Welcoming : Type 0
  Welcoming =
      (d : D) (h : ℤ)
      → laws.IsValid d
      → is_positive h ≡ true
      → (laws.view d).watches h ≡ false
      → laws.HasRoom d h
        × Returns (Sure laws.IsValid laws.view (Set h false) d) (ops.add_event d h true false)

module _ {D R A F : Type 0} (ops : Ops D R A) (laws : Laws ops) (welcoming : Welcoming ops laws)
    (on_read : LoopOps (ServiceLoop D F)
      → List ℕ
      → Connection × ServiceLoop D F
      → Outcome (ℤ × Connection × ServiceLoop D F))
    (others : Event → ℕ → State D F Objects → Outcome (State D F Objects)) where
  -- The loop is in step, and the pointer is stored for the handle.
  abbrev pub Stored : ServiceLoop D F → ℤ → ℕ → ServiceLoop D F → Type 0
  Stored l h p l' =
      ((d : D) × InSync ops laws l' d)
      × ((g : ℤ) → l'.handlers g ≡ update l.handlers h (some (some p)) g)

  pub Stored-new :
      (l : ServiceLoop D F) (d : D) (h : ℤ) (p : ℕ) (r : ℤ × ServiceLoop D F)
      → InSync ops laws l d
      → is_positive h ≡ true
      → registered (l.handlers h) ≡ false
      → Registers ops laws l d h false (some p) (ops.add_event d h true false) r
      → (r.0 ≡ pos 0) × Stored l h p r.1
  Stored-new l d h p r s positive free (d', s', inl (e, set, stored)) = (e, ((d', s'), stored))
  Stored-new l d h p r s positive free (d', s', inr (refused, e, kept, handlers)) =
      refused_never
        (subst (Returns (Sure laws.IsValid laws.view (Set h false) d)) refused
          (welcoming d h s.valid positive (s.agree h ∙ free)).1).0
        refl

  open_connection-Stored :
      (l : ServiceLoop D F) (d : D) (h : ℤ) (p : ℕ)
      → InSync ops laws l d
      → is_positive h ≡ true
      → registered (l.handlers h) ≡ false
      → Returns
          (λ r. (r.0.handle ≡ h) × Stored l h p r.1)
          (open_connection (loop_ops ops p) (λ s. ok s) h (new_connection, l))
  unfolding open_connection
  open_connection-Stored l d h p s positive free =
      Returns->>= _ (λ (r : ℤ × ServiceLoop D F). (r.0 ≡ pos 0) × Stored l h p r.1)
        (ServiceLoop.register_event ops l h true false (some p)) _
        (Returns-map (λ (r : ℤ × ServiceLoop D F). (r.0 ≡ pos 0) × Stored l h p r.1)
          (Registers ops laws l d h false (some p) (ops.add_event d h true false))
          (ServiceLoop.register_event ops l h true false (some p))
          (register_event-InSync ops laws l d h false p s
            (welcoming d h s.valid positive (s.agree h ∙ free)).0 positive free)
          (λ r k. Stored-new l d h p r s positive free k))
        (λ (r : ℤ × ServiceLoop D F) k.
          Returns-assert _ (r.0 ==ℤ pos 0) _ (rw k.0 (==ℤ_refl (pos 0))) (refl, k.1))

  abbrev Sound : Acceptor (State D F Objects) → Type 0
  Sound a = Good ops laws Linked a.loop

  on_accept-Sound :
      (fd : ℤ) (a : Acceptor (State D F Objects)) (l : ServiceLoop D F) (d : D) (w : Objects)
      (later : List ℤ)
      → a.loop ≡ (l, record w { accepts = later })
      → InSync ops laws l d
      → Linked l.handlers w
      → is_positive fd ≡ true
      → registered (l.handlers fd) ≡ false
      → among fd later ≡ false
      → IsFresh l.handlers later
      → Returns (λ r. (r.0 ≡ true) × Sound r.1) (on_accept ops on_read others fd a)
  unfolding on_accept
  on_accept-Sound fd a l d w later e s linked positive free once fresh = rw e (
      Returns->>= _
        (λ (r : Connection × ServiceLoop D F). (r.0.handle ≡ fd) × Stored l fd w.next r.1) _ _
        (open_connection-Stored l d fd w.next s positive free)
        (λ (r : Connection × ServiceLoop D F) k. (
          refl,
          (
            k.1.0,
            record {
              owned = owned_new l.handlers r.1.handlers w linked fd r.0 k.1.1 k.0 positive;
              older = older_new l.handlers r.1.handlers w linked fd r.0 k.1.1 k.0 positive;
              bounded = linked.bounded;
              fresh =
                  fresh_new l.handlers r.1.handlers w linked fd r.0 k.1.1 k.0 positive later once
                    fresh;
            },
          ),
        )))

  pub accept_event-Good :
      (p : ℕ) (listen_fd : ℤ) (l : ServiceLoop D F) (w : Objects)
      → Good ops laws Linked (l, w)
      → Returns (Good ops laws Linked) (accept_event ops on_read others p listen_fd (l, w))
  unfolding accept_event Acceptor.do_handle_read
  accept_event-Good p listen_fd l w ((d, s), linked) =
      let fd = (accept_of w.accepts).0 in
      let later = (accept_of w.accepts).1 in
      Returns->>= (Good ops laws Linked) Sound _ _
        (Returns-if Sound (is_positive fd) _ _
          (λ positive.
            let (free, once) = IsFresh-now l.handlers w.accepts linked.fresh positive in
            Returns->>= Sound
              (λ (r : Bool × Acceptor (State D F Objects)). (r.0 ≡ true) × Sound r.1) _ _
              (on_accept-Sound fd _ l d w later refl s linked positive free once
                (IsFresh-later l.handlers w.accepts linked.fresh))
              (λ (r : Bool × Acceptor (State D F Objects)) k.
                Returns-if Sound r.0 _ _ (λ e. k.1) (λ e. k.1)))
          (λ e. (
            (d, s),
            record {
              owned = linked.owned;
              older = linked.older;
              bounded = linked.bounded;
              fresh = IsFresh-later l.handlers w.accepts linked.fresh;
            },
          )))
        (λ b k. (
          k.0,
          record { owned = k.1.owned; older = k.1.older; bounded = k.1.bounded; fresh = k.1.fresh },
        ))
