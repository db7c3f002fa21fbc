-- ===== src/EventHandler/Owners.antt =====
-- Which objects the map of handlers of src/net/service_loop.cc may lead to, and what a call leaves of that.
use libolptnet.Base.{
  ==ℤ_refl, Bool, false, ℕ, ◌<◌, ℤ, ◌==ℤ◌, ==ℤ_iff, is_positive, int_limit, ◌==◌, if◌then◌else◌,
  Bool-cases, ◌≡◌, refl, sym, ap, ◌∙◌, inl, inr, true, none, some, List, [], ◌∷◌, arith,
}
use mathlib.Core.Path.{subst}
use libolptnet.Buffer.Read.{Recv}
use libolptnet.Connection.{Connection}
use libolptnet.Connection.Surviving.{received}
use libolptnet.ServiceLoop.{Handlers, index}
use libolptnet.ServiceLoop.Run.Deliver.{Looks, registered-index, index-back}
use libolptnet.ServiceLoop.Sync.{registered}
use libolptnet.EventHandler.{
  Object, deleted, other, acceptor, connection, Objects, replace, answers_of,
}

-- The object may be registered for the handle: it is there, a connection has the handle, which is positive, and so
-- has a handler of another class.
abbrev pub Owns : Object → ℤ → Type 0
Owns deleted h = ⊥
Owns (other handle) h = handle ≡ h
Owns (acceptor listen_fd) h = Unit {0}
Owns (connection c) h = (c.handle ≡ h) × (is_positive h ≡ true)

-- No call of `::recv` takes in as much as an `int` cannot count.
abbrev pub IsBounded : List (List Recv) → Type 0
IsBounded [] = Unit {0}
IsBounded (answers ∷ later) = (received answers < int_limit) × IsBounded later

abbrev pub among : ℤ → List ℤ → Bool
among g [] = false
among g (fd ∷ fds) = if g ==ℤ fd then true else among g fds

-- A descriptor that `::accept` will return is not registered, and comes once.
abbrev pub IsFresh : Handlers → List ℤ → Type 0
IsFresh m [] = Unit {0}
IsFresh m (fd ∷ later) =
    (is_positive fd ≡ true → (registered (m fd) ≡ false) × (among fd later ≡ false))
    × IsFresh m later

-- Every pointer in the map leads to an object that may be registered there.
pub record Linked (m : Handlers) (w : Objects) : Type 0 where
  pub owned : (h : ℤ) (p : ℕ) → m h ≡ some (some p) → Owns (w.objects p) h
  pub older : (h : ℤ) (p : ℕ) → m h ≡ some (some p) → p < w.next
  pub bounded : IsBounded w.reads
  pub fresh : IsFresh m w.accepts

-- What is free stays free, of the descriptors that are given.
pub IsFresh-less :
    (m m' : Handlers) (fds : List ℤ)
    → ((g : ℤ) → among g fds ≡ true → registered (m g) ≡ false → registered (m' g) ≡ false)
    → IsFresh m fds
    → IsFresh m' fds
IsFresh-less m m' [] less f = tt
IsFresh-less m m' (fd ∷ later) less (f, fs) = (
  λ e. (less fd (rw (==ℤ_refl fd) refl) (f e).0, (f e).1),
  IsFresh-less m m' later (λ g k. less g (ground arith)) fs,
)

pub Linked-Looks : Looks Linked
Linked-Looks m w h k = record {
  owned = λ g p e. k.owned g p (index-back m h g p e);
  older = λ g p e. k.older g p (index-back m h g p e);
  bounded = k.bounded;
  fresh = IsFresh-less m (index m h).1 w.accepts (λ g k e. registered-index m h g ∙ e) k.fresh;
}

pub bounded_now :
    (reads : List (List Recv)) → IsBounded reads → received (answers_of reads).0 < int_limit
bounded_now [] b = omega arith
bounded_now (a ∷ later) b = b.0

pub IsBounded-later : (reads : List (List Recv)) → IsBounded reads → IsBounded (answers_of reads).1
IsBounded-later [] b = tt
IsBounded-later (a ∷ later) b = b.1

-- The owner of a handle is another object, or has been put in its place.
replaced :
    (w : Objects) (p q : ℕ) (o : Object) (g : ℤ)
    → (q ≡ p → Owns o g)
    → Owns (w.objects q) g
    → Owns (replace w.objects p o q) g
replaced w p q o g here there = elim (Bool-cases (q == p)) [
  | inl e ↦ rw e (here (ground arith))
  | inr e ↦ rw e there
]

module _ (m m' : Handlers) (w : Objects) (linked : Linked m w) (p : ℕ) (h : ℤ) (c : Connection)
    (found : w.objects p ≡ connection c) (mine : m h ≡ some (some p)) where
  pub owner :
      (g : ℤ) (q : ℕ) → q ≡ p → Owns (w.objects q) g → (c.handle ≡ g) × (is_positive g ≡ true)
  owner g q e k = subst (λ o. Owns o g) (ap w.objects e ∙ found) k

  pub owned_still :
      (c' : Connection)
      → c'.handle ≡ c.handle
      → ((g : ℤ) → m' g ≡ m g)
      → (g : ℤ) (q : ℕ) → m' g ≡ some (some q)
      → Owns (replace w.objects p (connection c') q) g
  owned_still c' e same g q k =
      let old = linked.owned g q (sym (same g) ∙ k) in
      replaced w p q (connection c') g (λ r. (e ∙ (owner g q r old).0, (owner g q r old).1)) old

  pub owned_less :
      ((g : ℤ) → m' g ≡ (if g ==ℤ h then none else m g))
      → (g : ℤ) (q : ℕ) → m' g ≡ some (some q)
      → Owns (replace w.objects p deleted q) g
  owned_less gone g q k = elim (Bool-cases (g ==ℤ h)) [
    | inl e ↦ let empty : m' g ≡ none = gone g ∙ rw e refl in cc (k, empty)
    | inr e ↦
        let same : m' g ≡ m g = gone g ∙ rw e refl in
        let old = linked.owned g q (sym same ∙ k) in
        replaced w p q deleted g
          (λ r. cc (
            e,
            (==ℤ_iff g h).1 (sym (owner g q r old).0 ∙ (owner h p refl (linked.owned h p mine)).0),
          ))
          old
  ]

  -- The map is the same, or one handle is taken out: what else the objects rely on stays.
  pub fresh_still : ((g : ℤ) → m' g ≡ m g) → IsFresh m' w.accepts
  fresh_still same = IsFresh-less m m' w.accepts (λ g k e. ap registered (same g) ∙ e) linked.fresh

  pub fresh_less : ((g : ℤ) → m' g ≡ (if g ==ℤ h then none else m g)) → IsFresh m' w.accepts
  fresh_less gone = IsFresh-less m m' w.accepts (λ g k e. ground (arith, gone g)) linked.fresh

  pub older_still : ((g : ℤ) → m' g ≡ m g) → (g : ℤ) (q : ℕ) → m' g ≡ some (some q) → q < w.next
  older_still same g q k = linked.older g q (sym (same g) ∙ k)

  pub older_less :
      ((g : ℤ) → m' g ≡ (if g ==ℤ h then none else m g))
      → (g : ℤ) (q : ℕ) → m' g ≡ some (some q)
      → q < w.next
  older_less gone g q k = elim (Bool-cases (g ==ℤ h)) [
    | inl e ↦ let empty : m' g ≡ none = gone g ∙ rw e refl in cc (k, empty)
    | inr e ↦ let same : m' g ≡ m g = gone g ∙ rw e refl in linked.older g q (sym same ∙ k)
  ]
