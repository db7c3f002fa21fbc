-- ===== src/Dispatcher/Laws.antt =====
-- What `ServiceLoop` relies on in a dispatcher (src/net/event_dispatcher.h): which handles it
-- watches, and which of them for reading and for writing.
use libolptnet.Base.{ℤ, ◌==ℤ◌, Outcome, ok, fault, Returns, if◌then◌else◌, ◌≡◌, Bool, true, false}
use libolptnet.Dispatcher.Base.{Ops}

-- `reads_beside w` is whether a handle that is asked for reading, and for writing exactly if `w`, is
-- watched for reading.
pub record View : Type 0 where
  pub watches : ℤ → Bool
  pub reads : ℤ → Bool
  pub reads_beside : Bool → Bool
  pub writes : ℤ → Bool

-- Both views have the same handles and interests.
pub record Kept (v v' : View) : Type 0 where
  pub same_watches : (g : ℤ) → v'.watches g ≡ v.watches g
  pub same_reads : (g : ℤ) → v'.reads g ≡ v.reads g
  pub same_writes : (g : ℤ) → v'.writes g ≡ v.writes g

-- `h` is watched from now on, for reading where the dispatcher can do that beside `w`, and for
-- writing exactly if `w`; nothing changes for the others.
pub record Set (h : ℤ) (w : Bool) (v v' : View) : Type 0 where
  pub set_watches : (g : ℤ) → v'.watches g ≡ (if g ==ℤ h then true else v.watches g)
  pub set_reads : (g : ℤ) → v'.reads g ≡ (if g ==ℤ h then v.reads_beside w else v.reads g)
  pub set_writes : (g : ℤ) → v'.writes g ≡ (if g ==ℤ h then w else v.writes g)

-- `h` is no longer watched; nothing changes for the others.
pub record Unset (h : ℤ) (v v' : View) : Type 0 where
  pub unset_watches : (g : ℤ) → v'.watches g ≡ (if g ==ℤ h then false else v.watches g)
  pub unset_reads : (g : ℤ) → (g ==ℤ h) ≡ false → v'.reads g ≡ v.reads g
  pub unset_writes : (g : ℤ) → (g ==ℤ h) ≡ false → v'.writes g ≡ v.writes g

-- A call that returns `true` has an effect, and one that returns `false` has none.
abbrev pub Either : Bool → Type 0 → Type 0 → Type 0
Either true P Q = P
Either false P Q = Q

-- A call that cannot be refused: it returns `true`, the state is valid, and it has its effect.
module _ {D : Type 0} (IsValid : D → Type 0) (view : D → View) (Effect : View → View → Type 0)
    (d : D) where
  abbrev pub Sure : Bool × D → Type 0
  Sure r = (r.0 ≡ true) × IsValid r.1 × Effect (view d) (view r.1)

  pub Sure-Either :
      (m : Outcome (Bool × D))
      → Returns Sure m
      → Returns
          (λ r. IsValid r.1 × Either r.0 (Effect (view d) (view r.1)) (Kept (view d) (view r.1)))
          m
  Sure-Either (ok (true, d')) h = (h.1, h.2)
  Sure-Either (ok (false, d')) h = cc
  Sure-Either (fault e) h = absurd h

-- `HasRoom d h`: the dispatcher's counters and sets can take the handle.
pub record Laws {D R A : Type 0} (ops : Ops D R A) : Type 1 where
  pub IsValid : D → Type 0
  pub HasRoom : D → ℤ → Type 0
  pub view : D → View
  pub add_lem :
      (d : D) (h : ℤ) (w : Bool)
      → IsValid d
      → HasRoom d h
      → (view d).watches h ≡ false
      → Returns
          (λ r. IsValid r.1 × Either r.0 (Set h w (view d) (view r.1)) (Kept (view d) (view r.1)))
          (ops.add_event d h true w)
  pub mod_lem :
      (d : D) (h : ℤ) (w : Bool)
      → IsValid d
      → (view d).watches h ≡ true
      → Returns
          (λ r. IsValid r.1 × Either r.0 (Set h w (view d) (view r.1)) (Kept (view d) (view r.1)))
          (ops.mod_event d h true w)
  pub del_lem :
      (d : D) (h : ℤ)
      → IsValid d
      → HasRoom d h
      → Returns
          (λ r. IsValid r.1 × Either r.0 (Unset h (view d) (view r.1)) (Kept (view d) (view r.1)))
          (ops.del_event d h)
  pub wait_lem :
      (d : D) (ask : R → A) (timeout_ms : ℤ)
      → IsValid d
      → let d' = (ops.handle_events d ask timeout_ms).2 in IsValid d' × Kept (view d) (view d')

-- What `add_event` and `mod_event` promise of their result, and what `del_event` does.
module _ {D R A : Type 0} {ops : Ops D R A} (laws : Laws ops) (d : D) (h : ℤ) where
  abbrev pub SetResult : Bool → Bool × D → Type 0
  SetResult w r =
      laws.IsValid r.1
      × Either r.0 (Set h w (laws.view d) (laws.view r.1)) (Kept (laws.view d) (laws.view r.1))

  abbrev pub UnsetResult : Bool × D → Type 0
  UnsetResult r =
      laws.IsValid r.1
      × Either r.0 (Unset h (laws.view d) (laws.view r.1)) (Kept (laws.view d) (laws.view r.1))
