-- ===== src/Base/Faults.antt =====
-- How a call can end besides returning: a failed `assert` or `CHECK` (the Makefile defines no
-- NDEBUG, so it aborts the process), a null pointer that is dereferenced, a signed overflow, an
-- access beyond a fixed-size array, or a
-- system call that does not come back.
use mathlib.Core.Path.{◌≡◌, refl}
use libolptnet.Base.Tests.{if◌then◌else◌}
use mathlib.Core.Bool.{Bool, true, false}

pub data Fault : Type 0 where
  assertion null_pointer overflow out_of_bounds blocked : Fault

pub data Outcome {ℓ} (A : Type ℓ) : Type ℓ where
  ok : A → Outcome A
  fault : Fault → Outcome A

infixl 5 ◌>>=◌ ◌>>◌
abbrev pub ◌>>=◌ {ℓ κ} : {A : Type ℓ} {B : Type κ} → Outcome A → (A → Outcome B) → Outcome B
ok a >>= f = f a
fault e >>= f = fault e

abbrev pub ◌>>◌ {ℓ} : {B : Type ℓ} → Outcome (Unit {0}) → Outcome B → Outcome B
m >> k = m >>= λ _. k

abbrev pub assert : Bool → Outcome (Unit {0})
assert true = ok tt
assert false = fault assertion

-- A postcondition of a call that must return.
abbrev pub Returns {ℓ} : {A : Type ℓ} → (A → Type 0) → Outcome A → Type 0
Returns P (ok a) = P a
Returns P (fault e) = ⊥

-- Rules for the calls of a `do` block.
module _ {ℓ} {B : Type ℓ} (P : B → Type 0) where
  pub Returns-assert :
      (b : Bool) (m : Outcome B) → b ≡ true → Returns P m → Returns P (assert b >> m)
  Returns-assert true m e h = h
  Returns-assert false m e h = cc

  pub Returns->>= {κ} :
      {A : Type κ} (Q : A → Type 0) (m : Outcome A) (f : A → Outcome B)
      → Returns Q m
      → ((a : A) → Q a → Returns P (f a))
      → Returns P (m >>= f)
  Returns->>= Q (ok a) f h k = k a h
  Returns->>= Q (fault e) f h k = absurd h

  -- The same, where the rest needs to know what the first call has returned.
  pub Returns->>=_eq {κ} :
      {A : Type κ} (Q : A → Type 0) (m : Outcome A) (f : A → Outcome B)
      → Returns Q m
      → ((a : A) → m ≡ ok a → Q a → Returns P (f a))
      → Returns P (m >>= f)
  Returns->>=_eq Q (ok a) f h k = k a refl h
  Returns->>=_eq Q (fault e) f h k = absurd h

  pub Returns-if :
      (b : Bool) (x y : Outcome B)
      → (b ≡ true → Returns P x)
      → (b ≡ false → Returns P y)
      → Returns P (if b then x else y)
  Returns-if true x y h k = h refl
  Returns-if false x y h k = k refl

  pub Returns-map :
      (Q : B → Type 0) (m : Outcome B) → Returns Q m → ((b : B) → Q b → P b) → Returns P m
  Returns-map Q (ok b) h k = k b h
  Returns-map Q (fault e) h k = absurd h

  -- What is known to return is the value that it returns.
  pub Returns-eq : (m : Outcome B) → Returns P m → (b : B) × (m ≡ ok b) × P b
  Returns-eq (ok b) h = (b, refl, h)
  Returns-eq (fault e) h = absurd h

-- A call that returns a good value, or does not come back; it ends in no other way.
abbrev pub Safe {ℓ} : {A : Type ℓ} → (A → Type 0) → Outcome A → Type 0
Safe P (ok a) = P a
Safe P (fault blocked) = Unit {0}
Safe P (fault assertion) = ⊥
Safe P (fault null_pointer) = ⊥
Safe P (fault overflow) = ⊥
Safe P (fault out_of_bounds) = ⊥

module _ {ℓ} {B : Type ℓ} (P : B → Type 0) where
  pub Safe->>= {κ} :
      {A : Type κ} (Q : A → Type 0) (m : Outcome A) (f : A → Outcome B)
      → Safe Q m
      → ((a : A) → Q a → Safe P (f a))
      → Safe P (m >>= f)
  Safe->>= Q (ok a) f h k = k a h
  Safe->>= Q (fault blocked) f h k = tt
  Safe->>= Q (fault assertion) f h k = absurd h
  Safe->>= Q (fault null_pointer) f h k = absurd h
  Safe->>= Q (fault overflow) f h k = absurd h
  Safe->>= Q (fault out_of_bounds) f h k = absurd h

  pub Safe-if :
      (b : Bool) (x y : Outcome B)
      → (b ≡ true → Safe P x)
      → (b ≡ false → Safe P y)
      → Safe P (if b then x else y)
  Safe-if true x y h k = h refl
  Safe-if false x y h k = k refl

pub >>=-ok {ℓ} : {A : Type ℓ} (m : Outcome A) → (m >>= λ a. ok a) ≡ m
>>=-ok (ok a) = refl
>>=-ok (fault e) = refl

pub >>=_assoc {ℓ κ ι} :
    {A : Type ℓ} {B : Type κ} {C : Type ι} (m : Outcome A) (f : A → Outcome B) (g : B → Outcome C)
    → (m >>= f >>= g) ≡ (m >>= λ a. f a >>= g)
>>=_assoc (ok a) f g = refl
>>=_assoc (fault e) f g = refl

-- A call that ends well; it has to come back if `must`.
abbrev pub Ends {ℓ} : Bool → {A : Type ℓ} → (A → Type 0) → Outcome A → Type 0
Ends true P m = Returns P m
Ends false P m = Safe P m

module _ {ℓ} {B : Type ℓ} (P : B → Type 0) where
  pub Returns-Safe : (m : Outcome B) → Returns P m → Safe P m
  Returns-Safe (ok b) h = h
  Returns-Safe (fault e) h = absurd h

  pub Returns-Ends : (must : Bool) (m : Outcome B) → Returns P m → Ends must P m
  Returns-Ends true m h = h
  Returns-Ends false m h = Returns-Safe m h

  pub Ends->>= {κ} :
      {A : Type κ} (must : Bool) (Q : A → Type 0) (m : Outcome A) (f : A → Outcome B)
      → Ends must Q m
      → ((a : A) → Q a → Ends must P (f a))
      → Ends must P (m >>= f)
  Ends->>= true Q m f h k = Returns->>= P Q m f h k
  Ends->>= false Q m f h k = Safe->>= P Q m f h k

  pub Ends-if :
      (must : Bool) (b : Bool) (x y : Outcome B)
      → (b ≡ true → Ends must P x)
      → (b ≡ false → Ends must P y)
      → Ends must P (if b then x else y)
  Ends-if must true x y h k = h refl
  Ends-if must false x y h k = k refl

  pub Ends-map :
      (must : Bool) (Q : B → Type 0) (m : Outcome B)
      → Ends must Q m
      → ((b : B) → Q b → P b)
      → Ends must P m
  Ends-map true Q m h k = Returns-map P Q m h k
  Ends-map false Q (ok b) h k = k b h
  Ends-map false Q (fault assertion) h k = h
  Ends-map false Q (fault null_pointer) h k = h
  Ends-map false Q (fault overflow) h k = h
  Ends-map false Q (fault out_of_bounds) h k = h
  Ends-map false Q (fault blocked) h k = h

  pub Returns-both :
      (Q : B → Type 0) (m : Outcome B) → Returns P m → Returns Q m → Returns (λ b. P b × Q b) m
  Returns-both Q (ok b) h k = (h, k)
  Returns-both Q (fault e) h k = absurd h
