-- ===== src/Base/Int.antt =====
-- The C type `int`, as integers over the native numbers; `negsuc n` is -(n + 1).
use Prim.Native.Nat.{ℕ, ◌+◌, ◌-◌, ◌%◌, ◌<◌, compare, Ordering}
use mathlib.Core.Path.{◌≡◌}
use mathlib.Core.Logic.{◌↔◌}
use mathlib.Core.Bool.{Bool, true, false}
use native.Mathlib.Omega.{arith}
use libolptnet.Base.Faults.{Outcome, ok, fault, overflow}
use libolptnet.Base.Tests.{ltb, leb, if◌then◌else◌}

pub data ℤ : Type 0 where
  pos : ℕ → ℤ
  negsuc : ℕ → ℤ

same : ℕ → ℕ → Bool
same a b = elim (compare a b) [ Ordering.eq ↦ true | _ ↦ false ]

-- The comparison of two handles, shut: proofs use `==ℤ_iff`.
infix 50 ◌==ℤ◌
unfoldable pub ◌==ℤ◌ : ℤ → ℤ → Bool
unfolding same
pos a ==ℤ pos b = same a b
pos a ==ℤ negsuc b = false
negsuc a ==ℤ pos b = false
negsuc a ==ℤ negsuc b = same a b

pub ==ℤ_iff : (a b : ℤ) → ((a ==ℤ b) ≡ true) ↔ (a ≡ b)
unfolding ◌==ℤ◌
==ℤ_iff a b = ground arith

pub ==ℤ_refl : (a : ℤ) → (a ==ℤ a) ≡ true
unfolding ◌==ℤ◌
==ℤ_refl a = ground arith

-- `x > 0`, `x >= 0`.
abbrev pub is_positive : ℤ → Bool
is_positive (pos n) = elim n [ ℕ.zero ↦ false | ℕ.suc _ ↦ true ]
is_positive (negsuc _) = false

abbrev pub is_nonneg : ℤ → Bool
is_nonneg (pos _) = true
is_nonneg (negsuc _) = false

-- `a <= b`.
abbrev pub leb_ℤ : ℤ → ℤ → Bool
leb_ℤ (pos a) (pos b) = leb a b
leb_ℤ (pos a) (negsuc b) = false
leb_ℤ (negsuc a) (pos b) = true
leb_ℤ (negsuc a) (negsuc b) = leb b a

abbrev pub int_mod : ℕ
int_mod = 0x1_0000_0000

-- One more than INT_MAX.
abbrev pub int_limit : ℕ
int_limit = 0x8000_0000

-- The conversion `(int) n` of an unsigned number, modulo 2 ^ 32.
unfoldable pub as_int : ℕ → ℤ
as_int n =
    let low = n % int_mod in if ltb low int_limit then pos low else negsuc (int_mod - 1 - low)

pub as_int_small : (n : ℕ) → n < int_limit → as_int n ≡ pos n
unfolding as_int
as_int_small n h = ground arith

-- `a + b` of two `int`s that are not negative.
unfoldable pub add_int : ℕ → ℕ → Outcome ℕ
add_int a b = if ltb (a + b) int_limit then ok (a + b) else fault overflow

pub add_int_small : (a b : ℕ) → a + b < int_limit → add_int a b ≡ ok (a + b)
unfolding add_int
add_int_small a b h = ground arith
