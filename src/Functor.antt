-- ===== src/Functor.antt =====
-- src/base/functor.h: functors with a stored argument, over an explicit heap, since `function` owns
-- the object that it points to.
pub mod Calls
use libolptnet.Base.{
  ℕ, suc, null_pointer, Outcome, ok, fault, ◌==◌, if◌then◌else◌, Bool, Option, none, some,
}

-- `function_impl_normal`, and `function_impl_class` with its object.
pub data FunctionImpl (O A R : Type 0) : Type 0 where
  impl_normal : (A → R) → A → FunctionImpl O A R
  impl_class : O → (O → A → R) → A → FunctionImpl O A R

module _ {O A R : Type 0} where
  -- `operator() (arg)`.
  unfoldable pub call_with : FunctionImpl O A R → A → R
  call_with (impl_normal proc stored) arg = proc arg
  call_with (impl_class obj proc stored) arg = proc obj arg

  -- `operator() ()`.
  pub call_stored : FunctionImpl O A R → R
  call_stored (impl_normal proc stored) = proc stored
  call_stored (impl_class obj proc stored) = proc obj stored

  pub clone : FunctionImpl O A R → FunctionImpl O A R
  clone (impl_normal proc stored) = impl_normal proc stored
  clone (impl_class obj proc stored) = impl_class obj proc stored

-- The objects that are alive, by address; addresses from `next` on are free.
pub record Heap (O A R : Type 0) : Type 0 where
  pub next : ℕ
  pub cell : ℕ → Option (FunctionImpl O A R)

module _ {O A R : Type 0} where
  -- `new`.
  abbrev pub allocate : FunctionImpl O A R → Heap O A R → ℕ × Heap O A R
  allocate impl h = (
    h.next,
    record { next = suc h.next; cell = λ p. if p == h.next then some impl else h.cell p },
  )

  -- `fun_->`, where the object is alive.
  abbrev pub deref : {B : Type 0} → Heap O A R → ℕ → (FunctionImpl O A R → B) → Outcome B
  deref h fun f = elim (h.cell fun) [ none ↦ fault null_pointer | some impl ↦ ok (f impl) ]

  -- `function(NORM_PROC proc, arg_type arg)`; `fallback` is `arg_type()`, which the object gets.
  pub from_proc : (A → R) → A → A → Heap O A R → ℕ × Heap O A R
  from_proc proc arg fallback = allocate (impl_normal proc fallback)

  -- `bind(proc, arg)` and `bind(proc, pc, arg)`.
  pub bind_proc : (A → R) → A → Heap O A R → ℕ × Heap O A R
  bind_proc proc arg = allocate (impl_normal proc arg)

  pub bind_method : (O → A → R) → O → A → Heap O A R → ℕ × Heap O A R
  bind_method proc obj arg = allocate (impl_class obj proc arg)

  -- `bind(proc, pc)`, where the object gets `arg_type()`.
  pub bind_method_default : (O → A → R) → O → A → Heap O A R → ℕ × Heap O A R
  bind_method_default proc obj fallback = allocate (impl_class obj proc fallback)

  -- The copy constructor.
  pub copy : ℕ → Heap O A R → Outcome (ℕ × Heap O A R)
  unfolding clone
  copy fun h = deref h fun (λ impl. allocate (clone impl) h)

  -- `operator=`: the new value of `fun_`. The old one is not deleted.
  pub assign : Bool → ℕ → ℕ → Heap O A R → Outcome (ℕ × Heap O A R)
  unfolding clone
  assign same_object this_fun fun h =
      if same_object then ok (this_fun, h) else deref h fun (λ impl. allocate (clone impl) h)

  -- The destructor.
  pub destroy : ℕ → Heap O A R → Heap O A R
  destroy fun h = record h { cell = λ p. if p == fun then none else h.cell p }

  -- `function::operator() ()`.
  pub invoke : Heap O A R → ℕ → Outcome R
  unfolding call_stored
  invoke h fun = deref h fun call_stored

  -- `function::operator() (arg)`.
  pub invoke_with : Heap O A R → ℕ → A → Outcome R
  unfolding call_with
  invoke_with h fun arg = deref h fun (λ impl. call_with impl arg)
