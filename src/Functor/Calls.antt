-- ===== src/Functor/Calls.antt =====
-- What a functor of src/base/functor.h calls, and what it leaves on the heap.
use libolptnet.Base.{ℕ, ◌<◌, ok, ◌>>=◌, Returns, ◌≡◌, ◌≢◌, refl, true, false, none, some, arith}
use libolptnet.Functor.{
  FunctionImpl, allocate, clone, Heap, allocate, from_proc, bind_proc, bind_method, copy, assign,
  destroy, invoke, invoke_with, bind_method_default,
}

module _ {O A R : Type 0} where
  -- A bound function or method, called with no argument, returns what it returns for the bound one;
  -- so does a copy of it after the original has been destroyed.
  pub copy_invokes :
      (proc : A → R) (method : O → A → R) (obj : O) (arg : A) (h : Heap O A R)
      → let (f, h1) = bind_proc proc arg h in
        let (g, h2) = bind_method method obj arg h in
        (invoke h1 f ≡ ok (proc arg))
        × (invoke h2 g ≡ ok (method obj arg))
        × ((copy f h1 >>= λ r. invoke (destroy f r.1) r.0) ≡ ok (proc arg))
        × ((copy g h2 >>= λ r. invoke (destroy g r.1) r.0) ≡ ok (method obj arg))
  unfolding bind_proc bind_method invoke copy destroy
  copy_invokes proc method obj arg h = (ground arith, ground arith, ground arith, ground arith)

  -- A functor constructed from a function and an argument, called with no argument, returns what
  -- the function returns for the default value of the argument's type.
  pub from_proc_forgets :
      (proc : A → R) (arg fallback : A) (h : Heap O A R)
      → let (f, h') = from_proc proc arg fallback h in invoke h' f ≡ ok (proc fallback)
  unfolding from_proc invoke
  from_proc_forgets proc arg fallback h = ground arith

  -- Called with an argument, a functor passes that argument, whatever it was bound to, and so does a
  -- copy of it; a method bound without an argument gets the default value when there is none.
  invoke_with_ignores :
      (proc : A → R) (method : O → A → R) (obj : O) (stored arg fallback : A) (h : Heap O A R)
      → let (f, h1) = bind_proc proc stored h in
        let (g, h2) = bind_method method obj stored h in
        let (d, h3) = bind_method_default method obj fallback h in
        (invoke_with h1 f arg ≡ ok (proc arg))
        × (invoke_with h2 g arg ≡ ok (method obj arg))
        × ((copy g h2 >>= λ r. invoke_with r.1 r.0 arg) ≡ ok (method obj arg))
        × (invoke h3 d ≡ ok (method obj fallback))
  unfolding bind_proc bind_method bind_method_default invoke invoke_with copy
  invoke_with_ignores proc method obj stored arg fallback h =
      (ground arith, ground arith, ground arith, ground arith)

  -- Where two functor objects own implementations that are alive, the left one's below the next
  -- free address, an assignment of the one to the other returns, the left side points to another
  -- implementation than before, and its old one is still alive when the left side has been
  -- destroyed; an assignment of the left one to itself changes nothing, and its implementation is
  -- gone when it has been destroyed.
  pub assign_leaks :
      (this_fun fun : ℕ) (mine theirs : FunctionImpl O A R) (h : Heap O A R)
      → this_fun < h.next
      → h.cell this_fun ≡ some mine
      → h.cell fun ≡ some theirs
      → Returns
          (λ r. (r.0 ≢ this_fun) × ((destroy r.0 r.1).cell this_fun ≡ some mine))
          (assign false this_fun fun h)
        × Returns
            (λ r. (r.0 ≡ this_fun) × (r.1 ≡ h) × ((destroy r.0 r.1).cell this_fun ≡ none))
            (assign true this_fun this_fun h)
  unfolding assign destroy clone
  assign_leaks this_fun fun mine theirs h below alive other =
      (rw (other, Returns) (assigned theirs), (refl, refl, ground arith))
    where
      assigned :
          (impl : FunctionImpl O A R)
          → Returns
              (λ r. (r.0 ≢ this_fun) × ((destroy r.0 r.1).cell this_fun ≡ some mine))
              (ok (allocate (clone impl) h))
      assigned impl = (omega arith, ground arith)
