-- ===== src/PosixThread.antt =====
-- src/base/posix_thread.h. The process is its helper objects, what its threads were started with, and the calls of
-- methods that have been made; a method is a pair of an object and a member function.
pub mod Balance
use libolptnet.Base.{
  ℕ, suc, ◌+◌, ℤ, pos, ◌==ℤ◌, null_pointer, Outcome, ok, fault, ◌>>=◌, ◌>>◌, ◌==◌, if◌then◌else◌,
  Bool, true, false, not, Option, none, some, List, [], ◌∷◌, ◌++◌,
}

-- `ThreadHelper<T>`: `obj_` and `mf_`.
pub record ThreadHelper (O F : Type 0) : Type 0 where
  pub obj : O
  pub mf : F

-- `helpers` are the objects that `new` has made and `delete` has not destroyed yet, by their pointer, and `next`
-- is what `new` returns next. `starting` are the parameters of the threads that have not run `thread_function`.
pub record Process (O F : Type 0) : Type 0 where
  pub helpers : List (ℕ × ThreadHelper O F)
  pub next : ℕ
  pub starting : List ℕ
  pub calls : List (ThreadHelper O F)

-- The first entry of a pointer is taken out.
pub remove : ℕ → List ℕ → List ℕ
remove p [] = []
remove p (q ∷ qs) = if p == q then qs else q ∷ remove p qs

-- A thread is created, or one that was created begins to run.
pub data ThreadEvent (O F : Type 0) : Type 0 where
  creates : ThreadHelper O F → ℤ × ℤ → ThreadEvent O F
  begins : ℕ → ThreadEvent O F

abbrev pub has : ℕ → List ℕ → Bool
has p [] = false
has p (q ∷ qs) = if p == q then true else has p qs

module _ {O F : Type 0} where
  abbrev pub empty_process : Process O F
  empty_process = record { helpers = []; next = 1; starting = []; calls = [] }

  -- The object behind a pointer; none is one that was deleted, or never made.
  pub find : ℕ → List (ℕ × ThreadHelper O F) → Option (ThreadHelper O F)
  find p [] = none
  find p ((q, h) ∷ hs) = if p == q then some h else find p hs

  -- `delete`.
  pub delete : ℕ → List (ℕ × ThreadHelper O F) → List (ℕ × ThreadHelper O F)
  delete p [] = []
  delete p ((q, h) ∷ hs) = if p == q then hs else (q, h) ∷ delete p hs

  -- `ThreadHelper<T>::thread_create`, with the error number and the thread that `pthread_create` answers. `exit` is
  -- none.
  pub thread_create : ThreadHelper O F → ℤ × ℤ → Process O F → Option (ℤ × Process O F)
  thread_create h (rc, thread_id) s =
      if not (rc ==ℤ pos 0)
      then none
      else some (
        thread_id,
        record s {
          helpers = s.helpers ++ (s.next, h) ∷ [];
          next = suc s.next;
          starting = s.starting ++ s.next ∷ [];
        },
      )

  -- Both forms of `create_thread`; a thread that is started with a function has no helper.
  pub create_thread : ThreadHelper O F → ℤ × ℤ → Process O F → Option (ℤ × Process O F)
  unfolding thread_create
  create_thread h answer s = thread_create h answer s

  unfoldable pub create_thread_of : ℤ × ℤ → Process O F → Option (ℤ × Process O F)
  create_thread_of (rc, thread_id) s = if not (rc ==ℤ pos 0) then none else some (thread_id, s)

  -- `ThreadHelper<T>::thread_function`: what the pointer was made with is read, the helper deleted, and the method called.
  pub thread_function : ℕ → Process O F → Outcome (Process O F)
  unfolding find delete
  thread_function p s = elim (find p s.helpers) [
    | none ↦ fault null_pointer
    | some h ↦ ok (record s { helpers = delete p s.helpers; calls = s.calls ++ h ∷ [] })
  ]

  -- Only a thread that was created can begin.
  pub happen : ThreadEvent O F → Process O F → Outcome (Option (Process O F))
  unfolding create_thread thread_function remove
  happen (creates h answer) s = elim (create_thread h answer s) [
    | none ↦ ok none
    | some r ↦ ok (some r.1)
  ]
  happen (begins p) s =
      if has p s.starting
      then (thread_function p (record s { starting = remove p s.starting }) >>= λ t. ok (some t))
      else ok (some s)

  -- None once the process has exited.
  pub happen_all : List (ThreadEvent O F) → Process O F → Outcome (Option (Process O F))
  unfolding happen
  happen_all [] s = ok (some s)
  happen_all (e ∷ es) s = happen e s >>= λ o. elim o [ none ↦ ok none | some t ↦ happen_all es t ]

-- `pthread_join` is a parameter, on the state of the system; what it answers is not looked at.
unfoldable pub join_thread : {K : Type 0} → (ℤ → K → Outcome (ℤ × K)) → ℤ → K → Outcome K
join_thread pthread_join pid k = pthread_join pid k >>= λ r. ok r.1
