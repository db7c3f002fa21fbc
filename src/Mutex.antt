-- ===== src/Mutex.antt =====
-- src/base/mutex_lock.h: `MutexLock`, `MutexLockGuard` and `ConditionVar`. The calls of <pthread.h> are parameters, on
-- the state of a mutex and of a condition variable.
pub mod Guards
use libolptnet.Base.{
  ℤ, pos, ◌==ℤ◌, assertion, Outcome, ok, fault, ◌>>=◌, ◌>>◌, ◌==◌, if◌then◌else◌, not,
}

-- Every call returns an error number, 0 for none; `lock` and `wait` may also block for ever.
pub record Pthread (M C : Type 0) : Type 0 where
  pub mutex_init : M → ℤ × M
  pub mutex_destroy : M → ℤ × M
  pub mutex_lock : M → Outcome (ℤ × M)
  pub mutex_unlock : M → ℤ × M
  pub cond_init : C → ℤ × C
  pub cond_destroy : C → ℤ × C
  pub cond_wait : C × M → Outcome (ℤ × (C × M))
  pub cond_signal : C → ℤ × C
  pub cond_broadcast : C → ℤ × C

-- The macro `CHECK`. It aborts, which is the same fault as a failed `assert`.
abbrev pub check : {A : Type 0} → ℤ × A → Outcome A
check (rc, a) = if not (rc ==ℤ pos 0) then fault assertion else ok a

module _ {M C : Type 0} (pthread : Pthread M C) where
  open pthread use {
    mutex_init, mutex_destroy, mutex_lock, mutex_unlock, cond_init, cond_destroy, cond_wait,
    cond_signal, cond_broadcast,
  }

  -- The constructor and the destructor of `MutexLock`.
  unfoldable pub create_mutex : M → Outcome M
  create_mutex m = check (mutex_init m)

  unfoldable pub destroy_mutex : M → Outcome M
  destroy_mutex m = check (mutex_destroy m)

  unfoldable pub lock : M → Outcome M
  lock m = mutex_lock m >>= check

  unfoldable pub unlock : M → Outcome M
  unlock m = check (mutex_unlock m)

  -- A block that begins with `MutexLockGuard lock(mutex)`: the guard's constructor, the rest of the block on what the
  -- mutex protects, and the guard's destructor.
  unfoldable pub guarded : {S A : Type 0} → (S → Outcome (A × S)) → M × S → Outcome (A × (M × S))
  unfolding lock unlock
  guarded body (m, s) = do m1 ← lock m; (a, s') ← body s; m2 ← unlock m1; ok (a, (m2, s'))

  -- `ConditionVar`.
  unfoldable pub create_cond : C → Outcome C
  create_cond c = check (cond_init c)

  unfoldable pub destroy_cond : C → Outcome C
  destroy_cond c = check (cond_destroy c)

  unfoldable pub wait : C × M → Outcome (C × M)
  wait s = cond_wait s >>= check

  unfoldable pub notify : C → Outcome C
  notify c = check (cond_signal c)

  unfoldable pub notify_all : C → Outcome C
  notify_all c = check (cond_broadcast c)
