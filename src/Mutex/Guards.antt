-- ===== src/Mutex/Guards.antt =====
-- What `MutexLockGuard` of src/base/mutex_lock.h gives, over a mutex of the default kind.
use libolptnet.Base.{
  ℤ, pos, ==ℤ_refl, blocked, Outcome, ok, fault, ◌>>=◌, ◌≡◌, refl, ◌≢◌, Bool, true, false,
}
use libolptnet.Mutex.{Pthread, check, lock, unlock, guarded}

-- pthread_mutex_lock(3) for one thread: a free mutex is taken, and a mutex that the thread holds already blocks it;
-- an unlock frees it. A mutex that is held cannot be destroyed.
pub record MutexLaws {M C : Type 0} (pthread : Pthread M C) : Type 0 where
  pub is_free : M → Bool
  pub inits :
      (m : M) → ((pthread.mutex_init m).0 ≡ pos 0) × (is_free (pthread.mutex_init m).1 ≡ true)
  pub takes :
      (m : M)
      → is_free m ≡ true
      → (m' : M) × (pthread.mutex_lock m ≡ ok (pos 0, m')) × (is_free m' ≡ false)
  pub blocks : (m : M) → is_free m ≡ false → pthread.mutex_lock m ≡ fault blocked
  pub frees :
      (m : M)
      → is_free m ≡ false
      → ((pthread.mutex_unlock m).0 ≡ pos 0) × (is_free (pthread.mutex_unlock m).1 ≡ true)
  pub busy : (m : M) → is_free m ≡ false → (pthread.mutex_destroy m).0 ≢ pos 0

module _ {M C : Type 0} (pthread : Pthread M C) (laws : MutexLaws pthread) where
  check_zero : {A : Type 0} (r : ℤ × A) → r.0 ≡ pos 0 → check r ≡ ok r.1
  check_zero (c, a) e = rw e (rw (==ℤ_refl (pos 0)) refl)

  lock_free :
      (m : M)
      → laws.is_free m ≡ true
      → (m' : M) × (lock pthread m ≡ ok m') × (laws.is_free m' ≡ false)
  unfolding lock
  lock_free m f =
      let (m', e, held) = laws.takes m f in (m', rw e (rw (==ℤ_refl (pos 0)) refl), held)

  unlock_held :
      (m : M)
      → laws.is_free m ≡ false
      → (m' : M) × (unlock pthread m ≡ ok m') × (laws.is_free m' ≡ true)
  unfolding unlock
  unlock_held m f =
      let (z, free) = laws.frees m f in
      ((pthread.mutex_unlock m).1, check_zero (pthread.mutex_unlock m) z, free)

  -- Over a free mutex, a block behind a `MutexLockGuard` does what it does without it, and the
  -- mutex is free again if it returns.
  pub guarded_lem :
      {S A : Type 0} (body : S → Outcome (A × S)) (m : M) (s : S)
      → laws.is_free m ≡ true
      → (m' : M) × (laws.is_free m' ≡ true)
        × (guarded pthread body (m, s) ≡ (body s >>= λ r. ok (r.0, (m', r.1))))
  unfolding guarded
  guarded_lem body m s f =
      let (m1, e1, held) = lock_free m f in
      let (m2, e2, free) = unlock_held m1 held in (m2, free, rw e1 (rw e2 refl))

  -- A thread that holds the mutex and enters a block behind a `MutexLockGuard` on it is blocked for
  -- ever.
  pub guarded_twice_blocks :
      {S A B : Type 0} (inner : S → Outcome (B × S)) (body : B × (M × S) → Outcome (A × (M × S)))
      (m : M) (s : S)
      → laws.is_free m ≡ true
      → (lock pthread m >>= λ m1. guarded pthread inner (m1, s) >>= body) ≡ fault blocked
  unfolding guarded lock
  guarded_twice_blocks inner body m s f =
      let (m1, e1, held) = laws.takes m f in
      rw e1 (rw (==ℤ_refl (pos 0)) (rw (laws.blocks m1 held) refl))
