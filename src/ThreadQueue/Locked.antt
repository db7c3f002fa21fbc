-- ===== src/ThreadQueue/Locked.antt =====
-- The functions of src/base/thread_queue.h as they are written: each runs in a block that a `MutexLockGuard` of
-- src/base/mutex_lock.h protects.
use libolptnet.Base.{Outcome, ok, ◌>>=◌, ◌≡◌, refl, true, Option, none, some, List, [], ◌∷◌}
use libolptnet.Mutex.{Pthread, guarded}
use libolptnet.Mutex.Guards.{MutexLaws, guarded_lem}
use libolptnet.ThreadQueue.{push, pop, size}
use libolptnet.ThreadQueue.Threads.{
  Call, push_call, pop_call, size_call, Reply, pushed, popped, nothing, sized,
}

module _ {T : Type 0} where
  -- `pop` without the lock: its value, and `t`.
  abbrev pub pop_reply : List T → Option (T × List T) → Reply T × List T
  pop_reply tasks none = (nothing, tasks)
  pop_reply tasks (some (t, rest)) = (popped t, rest)

  -- What a call does to the deque.
  pub plain : Call T → List T → Reply T × List T
  plain (push_call t) tasks = (pushed t, push tasks t)
  plain pop_call tasks = pop_reply tasks (pop tasks)
  plain size_call tasks = (sized (size tasks), tasks)

  -- Calls one after the other, the replies in order.
  pub plain_calls : List (Call T) → List T → List (Reply T) × List T
  unfolding plain
  plain_calls [] tasks = ([], tasks)
  plain_calls (c ∷ cs) tasks =
      let (r, tasks1) = plain c tasks in
      let (rs, tasks2) = plain_calls cs tasks1 in (r ∷ rs, tasks2)

module _ {M C T : Type 0} (pthread : Pthread M C) where
  pub locked : Call T → M × List T → Outcome (Reply T × (M × List T))
  locked c s = guarded pthread (λ tasks. ok (plain c tasks)) s

  pub locked_calls : List (Call T) → M × List T → Outcome (List (Reply T) × (M × List T))
  locked_calls [] s = ok ([], s)
  locked_calls (c ∷ cs) s = locked c s >>= λ r. locked_calls cs r.1 >>= λ q. ok (r.0 ∷ q.0, q.1)

module _ {M C T : Type 0} (pthread : Pthread M C) (laws : MutexLaws pthread) where
  -- With a mutex of the documented behaviour that is free, any sequence of calls of the queue in
  -- one thread, each in the scope of a `MutexLockGuard`, returns, with the replies and the deque
  -- that the same operations have without the mutex, and the mutex is free again.
  pub locked_calls_lem :
      (cs : List (Call T)) (m : M) (tasks : List T)
      → laws.is_free m ≡ true
      → (m' : M) × (laws.is_free m' ≡ true)
        × (locked_calls pthread cs (m, tasks)
            ≡ ok ((plain_calls cs tasks).0, (m', (plain_calls cs tasks).1)))
  unfolding locked_calls locked plain_calls
  locked_calls_lem [] m tasks f = (m, f, refl)
  locked_calls_lem (c ∷ cs) m tasks f =
      let (m1, f1, e1) = guarded_lem pthread laws (λ q. ok (plain c q)) m tasks f in
      let (m2, f2, e2) = locked_calls_lem cs m1 (plain c tasks).1 f1 in (m2, f2, rw e1 (rw e2 refl))
