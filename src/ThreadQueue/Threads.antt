-- ===== src/ThreadQueue/Threads.antt =====
-- src/base/thread_queue.h as its threads run it: the lock and the unlock of `MutexLockGuard`
-- (src/base/mutex_lock.h) and each access to the deque are steps of their own.
use libolptnet.Base.{
  ℕ, ℤ, drop, is_empty, ◌==◌, if◌then◌else◌, ◌≡◌, true, false, Option, none, some, List, [], ◌∷◌,
}
use libolptnet.ThreadQueue.{push, size}

-- A call of the queue, and what it returns.
pub data Call (T : Type 0) : Type 0 where
  push_call : T → Call T
  pop_call size_call : Call T

pub data Reply (T : Type 0) : Type 0 where
  pushed : T → Reply T
  popped : T → Reply T
  nothing : Reply T
  sized : ℤ → Reply T

-- Where a thread stands: outside, before the lock, behind it, behind the test that `pop` makes, behind
-- `t = tasks_list_.front()`, or before the unlock. In `broken` it has read an empty deque.
pub data Pc (T : Type 0) : Type 0 where
  idle : Pc T
  entering : Call T → Pc T
  inside : Call T → Pc T
  tested : Pc T
  copied : T → Pc T
  leaving : Reply T → Pc T
  broken : Pc T

-- `tasks_list_`, who holds `tasks_mutex_`, and what the calls have done so far, the last one first.
pub record Shared (T : Type 0) : Type 0 where
  pub tasks : List T
  pub owner : Option ℕ
  pub history : List (Reply T)

module _ {T : Type 0} where
  abbrev pub done : Shared T → Reply T → Shared T
  done m r = record m { history = r ∷ m.history }

  -- One step of thread `i`.
  pub data Move (i : ℕ) (m : Shared T) : Pc T → Shared T → Pc T → Type 0 where
    call : (c : Call T) → Move i m idle m (entering c)
    lock :
        {c : Call T}
        → m.owner ≡ none
        → Move i m (entering c) (record m { owner = some i }) (inside c)
    push_back :
        {t : T} {m' : Shared T}
        → m' ≡ done (record m { tasks = push m.tasks t }) (pushed t)
        → Move i m (inside (push_call t)) m' (leaving (pushed t))
    see_some : is_empty m.tasks ≡ false → Move i m (inside pop_call) m tested
    see_none :
        {m' : Shared T}
        → is_empty m.tasks ≡ true
        → m' ≡ done m nothing
        → Move i m (inside pop_call) m' (leaving nothing)
    front : {t : T} (rest : List T) → m.tasks ≡ t ∷ rest → Move i m tested m (copied t)
    front_of_none : m.tasks ≡ [] → Move i m tested m broken
    pop_front :
        {t : T} {m' : Shared T}
        → m' ≡ done (record m { tasks = drop 1 m.tasks }) (popped t)
        → Move i m (copied t) m' (leaving (popped t))
    count :
        {n : ℤ} {m' : Shared T}
        → n ≡ size m.tasks
        → m' ≡ done m (sized n)
        → Move i m (inside size_call) m' (leaving (sized n))
    unlock : {r : Reply T} → Move i m (leaving r) (record m { owner = none }) idle

  abbrev pub update : (ℕ → Pc T) → ℕ → Pc T → ℕ → Pc T
  update pc i p j = if i == j then p else pc j

module _ (T : Type 0) where
  pub record System : Type 0 where
    pub mem : Shared T
    pub pc : ℕ → Pc T

  pub data Step (s : System) : System → Type 0 where
    pick :
        (i : ℕ) {m : Shared T} {p : Pc T}
        → Move i s.mem (s.pc i) m p
        → Step s (record { mem = m; pc = update s.pc i p })

  -- A new queue, and threads that have not called it.
  abbrev pub start : System
  start = record { mem = record { tasks = []; owner = none; history = [] }; pc = λ _. idle }

  pub data Reach : System → Type 0 where
    here : Reach start
    later : {s t : System} → Reach s → Step s t → Reach t
