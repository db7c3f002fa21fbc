-- ===== src/Tests/Queues.antt =====
-- The theorems on src/base/thread_queue.h, src/base/mutex_lock.h and the stopping of src/net/service_loop_thread.cc,
-- at concrete inputs.
use libolptnet.Base.{
  ℕ, ◌-◌, pos, ◌==ℤ◌, assertion, blocked, ok, fault, if◌then◌else◌, ◌≡◌, refl, ◌≢◌, inl, Bool, true,
  false, some, [], ◌∷◌,
}
use libolptnet.ThreadQueue.{push}
use libolptnet.ThreadQueue.Threads
use libolptnet.ThreadQueue.Threads.{
  Pc, Call, push_call, pop_call, size_call, Reply, pushed, popped, nothing, sized, Shared, idle,
  broken, call, lock, push_back, unlock, System, pick, here, later, update, entering, inside,
  leaving,
}
use libolptnet.ThreadQueue.Linear.{Explains, queue_linearizable}
use libolptnet.ThreadQueue.Locked.{plain_calls, locked_calls, locked_calls_lem}
use libolptnet.Mutex.{
  Pthread, create_mutex, destroy_mutex, create_cond, destroy_cond, wait, notify, notify_all,
}
use libolptnet.Mutex.Guards.{MutexLaws}
use libolptnet.LoopThread.Stopping
use libolptnet.LoopThread.Stopping.{
  waking, Pair, Quitter, Runner, writing, joining, waiting, ended, begin, set_quit, read_wakeup,
  go_on, start, quits, runs, Runs, touches,
}
use libolptnet.LoopThread.Races.{quit_races}

-- Thread 0 pushes 7; thread 1 waits for the lock.
abbrev locked_by_zero : Shared ℕ
locked_by_zero = record { tasks = []; owner = some 0; history = [] }

abbrev with_seven : Shared ℕ
with_seven = record { tasks = 7 ∷ []; owner = some 0; history = pushed 7 ∷ [] }

abbrev both_entering : ℕ → Pc ℕ
both_entering = update (update (λ _. idle) 0 (entering (push_call 7))) 1 (entering pop_call)

abbrev pushing : System ℕ
pushing = record {
  mem = with_seven;
  pc = update (update both_entering 0 (inside (push_call 7))) 0 (leaving (pushed 7));
}

pushing-Reach : Threads.Reach ℕ pushing
unfolding push
pushing-Reach =
    later
      (later (later (later here (pick 0 (call (push_call 7)))) (pick 1 (call pop_call)))
        (pick 0 (lock refl)))
      (pick 0 (push_back refl))

queue_linearizable_example :
    Explains with_seven.history with_seven.tasks × ((i : ℕ) → pushing.pc i ≢ broken)
queue_linearizable_example = queue_linearizable pushing-Reach

-- A mutex is whether it is free.
abbrev pthread : Pthread Bool ℕ
pthread = record {
  mutex_init = λ m. (pos 0, true);
  mutex_destroy = λ m. (if m then pos 0 else pos 16, m);
  mutex_lock = λ m. if m then ok (pos 0, false) else fault blocked;
  mutex_unlock = λ m. (pos 0, true);
  cond_init = λ c. (pos 0, 0);
  cond_destroy = λ c. (pos 0, c);
  cond_wait = λ s. ok (pos 0, s);
  cond_signal = λ c. (pos 0, c - 1);
  cond_broadcast = λ c. (pos 0, 0);
}

pthread_laws : MutexLaws pthread
pthread_laws = record {
  is_free = λ m. m;
  inits = λ m. (refl, refl);
  takes = λ m f. (false, rw f refl, refl);
  blocks = λ m f. rw f refl;
  frees = λ m f. (refl, refl);
  busy = λ m f. rw f (λ e. cc);
}

mutex_runs :
    (create_mutex pthread false ≡ ok true) × (destroy_mutex pthread false ≡ fault assertion)
unfolding create_mutex destroy_mutex ◌==ℤ◌
mutex_runs = (refl, refl)

cond_runs :
    (create_cond pthread 3 ≡ ok 0)
    × (destroy_cond pthread 3 ≡ ok 3)
    × (wait pthread (3, false) ≡ ok (3, false))
    × (notify pthread 3 ≡ ok 2)
    × (notify_all pthread 3 ≡ ok 0)
unfolding create_cond destroy_cond wait notify notify_all ◌==ℤ◌
cond_runs = (refl, refl, refl, refl, refl)

locked_calls_lem_example :
    (m' : Bool) × (pthread_laws.is_free m' ≡ true)
    × (locked_calls {T = ℕ} pthread (push_call 7 ∷ pop_call ∷ []) (true, [])
        ≡ ok (
          (plain_calls {T = ℕ} (push_call 7 ∷ pop_call ∷ []) []).0,
          (m', (plain_calls {T = ℕ} (push_call 7 ∷ pop_call ∷ []) []).1),
        ))
unfolding pthread_laws
locked_calls_lem_example =
    locked_calls_lem pthread pthread_laws (push_call 7 ∷ pop_call ∷ []) true [] refl

-- `quit_` is set while the loop waits.
abbrev told : Pair
told = record begin { quitter = waking; runner = waiting; quit = true }

told-Reach : Stopping.Reach told
told-Reach = quits (runs start (go_on refl refl refl)) (set_quit refl refl)

quit_races_example :
    (n : ℕ) × (t : Pair) × Runs n told t × (t.alive ≡ false) × (touches t.quitter ≡ true)
quit_races_example = quit_races told-Reach (inl refl)
