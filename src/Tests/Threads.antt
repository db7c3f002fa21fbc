-- ===== src/Tests/Threads.antt =====
-- The theorems on src/net/thpool_service_loop.cc, service_loop_thread.cc and
-- src/base/posix_thread.h, at concrete inputs.
use libolptnet.Base.{ℕ, ◌+◌, pos, ◌==ℤ◌, ok, Returns, ◌≡◌, refl, true, some, List, [], ◌∷◌, arith}
use libolptnet.ThreadPool.{ThpoolServiceLoop, get_loops}
use libolptnet.ThreadPool.RoundRobin.{get_loops_round}
use libolptnet.PosixThread.{
  ThreadEvent, creates, begins, happen_all, empty_process, create_thread_of, join_thread,
}
use libolptnet.PosixThread.Balance.{Balanced, happen_all-Balanced}
use libolptnet.LoopThread.{LoopThread, Reach, start, next, see_loop, assign, started, assigned}
use libolptnet.LoopThread.Handshake.{start_loop_returns_loop}

abbrev three_loops : ThpoolServiceLoop
three_loops = record { thread_num = 3; base_loop = 0; ev_loops = 11 ∷ 12 ∷ 13 ∷ [] }

get_loops_round_example : get_loops three_loops 3 6 ≡ ok (11 ∷ 12 ∷ 13 ∷ [], 9)
get_loops_round_example = get_loops_round three_loops 2 (omega arith)

-- `thread_routine` comes first, and `start_loop` sees the loop at once.
abbrev seen : LoopThread
seen = record { starter = started; routine = assigned; has_loop = true }

seen-Reach : Reach seen
seen-Reach = next (next start (assign refl refl)) (see_loop refl refl refl)

start_loop_returns_loop_example : seen.has_loop ≡ true
start_loop_returns_loop_example = start_loop_returns_loop seen-Reach refl

-- The first thread begins after the second was created.
abbrev two_threads : List (ThreadEvent ℕ ℕ)
two_threads =
    creates (record { obj = 1; mf = 5 }) (pos 0, pos 40)
    ∷ creates (record { obj = 2; mf = 5 }) (pos 0, pos 41)
    ∷ begins 1
    ∷ []

happen_all-Balanced_example : Returns (Balanced two_threads) (happen_all two_threads empty_process)
happen_all-Balanced_example = happen_all-Balanced two_threads

create_runs :
    create_thread_of {O = ℕ} {F = ℕ} (pos 0, pos 42) empty_process ≡ some (pos 42, empty_process)
unfolding create_thread_of ◌==ℤ◌
create_runs = refl

join_runs : join_thread (λ pid k. ok (pos 3, k + 1)) (pos 42) 8 ≡ ok 9
unfolding join_thread
join_runs = refl
