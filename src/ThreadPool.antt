-- ===== src/ThreadPool.antt =====
-- src/net/thpool_service_loop.h and src/net/thpool_service_loop.cc: the pool of loops. A loop is a
-- pointer, numbered.
pub mod RoundRobin
use libolptnet.Base.{
  ℕ, zero, suc, ◌+◌, ◌%◌, ℤ, pos, negsuc, add_int, out_of_bounds, Outcome, ok, fault, ◌>>=◌, ◌>>◌,
  length, get_elem?, is_empty, if◌then◌else◌, none, some, List, [], ◌∷◌, ◌++◌,
}

pub record ThpoolServiceLoop : Type 0 where
  pub thread_num : ℕ
  pub base_loop : ℕ
  pub ev_loops : List ℕ

-- The constructor.
abbrev pub init : ℕ → ThpoolServiceLoop
init baseloop = record { thread_num = 0; base_loop = baseloop; ev_loops = [] }

unfoldable pub set_thread_num : ThpoolServiceLoop → ℤ → ThpoolServiceLoop
set_thread_num p (pos zero) = p
set_thread_num p (pos (suc n)) = record p { thread_num = suc n }
set_thread_num p (negsuc n) = p

-- The `for` loop of `open`, with the rounds that are left; `start_loop i` is the loop that the thread
-- of round `i` has started.
unfoldable pub open_loops : (ℕ → ℕ) → ℕ → ℕ → List ℕ → List ℕ
open_loops start_loop zero i loops = loops
open_loops start_loop (suc left) i loops =
    open_loops start_loop left (i + 1) (loops ++ start_loop i ∷ [])

unfoldable pub open_pool : (ℕ → ℕ) → ThpoolServiceLoop → ThpoolServiceLoop
unfolding open_loops
open_pool start_loop p = record p { ev_loops = open_loops start_loop p.thread_num 0 p.ev_loops }

-- `close`, and the destructor, which calls it. The deletion of each `ServiceLoopThread` is the stopping of
-- its loop in `LoopThread.Stopping`.
unfoldable pub close_pool : ThpoolServiceLoop → ThpoolServiceLoop
close_pool p = record p { ev_loops = [] }

abbrev pub at : List ℕ → ℕ → Outcome ℕ
at loops i = elim (get_elem? loops i) [ none ↦ fault out_of_bounds | some l ↦ ok l ]

-- The `static int index` goes in and comes out.
pub get_loop : ThpoolServiceLoop → ℕ → Outcome (ℕ × ℕ)
get_loop p index =
    if is_empty p.ev_loops
    then ok (p.base_loop, index)
    else (add_int index 1 >>= λ next.
        at p.ev_loops (index % length p.ev_loops) >>= λ l. ok (l, next))

-- So many calls one after the other.
pub get_loops : ThpoolServiceLoop → ℕ → ℕ → Outcome (List ℕ × ℕ)
get_loops p zero index = ok ([], index)
get_loops p (suc n) index = get_loop p index >>= λ r. get_loops p n r.1 >>= λ q. ok (r.0 ∷ q.0, q.1)
