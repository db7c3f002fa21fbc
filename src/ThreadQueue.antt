-- ===== src/ThreadQueue.antt =====
-- src/base/thread_queue.h: the operations of the queue, each of which runs under its mutex.
-- A `std::deque` is a list, its front first.
pub mod Threads
pub mod Linear
pub mod Locked
use libolptnet.Base.{ℤ, as_int, length, List, [], ◌∷◌, ◌++◌, Option, none, some}

module _ {ℓ} {T : Type ℓ} where
  unfoldable pub push : List T → T → List T
  push tasks t = tasks ++ t ∷ []

  -- `none` where `pop` returns `false`; otherwise the value of `t`, and the tasks that are left.
  unfoldable pub pop : List T → Option (T × List T)
  pop [] = none
  pop (t ∷ tasks) = some (t, tasks)

  unfoldable pub size : List T → ℤ
  size tasks = as_int (length tasks)
