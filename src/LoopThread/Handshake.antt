-- ===== src/LoopThread/Handshake.antt =====
-- What the handshake of src/net/service_loop_thread.cc guarantees, and what it does not.
use libolptnet.Base.{◌≡◌, refl, sym, ◌≢◌, true}
use mathlib.Core.Path.{subst}
use libolptnet.LoopThread.{
  waiting, started, creating, running, LoopThread, Cause, spurious, Step, see_null, see_loop,
  enter_wait, wake_up, assign, notify, Reach, start, next,
}

-- The pointer is set from the assignment on, and `start_loop` returns only after that.
pub record IsSound (s : LoopThread) : Type 0 where
  pub published : s.routine ≢ creating → s.has_loop ≡ true
  pub returned : s.starter ≡ started → s.has_loop ≡ true

Step-IsSound : {s t : LoopThread} {c : Cause} → Step s t c → IsSound s → IsSound t
Step-IsSound (see_null a b e) v =
    subst IsSound (sym e) (record { published = v.published; returned = λ k. cc })
Step-IsSound (see_loop a b e) v =
    subst IsSound (sym e) (record { published = v.published; returned = λ k. b })
Step-IsSound (enter_wait a e) v =
    subst IsSound (sym e) (record { published = v.published; returned = λ k. cc })
Step-IsSound (wake_up a e) v =
    subst IsSound (sym e) (record { published = v.published; returned = λ k. cc })
Step-IsSound (assign a e) v =
    subst IsSound (sym e) (record { published = λ k. refl; returned = λ k. refl })
Step-IsSound {s} (notify a e) v =
    subst IsSound (sym e)
      (record { published = λ k. v.published (λ q. cc); returned = λ k. v.published (λ q. cc) })

-- In every state that the steps of the two threads reach, if `start_loop` has returned, the loop is
-- there.
pub start_loop_returns_loop : {s : LoopThread} → Reach s → s.starter ≡ started → s.has_loop ≡ true
start_loop_returns_loop r e = (sound r).returned e
  where
    sound : {s : LoopThread} → Reach s → IsSound s
    sound start = record { published = λ k. absurd (k refl); returned = λ k. cc }
    sound (next r st) = Step-IsSound st (sound r)

-- The starter waits, and the only `notify` is over.
abbrev pub lost : LoopThread
lost = record { starter = waiting; routine = running; has_loop = true }

-- The state in which `start_loop` waits and the only `notify` is over is reached, and from it no
-- step leads on but a spurious wake-up.
pub wakeup_lost : Reach lost × ((t : LoopThread) (c : Cause) → Step lost t c → c ≡ spurious)
wakeup_lost = (
  next (next (next (next start (see_null refl refl refl)) (assign refl refl)) (notify refl refl))
      (enter_wait refl refl),
  only,
)
  where
    only : (t : LoopThread) (c : Cause) → Step lost t c → c ≡ spurious
    only t _ (see_null a b e) = cc
    only t _ (see_loop a b e) = cc
    only t _ (enter_wait a e) = cc
    only t _ (wake_up a e) = refl
    only t _ (assign a e) = cc
    only t _ (notify a e) = cc
