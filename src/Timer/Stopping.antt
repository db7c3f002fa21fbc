-- ===== src/Timer/Stopping.antt =====
-- What `start`, `stop` and `do_handle_read` of src/net/timer_handler.cc do to the timer.
use libolptnet.Base.{ℕ, pos, ==ℤ_refl, Outcome, ok, ◌≡◌, refl, ◌∙◌, true, false, none, arith}
use libolptnet.NetBase.{World}
use libolptnet.Connection.{LoopOps}
use libolptnet.Timer.{
  Doubles, TimerFd, TimerHandler, disarmed, stop, do_handle_read, destroy, set_repeat,
}

-- timerfd_settime(2): a null pointer for the new value is refused, and nothing is set.
pub record TimerFdLaws {T : Type 0} (fd : TimerFd T) : Type 0 where
  pub refuses_null : (t : T) → (fd.settime t none).1 ≡ t

module _ {Dbl T L : Type 0} (doubles : Doubles Dbl) (fd : TimerFd T) (ops : LoopOps L) where
  destroy_twice : (h : TimerHandler Dbl T) (w : World) → destroy (destroy (h, w)) ≡ destroy (h, w)
  unfolding destroy
  destroy_twice h w = ground arith

  stop_lem :
      (h : TimerHandler Dbl T) (l l' : L)
      → h.was_started ≡ true
      → ops.delete_event l h.timer_fd ≡ ok (pos 0, l')
      → stop doubles fd ops (h, l) ≡ ok (disarmed doubles fd ops h, l')
  unfolding stop
  stop_lem h l l' s e = rw s (rw e (rw (==ℤ_refl (pos 0)) refl))

  -- Where `timerfd_settime` refuses a null pointer and the loop does not refuse to delete the
  -- handle, `stop` of a started, repeating timer deletes the handle and clears `repeat_`, and
  -- leaves the system's timer as it was.
  pub stop_leaves_armed :
      (h : TimerHandler Dbl T) (l l' : L)
      → TimerFdLaws fd
      → h.was_started ≡ true
      → h.repeats ≡ true
      → ops.delete_event l h.timer_fd ≡ ok (pos 0, l')
      → stop doubles fd ops (h, l) ≡ ok (record h { repeats = false }, l')
  stop_leaves_armed h l l' laws s r e =
      stop_lem h l l' s e ∙ ground (arith, laws.refuses_null h.timer)

  -- Where the timer was started, `set_repeat(false)` was called on it and the loop does not refuse to
  -- delete its handle, `stop` changes nothing of it, the system's timer included; and to destroy it
  -- twice is to destroy it once.
  stop-set_repeat :
      (h : TimerHandler Dbl T) (l l' : L) (w : World)
      → h.was_started ≡ true
      → ops.delete_event l h.timer_fd ≡ ok (pos 0, l')
      → (stop doubles fd ops (set_repeat false h, l) ≡ ok (set_repeat false h, l'))
        × (destroy (destroy (set_repeat false h, w)) ≡ destroy (set_repeat false h, w))
  unfolding set_repeat destroy
  stop-set_repeat h l l' w s e =
      (stop_lem (set_repeat false h) l l' s e ∙ refl, destroy_twice (set_repeat false h) w)

  -- Where 8 bytes are read, `on_timer` returns, the timer was started and does not repeat, and the
  -- loop does not refuse to delete its handle, `do_handle_read` returns what `on_timer` has left,
  -- with the handle deleted.
  pub one_shot :
      (h h' : TimerHandler Dbl T) (l l' l'' : L)
      (on_timer : ℕ → TimerHandler Dbl T × L → Outcome (TimerHandler Dbl T × L))
      → (fd.read h.timer).0 ≡ pos 8
      → on_timer (fd.read h.timer).1 (record h { timer = (fd.read h.timer).2 }, l) ≡ ok (h', l')
      → h'.was_started ≡ true
      → h'.repeats ≡ false
      → ops.delete_event l' h'.timer_fd ≡ ok (pos 0, l'')
      → do_handle_read doubles fd ops on_timer (h, l) ≡ ok (h', l'')
  unfolding do_handle_read
  one_shot h h' l l' l'' on_timer n t s r e =
      rw (n, ==ℤ_refl (pos 8)) (rw t (ground (arith, stop_lem h' l' l'' s e)))
