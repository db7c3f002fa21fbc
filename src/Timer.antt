-- ===== src/Timer.antt =====
-- src/net/timer_handler.h and src/net/timer_handler.cc. The type `double` with its conversions, the
-- system's timer and the subclass's `on_timer` are parameters.
pub mod Stopping
use libolptnet.Base.{
  ℕ, ℤ, pos, negsuc, ◌==ℤ◌, is_nonneg, Outcome, ok, ◌>>=◌, ◌>>◌, assert, ◌==◌, if◌then◌else◌, Bool,
  true, false, Option, none, some,
}
use libolptnet.Connection.{LoopOps}
use libolptnet.NetBase.{World, close_fd}

-- `(int) x`, and `(x - (int) x) * 1000000000` as a count of nanoseconds.
pub record Doubles (Dbl : Type 0) : Type 0 where
  pub whole : Dbl → ℤ
  pub nanoseconds : Dbl → ℤ

-- `struct itimerspec`.
pub record TimerSpec : Type 0 where
  pub value_sec : ℤ
  pub value_nsec : ℤ
  pub interval_sec : ℤ
  pub interval_nsec : ℤ

-- `timerfd_settime` on the descriptor, with NULL as `none`, and `read` of 8 bytes: its value, and
-- the number of expirations.
pub record TimerFd (T : Type 0) : Type 0 where
  pub settime : T → Option TimerSpec → ℤ × T
  pub read : T → ℤ × ℕ × T

pub record TimerHandler (Dbl T : Type 0) : Type 0 where
  pub timer_fd : ℤ
  pub interval : Dbl
  pub repeats : Bool
  pub was_started : Bool
  pub timer : T

module _ {Dbl T : Type 0} where
  -- The destructor, with the open descriptors. It does not reach the loop.
  pub destroy : TimerHandler Dbl T × World → TimerHandler Dbl T × World
  destroy (h, w) =
      if is_nonneg h.timer_fd
      then (record h { timer_fd = negsuc 0 }, close_fd h.timer_fd w)
      else (h, w)

  set_interval : Dbl → TimerHandler Dbl T → TimerHandler Dbl T
  set_interval interval h = record h { interval = interval }

  pub set_repeat : Bool → TimerHandler Dbl T → TimerHandler Dbl T
  set_repeat repeats h = record h { repeats = repeats }

module _ {Dbl T L : Type 0} (doubles : Doubles Dbl) (fd : TimerFd T) (ops : LoopOps L) where
  open doubles use {whole, nanoseconds}
  open ops use {register_event, delete_event}

  -- The constructor, with the descriptor that `timerfd_create` returns.
  unfoldable pub create : ℤ → T → Dbl → Bool → Outcome (TimerHandler Dbl T)
  create timer_fd timer interval repeats = do
    assert (is_nonneg timer_fd)
    ok (record {
      timer_fd = timer_fd;
      interval = interval;
      repeats = repeats;
      was_started = false;
      timer = timer;
    })

  -- `ptime_internal` in `start`.
  pub start_spec : Dbl → Bool → TimerSpec
  start_spec interval repeats = record {
    value_sec = whole interval;
    value_nsec = nanoseconds interval;
    interval_sec = if repeats then whole interval else pos 0;
    interval_nsec = if repeats then nanoseconds interval else pos 0;
  }

  unfoldable pub start : TimerHandler Dbl T × L → Outcome (ℤ × TimerHandler Dbl T × L)
  unfolding start_spec
  start (h, l) = do
    let (set, timer) = fd.settime h.timer (some (start_spec h.interval h.repeats))
    assert (set ==ℤ pos 0)
    (result, l') ← register_event l h.timer_fd true false
    assert (result ==ℤ pos 0)
    ok (pos 0, record h { timer = timer; was_started = true }, l')

  -- `if (repeat_)` in `stop`: the call is made with two null pointers, and its value is ignored.
  abbrev pub disarmed : TimerHandler Dbl T → TimerHandler Dbl T
  disarmed h =
      if h.repeats then record h { timer = (fd.settime h.timer none).1; repeats = false } else h

  pub stop : TimerHandler Dbl T × L → Outcome (TimerHandler Dbl T × L)
  stop (h, l) =
      if h.was_started
      then (delete_event l h.timer_fd >>= λ r. assert (r.0 ==ℤ pos 0) >> ok (disarmed h, r.1))
      else ok (h, l)

  pub do_handle_read :
      (ℕ → TimerHandler Dbl T × L → Outcome (TimerHandler Dbl T × L))
      → TimerHandler Dbl T × L
      → Outcome (TimerHandler Dbl T × L)
  unfolding stop
  do_handle_read on_timer (h, l) =
      let (n, howmany, timer) = fd.read h.timer in
      assert (n ==ℤ pos 8)
      >> (on_timer howmany (record h { timer = timer }, l) >>= λ s.
          if s.0.repeats then ok s else stop s)
