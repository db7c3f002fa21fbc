-- ===== src/Dispatcher/Base.antt =====
-- The types of src/net/event_dispatcher.h, and the event flags of <sys/poll.h> and <sys/epoll.h>.
use libolptnet.Base.{
  ℤ, ◌==ℤ◌, Outcome, Bool, true, false, ◌&&◌, ◌||◌, ◌≡◌, refl, List, [], ◌∷◌, ◌++◌, arith,
  if◌then◌else◌,
}

-- The enumeration in `EventDispatcher`.
pub data Event : Type 0 where
  event_read event_write event_error : Event

-- `ready_event_t`.
abbrev pub ReadyEvents : Type 0
ReadyEvents = List (ℤ × Event)

-- A set of POLLIN, POLLPRI, POLLOUT, POLLERR and POLLHUP, or of EPOLLIN and so on.
pub record Flags : Type 0 where
  pub input : Bool
  pub urgent : Bool
  pub output : Bool
  pub error : Bool
  pub hangup : Bool

abbrev pub no_flags : Flags
no_flags = record { input = false; urgent = false; output = false; error = false; hangup = false }

-- The virtual functions of `EventDispatcher`. `D` is a dispatcher's state. `R` is what
-- `handle_events` asks the system for, and `A` the answer; it returns its `int` and fills `ready`.
pub record Ops (D R A : Type 0) : Type 0 where
  pub get_last_errno : D → ℤ
  pub add_event : D → ℤ → Bool → Bool → Outcome (Bool × D)
  pub mod_event : D → ℤ → Bool → Bool → Outcome (Bool × D)
  pub del_event : D → ℤ → Outcome (Bool × D)
  pub handle_events : D → (R → A) → ℤ → ℤ × ReadyEvents × D

abbrev pub same_event : Event → Event → Bool
same_event event_read event_read = true
same_event event_write event_write = true
same_event event_error event_error = true
same_event _ _ = false

-- Whether the event is reported for the handle.
abbrev pub has_ready : ℤ → Event → ReadyEvents → Bool
has_ready g e [] = false
has_ready g e ((h, k) ∷ r) = if (g ==ℤ h) && same_event e k then true else has_ready g e r

pub has_ready-append :
    (g : ℤ) (e : Event) (r t : ReadyEvents)
    → has_ready g e (r ++ t) ≡ (has_ready g e r || has_ready g e t)
has_ready-append g e [] t = refl
has_ready-append g e ((h, k) ∷ r) t = ground (arith, has_ready-append g e r t)

-- The flag that a poll or an epoll dispatcher reports as the event.
abbrev pub raises : Flags → Event → Bool
raises f event_read = f.input || f.urgent
raises f event_write = f.output
raises f event_error = f.error || f.hangup
