-- ===== src/Dispatcher/Select.antt =====
-- src/net/dispatcher/select.cc. The answer of `::select` is an argument. The macros of
-- <sys/select.h> write beyond the set for a handle that is not below FD_SETSIZE.
pub mod Watches
pub mod Ready
use libolptnet.Base.{
  ℕ, zero, suc, ◌+◌, ◌*◌, ◌/◌, ◌%◌, ℤ, pos, negsuc, ◌==ℤ◌, leb_ℤ, ltb, Outcome, ok, fault,
  out_of_bounds, ◌>>=◌, Bool, true, false, List, [], ◌∷◌, ◌++◌, Option, none, some, if◌then◌else◌,
}
use libolptnet.Dispatcher.Base.{Event, event_read, event_write, event_error, ReadyEvents, Ops}

-- `fd_set`.
abbrev pub FdSet : Type 0
FdSet = ℤ → Bool

abbrev pub fd_zero : FdSet
fd_zero _ = false

-- FD_SETSIZE.
abbrev pub fd_setsize : ℕ
fd_setsize = 1024

abbrev pub in_range : ℤ → Bool
in_range (pos n) = ltb n fd_setsize
in_range (negsuc n) = false

-- FD_SET and FD_CLR.
abbrev pub fd_put : Bool → ℤ → FdSet → Outcome FdSet
fd_put b handle s =
    if in_range handle then ok (λ g. if g ==ℤ handle then b else s g) else fault out_of_bounds

pub record DispatcherSelect : Type 0 where
  pub maxfd : ℤ
  pub last_errno : ℤ
  pub rsets : FdSet
  pub wsets : FdSet
  pub esets : FdSet

-- `DispatcherSelect::DispatcherSelect`.
abbrev pub init : DispatcherSelect
init = record {
  maxfd = negsuc 0;
  last_errno = pos 0;
  rsets = fd_zero;
  wsets = fd_zero;
  esets = fd_zero;
}

pub add_event : DispatcherSelect → ℤ → Bool → Bool → Outcome (Bool × DispatcherSelect)
add_event d handle readable writeable = do
  r ← if readable then fd_put true handle d.rsets else ok d.rsets
  w ← if writeable then fd_put true handle d.wsets else ok d.wsets
  e ← fd_put true handle d.esets
  ok (
    true,
    record d {
      maxfd = if leb_ℤ handle d.maxfd then d.maxfd else handle;
      rsets = r;
      wsets = w;
      esets = e;
    },
  )

pub mod_event : DispatcherSelect → ℤ → Bool → Bool → Outcome (Bool × DispatcherSelect)
mod_event d handle readable writeable = do
  r ← fd_put readable handle d.rsets
  w ← fd_put writeable handle d.wsets
  ok (true, record d { rsets = r; wsets = w })

pub del_event : DispatcherSelect → ℤ → Outcome (Bool × DispatcherSelect)
del_event d handle = do
  r ← fd_put false handle d.rsets
  w ← fd_put false handle d.wsets
  e ← fd_put false handle d.esets
  ok (true, record d { rsets = r; wsets = w; esets = e })

-- The seconds and microseconds of a timeout in milliseconds; `none` is the null pointer.
pub timeval : ℤ → Option (ℕ × ℕ)
timeval (pos ms) = some (ms / 1000, (ms % 1000) * 1000)
timeval (negsuc n) = none

-- The arguments of `::select`; `maxfd + 1` is written as the highest handle.
pub record SelectRequest : Type 0 where
  pub highest : ℤ
  pub read_set : FdSet
  pub write_set : FdSet
  pub except_set : FdSet
  pub timeout : Option (ℕ × ℕ)

-- What it returns, and the three sets as it leaves them.
pub record SelectAnswer : Type 0 where
  pub ret : ℤ
  pub errno : ℤ
  pub readset : FdSet
  pub writeset : FdSet
  pub exceptset : FdSet

-- The body of the `for` loop.
pub events_at : SelectAnswer → ℤ → ReadyEvents
events_at a i =
    (if a.readset i then (i, event_read) ∷ [] else [])
    ++ ((if a.writeset i then (i, event_write) ∷ [] else [])
        ++ (if a.exceptset i then (i, event_error) ∷ [] else []))

-- The `for` loop, with the number of rounds that are left.
pub scan : SelectAnswer → ℕ → ℕ → ReadyEvents
scan a zero i = []
scan a (suc left) i = events_at a (pos i) ++ scan a left (i + 1)

-- The rounds of the loop: `maxfd + 1`.
abbrev pub rounds : ℤ → ℕ
rounds (pos n) = suc n
rounds (negsuc n) = 0

-- What `handle_events` does with the answer, by its value.
abbrev pub finish : DispatcherSelect → SelectAnswer → ℤ → ℤ × ReadyEvents × DispatcherSelect
finish d a (negsuc n) = (negsuc 0, [], record d { last_errno = a.errno })
finish d a (pos zero) = (pos 0, [], d)
finish d a (pos (suc n)) = (pos (suc n), scan a (rounds d.maxfd) 0, d)

abbrev pub request : DispatcherSelect → ℤ → SelectRequest
request d timeout_ms = record {
  highest = d.maxfd;
  read_set = d.rsets;
  write_set = d.wsets;
  except_set = d.esets;
  timeout = timeval timeout_ms;
}

pub handle_events :
    DispatcherSelect → (SelectRequest → SelectAnswer) → ℤ → ℤ × ReadyEvents × DispatcherSelect
handle_events d select timeout_ms = let a = select (request d timeout_ms) in finish d a a.ret

pub select_ops : Ops DispatcherSelect SelectRequest SelectAnswer
select_ops = record {
  get_last_errno = λ d. d.last_errno;
  add_event = add_event;
  mod_event = mod_event;
  del_event = del_event;
  handle_events = handle_events;
}
