-- ===== src/Dispatcher/Select/Ready.antt =====
-- What `DispatcherSelect::handle_events` of src/net/dispatcher/select.cc reports.
use libolptnet.Base.{
  ℕ, zero, suc, ◌+◌, ◌*◌, ◌/◌, ◌%◌, ◌<◌, ℤ, pos, negsuc, ◌==ℤ◌, ==ℤ_iff, leb_ℤ, ltb, leb, ◌≡◌, refl,
  Bool, true, false, ◌||◌, ◌&&◌, some, arith, if◌then◌else◌, ap, ◌∙◌, Bool-cases, inl, inr,
}
use libolptnet.Dispatcher.Base.{
  Event, event_read, event_write, event_error, has_ready, has_ready-append,
}
use libolptnet.Dispatcher.Select.{
  DispatcherSelect, SelectRequest, SelectAnswer, request, FdSet, timeval, events_at, scan, rounds,
  handle_events, finish, in_range,
}
use libolptnet.Dispatcher.Select.Watches.{IsValid}

-- The set of a request or of an answer that stands for an event.
abbrev pub asked : DispatcherSelect → Event → FdSet
asked d event_read = d.rsets
asked d event_write = d.wsets
asked d event_error = d.esets

abbrev pub answered : SelectAnswer → Event → FdSet
answered a event_read = a.readset
answered a event_write = a.writeset
answered a event_error = a.exceptset

-- `::select` only takes handles out of the sets.
abbrev pub OnlyAsked : DispatcherSelect → SelectAnswer → Type 0
OnlyAsked d a = (e : Event) (g : ℤ) → answered a e g ≡ true → asked d e g ≡ true

has_ready-events_at :
    (g : ℤ) (e : Event) (a : SelectAnswer) (i : ℤ)
    → has_ready g e (events_at a i) ≡ (if g ==ℤ i then answered a e i else false)
unfolding events_at
has_ready-events_at g event_read a i = ground arith
has_ready-events_at g event_write a i = ground arith
has_ready-events_at g event_error a i = ground arith

-- `g` is one of `i`, ..., `i + left - 1`.
abbrev within : ℤ → ℕ → ℕ → Bool
within (pos n) i left = leb i n && ltb n (i + left)
within (negsuc n) i left = false

within-suc : (g : ℤ) (i left : ℕ) → within g i (suc left) ≡ ((g ==ℤ pos i) || within g (i + 1) left)
within-suc g i left = ground (arith, ==ℤ_iff g (pos i))

has_ready-scan :
    (g : ℤ) (e : Event) (a : SelectAnswer) (left i : ℕ)
    → has_ready g e (scan a left i) ≡ (within g i left && answered a e g)
unfolding scan
has_ready-scan g e a zero i = ground arith
has_ready-scan g e a (suc left) i =
    has_ready-append g e (events_at a (pos i)) (scan a left (i + 1))
    ∙ ground (
      arith,
      has_ready-events_at g e a (pos i),
      has_ready-scan g e a left (i + 1),
      within-suc g i left,
      ==ℤ_iff g (pos i),
    )

within-rounds : (g m : ℤ) → in_range g ≡ true → leb_ℤ g m ≡ true → within g 0 (rounds m) ≡ true
within-rounds g m r h = ground arith

asked-watched :
    (d : DispatcherSelect) (e : Event) (g : ℤ) → IsValid d → asked d e g ≡ true → d.esets g ≡ true
asked-watched d event_read g v h = v.reads g h
asked-watched d event_write g v h = v.writes g h
asked-watched d event_error g v h = h

-- For a dispatcher whose exception set holds only handles below FD_SETSIZE and not above `maxfd_`,
-- and whose other sets lie within it, where `::select` returns a positive count and has only taken
-- handles out of the sets, an event is reported for a handle exactly if the handle is left in that
-- event's set.
pub select_reports :
    (d : DispatcherSelect) (select : SelectRequest → SelectAnswer) (timeout_ms : ℤ) (n : ℕ)
    → IsValid d
    → OnlyAsked d (select (request d timeout_ms))
    → (select (request d timeout_ms)).ret ≡ pos (suc n)
    → (g : ℤ) (e : Event)
    → has_ready g e (handle_events d select timeout_ms).1
      ≡ answered (select (request d timeout_ms)) e g
unfolding handle_events
select_reports d select t n v only r g e =
    ap (λ k. has_ready g e (finish d (select (request d t)) k).1) r
    ∙ has_ready-scan g e (select (request d t)) (rounds d.maxfd) 0
    ∙ elim (Bool-cases (answered (select (request d t)) e g)) [
      | inl left' ↦
          let w = asked-watched d e g v (only e g left') in
          rw (within-rounds g d.maxfd (v.fits g w) (v.below g w)) refl
      | inr gone ↦ rw gone (ground arith)
    ]

-- A timeout that is not negative is split into seconds and less than a million microseconds that
-- add up to it.
pub timeval_lem :
    (ms : ℕ)
    → (s : ℕ) × (us : ℕ) × (timeval (pos ms) ≡ some (s, us))
      × (us < 1000000)
      × (s * 1000000 + us ≡ ms * 1000)
unfolding timeval
timeval_lem ms = (ms / 1000, (ms % 1000) * 1000, refl, omega arith, omega arith)
