-- ===== src/Dispatcher/Poll/Watches.antt =====
-- Which handles the array of src/net/dispatcher/poll.cc watches, and the interface's laws for it.
use libolptnet.Base.{
  ℤ, ◌==ℤ◌, ==ℤ_iff, Returns, if◌then◌else◌, Option-cases, ◌≡◌, refl, ◌∙◌, inl, inr, Bool, true,
  false, ◌&&◌, none, some, List, [], ◌∷◌, ◌++◌, arith,
}
use libolptnet.Dispatcher.Base.{Flags}
use libolptnet.Dispatcher.Laws.{View, Kept, Set, Unset, Sure, Sure-Either, Laws}
use libolptnet.Dispatcher.Poll.{
  PollFd, DispatcherPoll, PollAnswer, make_pollfd, add_event, mod_event, del_event, replace, remove,
  report_all, handle_events, finish, poll_ops,
}

abbrev pub has : ℤ → List PollFd → Bool
has h [] = false
has h (p ∷ ps) = if h ==ℤ p.fd then true else has h ps

-- What the entry of a handle asks for.
abbrev pub asks : (Flags → Bool) → ℤ → List PollFd → Bool
asks which h [] = false
asks which h (p ∷ ps) = if h ==ℤ p.fd then which p.events else asks which h ps

abbrev readable : Flags → Bool
readable f = f.input && f.urgent

abbrev writeable : Flags → Bool
writeable f = f.output

-- No handle has two entries.
abbrev pub NoRepeat : List PollFd → Type 0
NoRepeat [] = Unit {0}
NoRepeat (p ∷ ps) = (has p.fd ps ≡ false) × NoRepeat ps

has-append :
    (g : ℤ) (ps : List PollFd) (q : PollFd)
    → has g (ps ++ q ∷ []) ≡ (if g ==ℤ q.fd then true else has g ps)
has-append g [] q = refl
has-append g (p ∷ ps) q = ground (arith, has-append g ps q)

asks-append :
    (which : Flags → Bool) (g : ℤ) (ps : List PollFd) (q : PollFd)
    → has q.fd ps ≡ false
    → asks which g (ps ++ q ∷ []) ≡ (if g ==ℤ q.fd then which q.events else asks which g ps)
asks-append which g [] q h = refl
asks-append which g (p ∷ ps) q h =
    ground (arith, asks-append which g ps q, ==ℤ_iff g p.fd, ==ℤ_iff g q.fd, ==ℤ_iff q.fd p.fd)

NoRepeat-append :
    (ps : List PollFd) (q : PollFd) → NoRepeat ps → has q.fd ps ≡ false → NoRepeat (ps ++ q ∷ [])
NoRepeat-append [] q n h = (refl, tt)
NoRepeat-append (p ∷ ps) q n h =
    ground
      (arith, NoRepeat-append ps q n.1, has-append p.fd ps q, ==ℤ_iff q.fd p.fd, ==ℤ_iff p.fd q.fd)

-- A replaced entry keeps its handle's place.
has-replace :
    (g : ℤ) (q : PollFd) (ps qs : List PollFd) → replace q.fd q ps ≡ some qs → has g qs ≡ has g ps
unfolding replace
has-replace g q [] qs e = ground arith
has-replace g q (p ∷ ps) qs e = elim (Option-cases (replace q.fd q ps)) [
  | inl r ↦ ground (arith, ==ℤ_iff q.fd p.fd)
  | inr (rs, r) ↦ ground (arith, has-replace g q ps rs r, ==ℤ_iff q.fd p.fd)
]

asks-replace :
    (which : Flags → Bool) (g : ℤ) (q : PollFd) (ps qs : List PollFd)
    → replace q.fd q ps ≡ some qs
    → asks which g qs ≡ (if g ==ℤ q.fd then which q.events else asks which g ps)
unfolding replace
asks-replace which g q [] qs e = ground arith
asks-replace which g q (p ∷ ps) qs e = elim (Option-cases (replace q.fd q ps)) [
  | inl r ↦ ground (arith, ==ℤ_iff q.fd p.fd, ==ℤ_iff g p.fd, ==ℤ_iff g q.fd)
  | inr (rs, r) ↦
      ground
        (arith, asks-replace which g q ps rs r, ==ℤ_iff q.fd p.fd, ==ℤ_iff g p.fd, ==ℤ_iff g q.fd)
]

NoRepeat-replace :
    (q : PollFd) (ps qs : List PollFd) → replace q.fd q ps ≡ some qs → NoRepeat ps → NoRepeat qs
unfolding replace
NoRepeat-replace q [] qs e n = ground arith
NoRepeat-replace q (p ∷ ps) qs e n = elim (Option-cases (replace q.fd q ps)) [
  | inl r ↦ ground (arith, ==ℤ_iff q.fd p.fd)
  | inr (rs, r) ↦
      ground (arith, NoRepeat-replace q ps rs r n.1, has-replace p.fd q ps rs r, ==ℤ_iff q.fd p.fd)
]

replace-none : (q : PollFd) (ps : List PollFd) → replace q.fd q ps ≡ none → has q.fd ps ≡ false
unfolding replace
replace-none q [] e = refl
replace-none q (p ∷ ps) e = ground (arith, replace-none q ps)

has-remove :
    (g h : ℤ) (ps : List PollFd)
    → NoRepeat ps
    → has g (remove h ps) ≡ (if g ==ℤ h then false else has g ps)
unfolding remove
has-remove g h [] n = ground arith
has-remove g h (p ∷ ps) n =
    ground (arith, has-remove g h ps n.1, ==ℤ_iff h p.fd, ==ℤ_iff g p.fd, ==ℤ_iff g h)

asks-remove :
    (which : Flags → Bool) (g h : ℤ) (ps : List PollFd)
    → (g ==ℤ h) ≡ false
    → asks which g (remove h ps) ≡ asks which g ps
unfolding remove
asks-remove which g h [] e = refl
asks-remove which g h (p ∷ ps) e =
    ground (arith, asks-remove which g h ps e, ==ℤ_iff h p.fd, ==ℤ_iff g p.fd, ==ℤ_iff g h)

NoRepeat-remove : (h : ℤ) (ps : List PollFd) → NoRepeat ps → NoRepeat (remove h ps)
unfolding remove
NoRepeat-remove h [] n = tt
NoRepeat-remove h (p ∷ ps) n = ground (arith, NoRepeat-remove h ps n.1, has-remove p.fd h ps n.1)

abbrev pub poll_view : DispatcherPoll → View
poll_view d = record {
  watches = λ g. has g d.pollfds;
  reads = λ g. asks readable g d.pollfds;
  reads_beside = λ w. true;
  writes = λ g. asks writeable g d.pollfds;
}

abbrev pub IsValid : DispatcherPoll → Type 0
IsValid d = NoRepeat d.pollfds

pub add_event-Set :
    (d : DispatcherPoll) (h : ℤ) (w : Bool)
    → IsValid d
    → has h d.pollfds ≡ false
    → Returns (Sure IsValid poll_view (Set h w) d) (add_event d h true w)
unfolding add_event
add_event-Set d h w n new = (
  refl,
  NoRepeat-append d.pollfds (make_pollfd h true w) n new,
  record {
    set_watches = λ g. has-append g d.pollfds (make_pollfd h true w);
    set_reads = λ g. asks-append readable g d.pollfds (make_pollfd h true w) new;
    set_writes = λ g. asks-append writeable g d.pollfds (make_pollfd h true w) new;
  },
)

-- For an array without two entries for a handle, and a handle with an entry, `mod_event` for
-- reading does not reach its `assert(0)` and returns true, the array has no two entries for a
-- handle again, and the same handles are watched, the given one for reading (POLLIN and POLLPRI),
-- and for writing exactly if asked, and the others as before, as the interface's law says.
pub mod_event-Set :
    (d : DispatcherPoll) (h : ℤ) (w : Bool)
    → IsValid d
    → has h d.pollfds ≡ true
    → Returns (Sure IsValid poll_view (Set h w) d) (mod_event d h true w)
unfolding mod_event
mod_event-Set d h w n old = elim (Option-cases (replace h (make_pollfd h true w) d.pollfds)) [
  | inl e ↦ cc (old, replace-none (make_pollfd h true w) d.pollfds e)
  | inr (qs, e) ↦
      rw (e, mod_event)
        (
          refl,
          NoRepeat-replace (make_pollfd h true w) d.pollfds qs e n,
          record {
            set_watches = λ g.
                ground (arith, has-replace g (make_pollfd h true w) d.pollfds qs e, ==ℤ_iff g h);
            set_reads = λ g. asks-replace readable g (make_pollfd h true w) d.pollfds qs e;
            set_writes = λ g. asks-replace writeable g (make_pollfd h true w) d.pollfds qs e;
          },
        )
]

pub del_event-Unset :
    (d : DispatcherPoll) (h : ℤ)
    → IsValid d
    → Returns (Sure IsValid poll_view (Unset h) d) (del_event d h)
unfolding del_event
del_event-Unset d h n = (
  refl,
  NoRepeat-remove h d.pollfds n,
  record {
    unset_watches = λ g. has-remove g h d.pollfds n;
    unset_reads = λ g e. asks-remove readable g h d.pollfds e;
    unset_writes = λ g e. asks-remove writeable g h d.pollfds e;
  },
)

has-report : (g : ℤ) (f : PollFd → Flags) (ps : List PollFd) → has g (report_all f ps) ≡ has g ps
has-report g f [] = refl
has-report g f (p ∷ ps) = rw (has-report g f ps)

asks-report :
    (which : Flags → Bool) (g : ℤ) (f : PollFd → Flags) (ps : List PollFd)
    → asks which g (report_all f ps) ≡ asks which g ps
asks-report which g f [] = refl
asks-report which g f (p ∷ ps) = rw (asks-report which g f ps)

NoRepeat-report : (f : PollFd → Flags) (ps : List PollFd) → NoRepeat ps → NoRepeat (report_all f ps)
NoRepeat-report f [] n = tt
NoRepeat-report f (p ∷ ps) n = (has-report p.fd f ps ∙ n.0, NoRepeat-report f ps n.1)

finish-pollfds :
    (d : DispatcherPoll) (a : PollAnswer) (ret : ℤ) → (finish d a ret).2.pollfds ≡ d.pollfds
finish-pollfds d a ret = ground arith

pub handle_events-Kept :
    (d : DispatcherPoll) (ask : List PollFd × ℤ → PollAnswer) (timeout_ms : ℤ)
    → IsValid d
    → let d' = (handle_events d ask timeout_ms).2 in IsValid d' × Kept (poll_view d) (poll_view d')
unfolding handle_events
handle_events-Kept d ask t n =
    rw
      (finish-pollfds (record d { pollfds = report_all (ask (d.pollfds, t)).report d.pollfds })
        (ask (d.pollfds, t)) (ask (d.pollfds, t)).ret)
      (
        NoRepeat-report (ask (d.pollfds, t)).report d.pollfds n,
        record {
          same_watches = λ g. has-report g (ask (d.pollfds, t)).report d.pollfds;
          same_reads = λ g. asks-report readable g (ask (d.pollfds, t)).report d.pollfds;
          same_writes = λ g. asks-report writeable g (ask (d.pollfds, t)).report d.pollfds;
        },
      )

-- The array fills the interface.
unfoldable pub poll_laws : Laws poll_ops
unfolding poll_ops
poll_laws = record {
  IsValid = IsValid;
  HasRoom = λ _ _. Unit {0};
  view = poll_view;
  add_lem =
      λ d h w n _ new. Sure-Either IsValid poll_view (Set h w) d _ (add_event-Set d h w n new);
  mod_lem = λ d h w n old. Sure-Either IsValid poll_view (Set h w) d _ (mod_event-Set d h w n old);
  del_lem = λ d h n _. Sure-Either IsValid poll_view (Unset h) d _ (del_event-Unset d h n);
  wait_lem = handle_events-Kept;
}
