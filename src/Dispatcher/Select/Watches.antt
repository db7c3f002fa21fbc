-- ===== src/Dispatcher/Select/Watches.antt =====
-- Which handles the sets of src/net/dispatcher/select.cc watch, and the interface's laws for them.
use libolptnet.Base.{
  zero, suc, ℤ, pos, negsuc, ◌==ℤ◌, ==ℤ_iff, leb_ℤ, Returns, if◌then◌else◌, Bool-cases, ◌≡◌, refl,
  inl, inr, Bool, true, false, arith,
}
use libolptnet.Dispatcher.Laws.{View, Kept, Set, Unset, Sure, Sure-Either, Laws}
use libolptnet.Dispatcher.Select.{
  DispatcherSelect, SelectRequest, SelectAnswer, in_range, add_event, mod_event, del_event,
  handle_events, finish, request, select_ops,
}

abbrev pub select_view : DispatcherSelect → View
select_view d = record {
  watches = d.esets;
  reads = d.rsets;
  reads_beside = λ w. true;
  writes = d.wsets;
}

-- What is in a set is watched, and what is watched is in range and not above `maxfd`.
pub record IsValid (d : DispatcherSelect) : Type 0 where
  pub fits : (g : ℤ) → d.esets g ≡ true → in_range g ≡ true
  pub below : (g : ℤ) → d.esets g ≡ true → leb_ℤ g d.maxfd ≡ true
  pub reads : (g : ℤ) → d.rsets g ≡ true → d.esets g ≡ true
  pub writes : (g : ℤ) → d.wsets g ≡ true → d.esets g ≡ true

abbrev pub HasRoom : DispatcherSelect → ℤ → Type 0
HasRoom _ h = in_range h ≡ true

leb_ℤ_refl : (a : ℤ) → leb_ℤ a a ≡ true
leb_ℤ_refl a = ground arith

leb_ℤ_other : (a b c : ℤ) → leb_ℤ a b ≡ true → leb_ℤ c b ≡ false → leb_ℤ a c ≡ true
leb_ℤ_other a b c h k = ground arith

below-add :
    (d : DispatcherSelect) (h : ℤ)
    → IsValid d
    → (g : ℤ) → (if g ==ℤ h then true else d.esets g) ≡ true
    → leb_ℤ g (if leb_ℤ h d.maxfd then d.maxfd else h) ≡ true
below-add d h v g e = elim (Bool-cases (leb_ℤ h d.maxfd)) [
  | inl low ↦ rw low (ground (arith, v.below g, ==ℤ_iff g h))
  | inr high ↦
      rw high (ground (arith, v.below g, ==ℤ_iff g h, leb_ℤ_refl h, leb_ℤ_other g d.maxfd h))
]

-- For sets that hold only watched handles, in range and not above `maxfd_`, and a handle that is
-- below FD_SETSIZE and not watched, `add_event` for reading returns true, the sets are such sets
-- again, and the dispatcher watches that handle in addition, for reading, and for writing exactly
-- if asked, and the others as before, as the interface's law says.
pub add_event-Set :
    (d : DispatcherSelect) (h : ℤ) (w : Bool)
    → IsValid d
    → HasRoom d h
    → d.esets h ≡ false
    → Returns (Sure IsValid select_view (Set h w) d) (add_event d h true w)
unfolding add_event
add_event-Set d h true v room new =
    rw (room, add_event)
      (
        refl,
        record {
          fits = λ g e. ground (arith, v.fits g, ==ℤ_iff g h);
          below = below-add d h v;
          reads = λ g e. ground (arith, v.reads g);
          writes = λ g e. ground (arith, v.writes g);
        },
        record { set_watches = λ g. refl; set_reads = λ g. refl; set_writes = λ g. refl },
      )
add_event-Set d h false v room new =
    rw (room, add_event)
      (
        refl,
        record {
          fits = λ g e. ground (arith, v.fits g, ==ℤ_iff g h);
          below = below-add d h v;
          reads = λ g e. ground (arith, v.reads g);
          writes = λ g e. ground (arith, v.writes g);
        },
        record {
          set_watches = λ g. refl;
          set_reads = λ g. refl;
          set_writes = λ g. ground (arith, v.writes h, ==ℤ_iff g h);
        },
      )

pub mod_event-Set :
    (d : DispatcherSelect) (h : ℤ) (w : Bool)
    → IsValid d
    → d.esets h ≡ true
    → Returns (Sure IsValid select_view (Set h w) d) (mod_event d h true w)
unfolding mod_event
mod_event-Set d h w v old =
    rw (v.fits h old, mod_event)
      (
        refl,
        record {
          fits = v.fits;
          below = v.below;
          reads = λ g e. ground (arith, v.reads g, ==ℤ_iff g h);
          writes = λ g e. ground (arith, v.writes g, ==ℤ_iff g h);
        },
        record {
          set_watches = λ g. ground (arith, ==ℤ_iff g h);
          set_reads = λ g. refl;
          set_writes = λ g. refl;
        },
      )

pub del_event-Unset :
    (d : DispatcherSelect) (h : ℤ)
    → IsValid d
    → HasRoom d h
    → Returns (Sure IsValid select_view (Unset h) d) (del_event d h)
unfolding del_event
del_event-Unset d h v room =
    rw (room, del_event)
      (
        refl,
        record {
          fits = λ g e. ground (arith, v.fits g);
          below = λ g e. ground (arith, v.below g);
          reads = λ g e. ground (arith, v.reads g);
          writes = λ g e. ground (arith, v.writes g);
        },
        record { unset_watches = λ g. refl; unset_reads = λ g e. rw e; unset_writes = λ g e. rw e },
      )

finish_same :
    (d : DispatcherSelect) (a : SelectAnswer) (ret : ℤ)
    → ((finish d a ret).2.esets ≡ d.esets)
      × ((finish d a ret).2.rsets ≡ d.rsets)
      × ((finish d a ret).2.wsets ≡ d.wsets)
      × ((finish d a ret).2.maxfd ≡ d.maxfd)
finish_same d a (pos zero) = (refl, refl, refl, refl)
finish_same d a (pos (suc n)) = (refl, refl, refl, refl)
finish_same d a (negsuc n) = (refl, refl, refl, refl)

pub handle_events-Kept :
    (d : DispatcherSelect) (ask : SelectRequest → SelectAnswer) (timeout_ms : ℤ)
    → IsValid d
    → let d' = (handle_events d ask timeout_ms).2 in
      IsValid d' × Kept (select_view d) (select_view d')
unfolding handle_events
handle_events-Kept d ask t v =
    let (e, r, w, m) = finish_same d (ask (request d t)) (ask (request d t)).ret in
    (
      record {
        fits = rw e v.fits;
        below = rw (e, m) v.below;
        reads = rw (e, r) v.reads;
        writes = rw (e, w) v.writes;
      },
      record { same_watches = λ g. rw e; same_reads = λ g. rw r; same_writes = λ g. rw w },
    )

-- The sets fill the interface.
abbrev pub select_laws : Laws select_ops
unfolding select_ops
select_laws = record {
  IsValid = IsValid;
  HasRoom = HasRoom;
  view = select_view;
  add_lem = λ d h w v room new.
      Sure-Either IsValid select_view (Set h w) d _ (add_event-Set d h w v room new);
  mod_lem =
      λ d h w v old. Sure-Either IsValid select_view (Set h w) d _ (mod_event-Set d h w v old);
  del_lem =
      λ d h v room. Sure-Either IsValid select_view (Unset h) d _ (del_event-Unset d h v room);
  wait_lem = handle_events-Kept;
}
