-- ===== src/ServiceLoop.antt =====
-- src/net/service_loop.h and src/net/service_loop.cc: the event loop. It is written over any
-- dispatcher; handlers are pointers, numbered, and what they and the queued functors do is an argument.
pub mod Sync
pub mod Run
pub mod Wakeup
pub mod Client
pub mod Construct
pub mod Threads
use libolptnet.Base.{
  ℕ, ◌-◌, ℤ, pos, ◌==ℤ◌, is_positive, null_pointer, Outcome, ok, fault, ◌>>=◌, ◌>>◌, assert,
  Returns, Safe, ◌==◌, if◌then◌else◌, ◌≡◌, Bool, true, false, Option, none, some, List,
}
use libolptnet.ThreadQueue
use libolptnet.Dispatcher.Base.{Event, ReadyEvents, Ops}

-- `EventHandler*`, with `none` for NULL.
abbrev pub HandlerPtr : Type 0
HandlerPtr = Option ℕ

abbrev pub is_set {ℓ} : {A : Type ℓ} → Option A → Bool
is_set none = false
is_set (some _) = true

-- `handlers_list_t`, a `std::map`: `none` where there is no key.
abbrev pub Handlers : Type 0
Handlers = ℤ → Option HandlerPtr

abbrev pub no_handlers : Handlers
no_handlers _ = none

abbrev pub update : Handlers → ℤ → Option HandlerPtr → Handlers
update m h v g = if g ==ℤ h then v else m g

-- `handlers_[h]` as a value: a missing key is inserted, with NULL.
abbrev pub index_at : Handlers → ℤ → Option HandlerPtr → HandlerPtr × Handlers
index_at m h none = (none, update m h (some none))
index_at m h (some p) = (p, m)

abbrev pub index : Handlers → ℤ → HandlerPtr × Handlers
index m h = index_at m h (m h)

-- `F` is the type of the functors. `wakeup` is the descriptor of the `WakeupHandler`, if there is one.
pub record ServiceLoop (D F : Type 0) : Type 0 where
  pub quit : Bool
  pub dispatcher : Option D
  pub handlers : Handlers
  pub functors : List F
  pub wakeup : Option ℤ

-- `dispatcher_->`.
abbrev pub deref {ℓ} : {A : Type ℓ} → Option A → Outcome A
deref none = fault null_pointer
deref (some a) = ok a

pub Returns-deref {ℓ κ} :
    {A : Type ℓ} {B : Type κ} (P : B → Type 0) (o : Option A) (a : A) (f : A → Outcome B)
    → o ≡ some a
    → Returns P (f a)
    → Returns P (deref o >>= f)
Returns-deref P o a f e h = rw e h

pub Safe-deref {ℓ κ} :
    {A : Type ℓ} {B : Type κ} (P : B → Type 0) (o : Option A) (a : A) (f : A → Outcome B)
    → o ≡ some a
    → Safe P (f a)
    → Safe P (deref o >>= f)
Safe-deref P o a f e h = rw e h

module _ {D R A F : Type 0} (ops : Ops D R A) where
  unfoldable pub register_event :
      ServiceLoop D F → ℤ → Bool → Bool → HandlerPtr → Outcome (ℤ × ServiceLoop D F)
  register_event l h readable writeable handler = do
    assert (is_positive h)
    assert (is_set handler)
    d ← deref l.dispatcher
    (added, d') ← ops.add_event d h readable writeable
    if added
        then ok (
          pos 0,
          record l { dispatcher = some d'; handlers = update l.handlers h (some handler) },
        )
        else ok (ops.get_last_errno d', record l { dispatcher = some d' })

  -- The test of `handlers_[h]` against `handler` decides only whether the same pointer is written.
  pub modify_event : ServiceLoop D F → ℤ → Bool → Bool → HandlerPtr → Outcome (ℤ × ServiceLoop D F)
  modify_event l h readable writeable handler = do
    assert (is_positive h)
    assert (is_set handler)
    d ← deref l.dispatcher
    (modified, d') ← ops.mod_event d h readable writeable
    if modified
        then ok (
          pos 0,
          record l { dispatcher = some d'; handlers = update l.handlers h (some handler) },
        )
        else ok (ops.get_last_errno d', record l { dispatcher = some d' })

  -- What `delete_event` does when `find` has found an entry.
  pub delete_found : ServiceLoop D F → ℤ → Outcome (ℤ × ServiceLoop D F)
  delete_found l h = do
    d ← deref l.dispatcher
    (deleted, d') ← ops.del_event d h
    if deleted
        then ok (pos 0, record l { dispatcher = some d'; handlers = update l.handlers h none })
        else ok (ops.get_last_errno d', record l { dispatcher = some d' })

  unfoldable pub delete_event : ServiceLoop D F → ℤ → Outcome (ℤ × ServiceLoop D F)
  unfolding delete_found
  delete_event l h =
      assert (is_positive h) >> (if is_set (l.handlers h) then delete_found l h else ok (pos 0, l))

  unfoldable pub add_run : ServiceLoop D F → F → ServiceLoop D F
  add_run l f = record l { functors = ThreadQueue.push l.functors f }
