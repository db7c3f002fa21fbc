-- ===== src/EventHandler/Alive.antt =====
-- Which objects the loop of a server calls: src/net/service_loop.cc with
-- src/net/connection_handler.cc and src/net/async_acceptor.cc.
use libolptnet.Base.{
  Returns-Safe, ℕ, ℤ, is_positive, Outcome, Safe, Safe->>=, ◌≡◌, refl, true, Option, none, some,
  List,
}
use mathlib.Core.Path.{subst}
use libolptnet.Dispatcher.Base.{Event, event_read, event_write, event_error, Ops}
use libolptnet.Dispatcher.Laws.{Laws}
use libolptnet.Buffer.Read.{Recv}
use libolptnet.Connection.{Connection, Written, do_handle_read, do_handle_write, do_handle_error}
use libolptnet.Connection.Surviving.{
  Deletable, Survives, do_handle_read-Survives, do_handle_write-Remains, do_handle_error-Survives,
}
use libolptnet.ServiceLoop.{ServiceLoop}
use libolptnet.ServiceLoop.Client.{loop_ops, Obliging}
use libolptnet.ServiceLoop.Run.{State, run}
use libolptnet.ServiceLoop.Run.Deliver.{Good, run-Good}
use libolptnet.EventHandler.{
  Object, deleted, other, connection, Objects, replace, left, answers_of, read_event, write_event,
  error_event, call_object, on_event,
}
use libolptnet.Connection.{LoopOps}
use libolptnet.Connection.Writing.{LoopLaws}
use libolptnet.Connection.Surviving.{ReadsSafely}
use libolptnet.EventHandler.{acceptor, accept_event}
use libolptnet.EventHandler.Accepting.{Welcoming, accept_event-Good}
use libolptnet.EventHandler.Registering.{Yielding, Unchanged, Gone, calls_laws, calls_delete}
use libolptnet.EventHandler.Owners.{
  Owns, IsBounded, Linked, Linked-Looks, bounded_now, IsBounded-later, owner, owned_still,
  owned_less, older_still, older_less, fresh_still, fresh_less,
}

module _ {D R A F : Type 0} (ops : Ops D R A) (laws : Laws ops) (willing : Obliging ops laws)
    (yields : Yielding ops laws) (welcoming : Welcoming ops laws)
    (on_read : LoopOps (ServiceLoop D F)
      → List ℕ
      → Connection × ServiceLoop D F
      → Outcome (ℤ × Connection × ServiceLoop D F))
    (others : Event → ℕ → State D F Objects → Outcome (State D F Objects))
    (call : F → State D F Objects → Outcome (State D F Objects)) where
  -- In step with the dispatcher, and every pointer in the map leads to an object that is alive.
  abbrev pub IsSound : State D F Objects → Type 0
  IsSound = Good ops laws Linked

  -- `on_read` keeps the handle registered, over any loop that keeps the interface's laws.
  abbrev pub OnReadKeeps : Type 1
  OnReadKeeps =
      (own : LoopOps (ServiceLoop D F)) (own_laws : LoopLaws own)
      (Gone : ServiceLoop D F → ℤ → Type 0)
      → ReadsSafely own own_laws Gone (on_read own)

  -- The handlers of other classes keep that so, called while they are registered.
  abbrev pub OthersKeep : Type 0
  OthersKeep =
      (ev : Event) (p : ℕ) (h handle : ℤ) (s : State D F Objects)
      → IsSound s
      → s.0.handlers h ≡ some (some p)
      → s.1.objects p ≡ other handle
      → Safe IsSound (others ev p s)

  abbrev pub FunctorsKeep : Type 0
  FunctorsKeep = (f : F) (s : State D F Objects) → IsSound s → Safe IsSound (call f s)

  module _ (l : ServiceLoop D F) (w : Objects) (p : ℕ) (h : ℤ) (c : Connection)
      (sound : IsSound (l, w)) (mine : l.handlers h ≡ some (some p))
      (found : w.objects p ≡ connection c) where
    handle_is : (c.handle ≡ h) × (is_positive h ≡ true)
    handle_is =
        owner l.handlers l.handlers w sound.1 p h c found mine h p refl (sound.1.owned h p mine)

    abbrev Left : Option Connection × ServiceLoop D F → Type 0
    Left =
        Survives (loop_ops ops p) (calls_laws ops laws willing l.handlers h p handle_is.1 mine)
          (Gone ops laws willing l.handlers h p handle_is.1 mine) c.handle

    registered_now : Unchanged ops laws willing l.handlers h p handle_is.1 mine l c.handle
    registered_now = (handle_is.0, sound.0, λ k. refl)

    left-IsSound :
        (reads : List (List Recv)) (r : Option Connection × ServiceLoop D F)
        → IsBounded reads
        → Left r
        → IsSound (r.1, record w { objects = replace w.objects p (left r.0); reads = reads })
    left-IsSound reads (none, l') b (sync, gone) = (
      sync,
      record {
        owned = owned_less l.handlers l'.handlers w sound.1 p h c found mine gone;
        older = older_less l.handlers l'.handlers w sound.1 p h c found mine gone;
        fresh = fresh_less l.handlers l'.handlers w sound.1 p h c found mine gone;
        bounded = b;
      },
    )
    left-IsSound reads (some c', l') b (same, (e, sync, kept)) = (
      sync,
      record {
        owned = owned_still l.handlers l'.handlers w sound.1 p h c found mine c' same kept;
        older = older_still l.handlers l'.handlers w sound.1 p h c found mine kept;
        fresh = fresh_still l.handlers l'.handlers w sound.1 p h c found mine kept;
        bounded = b;
      },
    )

    deletes :
        Deletable
          (loop_ops {F = F} ops p)
          (calls_laws ops laws willing l.handlers h p handle_is.1 mine)
          (Gone ops laws willing l.handlers h p handle_is.1 mine)
    deletes = calls_delete ops laws willing l.handlers h p handle_is.1 mine yields

    read-IsSound : OnReadKeeps → Safe IsSound (read_event ops on_read others p c (l, w))
    unfolding read_event
    read-IsSound keep_read =
        Safe->>= IsSound Left
          (do_handle_read (loop_ops ops p) (on_read (loop_ops ops p)) (answers_of w.reads).0 (c, l))
          _
          (do_handle_read-Survives (loop_ops ops p)
            (calls_laws ops laws willing l.handlers h p handle_is.1 mine)
            (Gone ops laws willing l.handlers h p handle_is.1 mine) deletes
            (on_read (loop_ops ops p))
            (keep_read (loop_ops ops p)
              (calls_laws ops laws willing l.handlers h p handle_is.1 mine)
              (Gone ops laws willing l.handlers h p handle_is.1 mine))
            (answers_of w.reads).0 c l (bounded_now w.reads sound.1.bounded) registered_now)
          (λ r k. left-IsSound (answers_of w.reads).1 r (IsBounded-later w.reads sound.1.bounded) k)

    write-IsSound : Safe IsSound (write_event ops on_read others p c (l, w))
    unfolding write_event
    write-IsSound =
        Safe->>= IsSound (λ (r : Written (loop_ops {F = F} ops p)). Left (some r.1, r.2))
          (do_handle_write (loop_ops ops p) (answers_of w.sends).0 (c, l)) _
          (do_handle_write-Remains (loop_ops ops p)
            (calls_laws ops laws willing l.handlers h p handle_is.1 mine) (answers_of w.sends).0 c l
            registered_now)
          (λ r k.
            let (sync, linked) = left-IsSound w.reads (some r.1, r.2) sound.1.bounded k in
            (
              sync,
              record {
                owned = linked.owned;
                older = linked.older;
                bounded = linked.bounded;
                fresh = linked.fresh;
              },
            ))

    error-IsSound : Safe IsSound (error_event ops on_read others p c (l, w))
    unfolding error_event
    error-IsSound =
        Safe->>= IsSound Left (do_handle_error (loop_ops ops p) (c, l)) _
          (do_handle_error-Survives (loop_ops ops p)
            (calls_laws ops laws willing l.handlers h p handle_is.1 mine)
            (Gone ops laws willing l.handlers h p handle_is.1 mine) deletes c l registered_now)
          (λ r k.
            let (sync, linked) = left-IsSound w.reads r sound.1.bounded k in
            (
              sync,
              record {
                owned = linked.owned;
                older = linked.older;
                bounded = linked.bounded;
                fresh = linked.fresh;
              },
            ))

  pub call_object-IsSound :
      OnReadKeeps
      → OthersKeep
      → (ev : Event) (p : ℕ) (h : ℤ) (o : Object) (s : State D F Objects) → IsSound s
      → s.0.handlers h ≡ some (some p)
      → s.1.objects p ≡ o
      → Safe IsSound (call_object ops on_read others ev p o s)
  unfolding call_object
  call_object-IsSound keep_read keep ev p h deleted s k mine found =
      absurd (subst (λ o. Owns o h) found (k.1.owned h p mine))
  call_object-IsSound keep_read keep ev p h (other handle) s k mine found =
      keep ev p h handle s k mine found
  call_object-IsSound keep_read keep event_read p h (acceptor listen_fd) (l, w) k mine found =
      Returns-Safe IsSound (accept_event ops on_read others p listen_fd (l, w))
        (accept_event-Good ops laws welcoming on_read others p listen_fd l w k)
  call_object-IsSound keep_read keep event_write p h (acceptor listen_fd) s k mine found = k
  call_object-IsSound keep_read keep event_error p h (acceptor listen_fd) s k mine found = k
  call_object-IsSound keep_read keep event_read p h (connection c) (l, w) k mine found =
      read-IsSound l w p h c k mine found keep_read
  call_object-IsSound keep_read keep event_write p h (connection c) (l, w) k mine found =
      write-IsSound l w p h c k mine found
  call_object-IsSound keep_read keep event_error p h (connection c) (l, w) k mine found =
      error-IsSound l w p h c k mine found

  -- Over any dispatcher with the interface's laws that does not refuse to watch a new positive
  -- handle, nor to change or delete one that it watches; in a loop in step with its dispatcher
  -- whose map leads only to objects that are alive, each pointer older than the next one that `new`
  -- returns, each connection under its own, positive handle, and each handler of another class
  -- under its own handle; where `::accept` returns positive descriptors only if they are not
  -- registered, and each once, and no call of `read` would take in more than INT_MAX bytes; for an
  -- `on_read` that keeps its handle registered over any loop with the interface's laws, and for
  -- handlers of other classes and functors that keep that state (a handler: called while it is
  -- registered): `run` never aborts, never calls an object that was deleted, and leaves such a
  -- state if it returns, with `quit_` set, whatever the system reports, while connections come and
  -- go.
  pub run-IsSound :
      OnReadKeeps
      → OthersKeep
      → FunctorsKeep
      → (fuel : ℕ) (answers : List (R → A)) (s : State D F Objects) → IsSound s
      → Safe
          (λ s'. IsSound s' × (s'.0.quit ≡ true))
          (run ops (on_event ops on_read others) call fuel answers s)
  run-IsSound keep_read keep keep' fuel answers s k =
      run-Good ops laws Linked Linked-Looks (on_event ops on_read others) call
        (λ ev p h s g e. call_object-IsSound keep_read keep ev p h (s.1.objects p) s g e refl) keep'
        fuel answers s k
