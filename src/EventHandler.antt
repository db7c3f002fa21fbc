-- ===== src/EventHandler.antt =====
-- src/net/event_handler.h: the objects that a loop calls through `EventHandler`, at the run time of an
-- example server. A handler's pointer is its number; `delete this` leaves no object behind it.
pub mod Registering
pub mod Owners
pub mod Accepting
pub mod Alive
use libolptnet.Base.{
  Bool, true, ℤ, suc, negsuc, ℕ, ◌+◌, null_pointer, Outcome, ok, fault, ◌>>=◌, ◌>>◌, ◌==◌,
  if◌then◌else◌, Option, none, some, List, [], ◌∷◌, ◌++◌,
}
use libolptnet.Dispatcher.Base.{Event, event_read, event_write, event_error, Ops}
use libolptnet.Buffer.Read.{Recv}
use libolptnet.Connection.{
  Connection, SendAnswer, LoopOps, open_connection, do_handle_read, do_handle_write,
  do_handle_error,
}
use libolptnet.ServiceLoop.{ServiceLoop}
use libolptnet.ServiceLoop.Client.{loop_ops}
use libolptnet.ServiceLoop.Run.{State}
use libolptnet.Buffer.{empty_stream}
use libolptnet.NetBase.{World}
use libolptnet.Acceptor
use libolptnet.Acceptor.{Acceptor}

-- `acceptor` is an `AsyncAcceptor` with its `listen_fd_`, and `other` a handler of another class with its
-- descriptor: the wake-up handler or a timer.
pub data Object : Type 0 where
  deleted : Object
  other : ℤ → Object
  acceptor : ℤ → Object
  connection : Connection → Object

-- `next` is what `new` returns next. `reads`, `sends` and `accepts` are what the system answers to the `::recv`,
-- `::send` and `::accept` of one handler call after the other; `wire` is what was handed to `::send`, by the pointer,
-- and `world` the descriptors that are open.
pub record Objects : Type 0 where
  pub objects : ℕ → Object
  pub next : ℕ
  pub reads : List (List Recv)
  pub sends : List (List SendAnswer)
  pub accepts : List ℤ
  pub wire : List (ℕ × List ℕ)
  pub world : World

abbrev pub replace : (ℕ → Object) → ℕ → Object → ℕ → Object
replace objects p o q = if q == p then o else objects q

-- What a call leaves of its object.
abbrev pub left : Option Connection → Object
left none = deleted
left (some c) = connection c

-- The answers to a call, and those that are left for the next ones.
abbrev pub answers_of : {A : Type 0} → List (List A) → List A × List (List A)
answers_of [] = ([], [])
answers_of (a ∷ later) = (a, later)

-- The same for `::accept`, which answers -1 where there is no connection.
abbrev pub accept_of : List ℤ → ℤ × List ℤ
accept_of [] = (negsuc 0, [])
accept_of (fd ∷ later) = (fd, later)

-- A connection as its constructor makes it.
abbrev pub new_connection : Connection
new_connection = record { handle = negsuc 0; buffer_in = empty_stream; buffer_out = empty_stream }

module _ {D R A F : Type 0} (ops : Ops D R A)
    (on_read : LoopOps (ServiceLoop D F)
      → List ℕ
      → Connection × ServiceLoop D F
      → Outcome (ℤ × Connection × ServiceLoop D F))
    (others : Event → ℕ → State D F Objects → Outcome (State D F Objects)) where
  pub read_event : ℕ → Connection → State D F Objects → Outcome (State D F Objects)
  read_event p c (l, w) =
      let (answers, reads) = answers_of w.reads in
      do_handle_read (loop_ops ops p) (on_read (loop_ops ops p)) answers (c, l) >>= λ r.
      ok (r.1, record w { objects = replace w.objects p (left r.0); reads = reads })

  pub write_event : ℕ → Connection → State D F Objects → Outcome (State D F Objects)
  write_event p c (l, w) =
      let (answers, sends) = answers_of w.sends in
      do_handle_write (loop_ops ops p) answers (c, l) >>= λ r. ok (
        r.2,
        record w {
          objects = replace w.objects p (connection r.1);
          sends = sends;
          wire = w.wire ++ (p, r.0) ∷ [];
        },
      )

  pub error_event : ℕ → Connection → State D F Objects → Outcome (State D F Objects)
  error_event p c (l, w) = do_handle_error (loop_ops ops p) (c, l) >>= λ r.
      ok (r.1, record w { objects = replace w.objects p (left r.0) })

  -- `on_accept` of src/example/example-1.cc: `set_service_loop` and `open` of a new connection, whose `on_connect` only
  -- prints.
  pub on_accept : ℤ → Acceptor (State D F Objects) → Outcome (Bool × Acceptor (State D F Objects))
  on_accept fd a =
      let (l, w) = a.loop in
      open_connection (loop_ops ops w.next) (λ s. ok s) fd (new_connection, l) >>= λ r. ok (
        true,
        record a {
          loop = (
            r.1,
            record w { objects = replace w.objects w.next (connection r.0); next = suc w.next },
          );
        },
      )

  -- What an acceptor calls of its loop.
  abbrev pub acceptor_ops : ℕ → LoopOps (State D F Objects)
  acceptor_ops p = record {
    register_event = λ s h readable writeable.
        (loop_ops ops p).register_event s.0 h readable writeable >>= λ r. ok (r.0, (r.1, s.1));
    modify_event = λ s h readable writeable.
        (loop_ops ops p).modify_event s.0 h readable writeable >>= λ r. ok (r.0, (r.1, s.1));
    delete_event = λ s h. (loop_ops ops p).delete_event s.0 h >>= λ r. ok (r.0, (r.1, s.1));
  }

  -- `AsyncAcceptor::do_handle_read`.
  pub accept_event : ℕ → ℤ → State D F Objects → Outcome (State D F Objects)
  unfolding on_accept
  accept_event p listen_fd (l, w) =
      let (fd, accepts) = accept_of w.accepts in
      let a : Acceptor (State D F Objects) = record {
        listen_fd = listen_fd;
        loop = (l, record w { accepts = accepts });
        world = w.world;
      } in
      Acceptor.do_handle_read (acceptor_ops p) on_accept fd a >>= λ b.
      ok (b.loop.0, record (b.loop.1) { world = b.world })

  -- The virtual call. A pointer whose object is deleted is not followed.
  pub call_object : Event → ℕ → Object → State D F Objects → Outcome (State D F Objects)
  unfolding read_event write_event error_event accept_event
  call_object ev p deleted s = fault null_pointer
  call_object ev p (other handle) s = others ev p s
  call_object event_read p (acceptor listen_fd) s = accept_event p listen_fd s
  call_object event_write p (acceptor listen_fd) s = ok s
  call_object event_error p (acceptor listen_fd) s = ok s
  call_object event_read p (connection c) s = read_event p c s
  call_object event_write p (connection c) s = write_event p c s
  call_object event_error p (connection c) s = error_event p c s

  abbrev pub on_event : Event → ℕ → State D F Objects → Outcome (State D F Objects)
  on_event ev p s = call_object ev p (s.1.objects p) s
