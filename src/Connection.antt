-- ===== src/Connection.antt =====
-- src/net/connection_handler.h and src/net/connection_handler.cc. What the connection calls of its
-- loop is an interface; the answers of `::send` and `::recv` and the virtual functions of a
-- subclass are arguments.
pub mod Writing
pub mod Sending
pub mod Surviving
pub mod Reading
use libolptnet.Base.{
  ℕ, zero, suc, ◌+◌, ℤ, pos, ◌==ℤ◌, is_positive, as_int, blocked, Outcome, ok, fault, ◌>>=◌, ◌>>◌,
  assert, take, ◌==◌, if◌then◌else◌, Bool, true, false, Option, none, some, List, [], ◌∷◌, ◌++◌,
}
use libolptnet.Buffer.{Stream, empty_stream, to_string, clear, ignore, empty, put}
use libolptnet.Buffer.Read.{Recv, read}

-- `register_event`, `modify_event` and `delete_event` of the loop, for one handler.
pub record LoopOps (L : Type 0) : Type 0 where
  pub register_event : L → ℤ → Bool → Bool → Outcome (ℤ × L)
  pub modify_event : L → ℤ → Bool → Bool → Outcome (ℤ × L)
  pub delete_event : L → ℤ → Outcome (ℤ × L)

-- `handle` is the descriptor of `remote_addr_`.
pub record Connection : Type 0 where
  pub handle : ℤ
  pub buffer_in : Stream
  pub buffer_out : Stream

-- What `::send` answers: a count of bytes, or -1 with EINTR, EWOULDBLOCK or another `errno`.
pub data SendAnswer : Type 0 where
  sent : ℕ → SendAnswer
  interrupted would_block : SendAnswer
  send_failed : ℤ → SendAnswer

module _ {L : Type 0} (ops : LoopOps L) where
  open ops use {register_event, modify_event, delete_event}

  -- `ConnectionHandler::open`. The options of the socket are set before it.
  unfoldable pub open_connection :
      (Connection × L → Outcome (Connection × L)) → ℤ → Connection × L → Outcome (Connection × L)
  open_connection on_connect fd (c, l) = do
    (c', l') ←
        on_connect (
          record { handle = fd; buffer_in = clear c.buffer_in; buffer_out = clear c.buffer_out },
          l,
        )
    (ret, l'') ← register_event l' c'.handle true false
    assert (ret ==ℤ pos 0)
    ok (c', l'')

  -- `ConnectionHandler::close`, up to `on_close`; then the object deletes itself.
  unfoldable pub close : Connection × L → Outcome L
  close (c, l) =
      if is_positive c.handle
      then (delete_event l c.handle >>= λ r. assert (r.0 ==ℤ pos 0) >> ok r.1)
      else ok l

  -- `modify_event(handle(), true, writeable, this)`, which must return 0.
  pub watch : Connection → Bool → L → Outcome L
  watch c writeable l = do
    (ret, l') ← modify_event l c.handle true writeable
    assert (ret ==ℤ pos 0)
    ok l'

  -- Both overloads of `ConnectionHandler::send`.
  pub send : List ℕ → Connection × L → Outcome (Connection × L)
  send message (c, l) =
      let status = empty c.buffer_out in
      let c' : Connection = record c { buffer_out = put c.buffer_out message } in
      if status then (watch c' true l >>= λ l'. ok (c', l')) else ok (c', l)

  -- What was handed to `::send` so far, the connection and the loop, and the answers that are left.
  abbrev pub Written : Type 0
  Written = List ℕ × Connection × L × List SendAnswer

  -- The `while` loop of `do_handle_write`, over the answers: it blocks where they end.
  pub write_loop : List SendAnswer → List ℕ → Connection → L → Outcome Written
  write_loop [] wire c l = if empty c.buffer_out then ok (wire, c, l, []) else fault blocked
  write_loop (interrupted ∷ answers) wire c l =
      if empty c.buffer_out
      then ok (wire, c, l, interrupted ∷ answers)
      else write_loop answers wire c l
  write_loop (would_block ∷ answers) wire c l =
      ok (wire, c, l, if empty c.buffer_out then would_block ∷ answers else answers)
  write_loop (send_failed errno ∷ answers) wire c l =
      ok (wire, c, l, if empty c.buffer_out then send_failed errno ∷ answers else answers)
  write_loop (sent zero ∷ answers) wire c l =
      ok (wire, c, l, if empty c.buffer_out then sent zero ∷ answers else answers)
  write_loop (sent (suc n) ∷ answers) wire c l =
      let c' : Connection = record c { buffer_out = ignore c.buffer_out (as_int (suc n)) } in
      let more : L → Outcome Written =
        write_loop answers (wire ++ take (suc n) (to_string c.buffer_out)) c' in
      if empty c.buffer_out
      then ok (wire, c, l, sent (suc n) ∷ answers)
      else (if empty c'.buffer_out then watch c' false l >>= more else more l)

  pub do_handle_write : List SendAnswer → Connection × L → Outcome Written
  unfolding write_loop
  do_handle_write answers (c, l) = write_loop answers [] c l

  -- The end of `do_handle_read`, by the value that `read` has returned; `none` is a deleted object.
  abbrev pub after_read :
      (List ℕ → Connection × L → Outcome (ℤ × Connection × L))
      → ℤ
      → Connection × L
      → Outcome (Option Connection × L)
  after_read on_read (pos (suc n)) (c, l) = on_read (to_string c.buffer_in) (c, l) >>= λ r.
      ok (some (record r.1 { buffer_in = ignore r.1.buffer_in r.0 }), r.2)
  after_read on_read ret s = close s >>= λ l. ok (none, l)

  pub do_handle_read :
      (List ℕ → Connection × L → Outcome (ℤ × Connection × L))
      → List Recv
      → Connection × L
      → Outcome (Option Connection × L)
  do_handle_read on_read answers (c, l) = read answers (pos 0) c.buffer_in >>= λ r.
      after_read on_read r.0 (record c { buffer_in = r.2 }, l)

  -- `do_handle_error`.
  unfoldable pub do_handle_error : Connection × L → Outcome (Option Connection × L)
  do_handle_error s = close s >>= λ l. ok (none, l)
