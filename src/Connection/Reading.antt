-- ===== src/Connection/Reading.antt =====
-- `do_handle_read` in src/net/connection_handler.cc.
use libolptnet.Base.{
  ℕ, ◌<◌, ℤ, pos, int_limit, Outcome, ok, ◌>>=◌, length, is_empty, if◌then◌else◌, ◌≡◌, refl, none,
  some, List, [], ◌∷◌, ◌++◌,
}
use mathlib.Core.List.{map}
use libolptnet.Buffer.{Stream, ignore, to_string}
use libolptnet.Buffer.Contents.{IsAtEnd}
use libolptnet.Buffer.Read.{chunk, Recv, got, failed}
use libolptnet.Buffer.Read.Complete.{joined, AllFull, Appended, read_complete, read_failed}
use libolptnet.Connection.{LoopOps, Connection, close, after_read, do_handle_read}

module _ {L : Type 0} (ops : LoopOps L)
    (on_read : List ℕ → Connection × L → Outcome (ℤ × Connection × L)) where
  -- For a buffer with its put position at the end, and answers of `::recv` of exactly 65536 bytes,
  -- of less than INT_MAX + 1 bytes together, followed by an error, be it EAGAIN: `do_handle_read`
  -- does not call `on_read`, but closes the connection, with the bytes received in its buffer.
  pub do_handle_read_drops :
      (cs : List (List ℕ)) (errno : ℤ) (tail : List Recv) (c : Connection) (l : L)
      → AllFull cs
      → IsAtEnd c.buffer_in
      → length (joined cs) < int_limit
      → (s : Stream) × Appended c.buffer_in (joined cs) s
        × (do_handle_read ops on_read (map got cs ++ failed errno ∷ tail) (c, l)
            ≡ (close ops (record c { buffer_in = s }, l) >>= λ l'. ok (none, l')))
  unfolding do_handle_read
  do_handle_read_drops cs errno tail c l full end small =
      let (s, a, e) = read_failed cs errno tail (pos 0) c.buffer_in full end small in
      (s, a, rw e refl)

  -- For a buffer with its put position at the end, and answers of `::recv` of exactly 65536 bytes
  -- followed by a shorter or empty one, of less than INT_MAX + 1 bytes together: `do_handle_read`
  -- calls `on_read` once, with all that the buffer held and has received, and takes what was
  -- consumed from the buffer; if nothing was received it closes the connection.
  pub do_handle_read_delivers :
      (cs : List (List ℕ)) (last : List ℕ) (tail : List Recv) (c : Connection) (l : L)
      → AllFull cs
      → length last < chunk
      → IsAtEnd c.buffer_in
      → length (joined cs ++ last) < int_limit
      → (s : Stream) × Appended c.buffer_in (joined cs ++ last) s
        × (do_handle_read ops on_read (map got cs ++ got last ∷ tail) (c, l) ≡ (
            if is_empty (joined cs ++ last)
            then (close ops (record c { buffer_in = s }, l) >>= λ l'. ok (none, l'))
            else (on_read (to_string s) (record c { buffer_in = s }, l) >>= λ r.
                ok (some (record r.1 { buffer_in = ignore r.1.buffer_in r.0 }), r.2))))
  unfolding do_handle_read
  do_handle_read_delivers cs last tail c l full short end small =
      let (s, a, e) = read_complete cs last tail (pos 0) c.buffer_in full short end small in
      (s, a, rw e (by_length (joined cs ++ last) (record c { buffer_in = s }) l))
    where
      by_length :
          (bytes : List ℕ) (c : Connection) (l : L)
          → after_read ops on_read (pos (length bytes)) (c, l) ≡ (
              if is_empty bytes
              then (close ops (c, l) >>= λ l'. ok (none, l'))
              else (on_read c.buffer_in.text (c, l) >>= λ r.
                  ok (some (record r.1 { buffer_in = ignore r.1.buffer_in r.0 }), r.2)))
      by_length [] c l = refl
      by_length (b ∷ bytes) c l = refl
