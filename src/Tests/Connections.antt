-- ===== src/Tests/Connections.antt =====
-- The theorems on src/net/connection_handler.cc, at concrete inputs.
use libolptnet.Base.{
  ℕ, zero, suc, ℤ, pos, Outcome, ok, ◌>>=◌, Returns, length, length-append, ◌≡◌, refl, ap, inr,
  Bool, true, false, none, some, is_empty, if◌then◌else◌, List, [], ◌∷◌, ◌++◌, arith,
}
use libolptnet.Buffer.{Stream, empty_stream, to_string, ignore}
use libolptnet.Buffer.Read.{got, failed, chunk}
use libolptnet.Buffer.Read.Complete.{Appended}
use libolptnet.Connection.{
  LoopOps, Connection, sent, interrupted, would_block, close, send, do_handle_write, do_handle_read,
}
use libolptnet.Connection.Writing.{LoopLaws, Conserves, do_handle_write-Conserves}
use libolptnet.Connection.Sending.{Queued, send-Queued}
use libolptnet.Connection.Reading.{do_handle_read_drops, do_handle_read_delivers}

-- A loop with one handle; the state is whether it is watched for writing.
abbrev pub one_handle : LoopOps Bool
one_handle = record {
  register_event = λ l h r w. ok (pos 0, w);
  modify_event = λ l h r w. ok (pos 0, w);
  delete_event = λ l h. ok (pos 0, false);
}

abbrev pub one_handle_laws : LoopLaws one_handle
one_handle_laws = record {
  Registered = λ _ _. Unit {0};
  writes = λ l _. l;
  modify_lem = λ l h w _. (refl, tt, refl);
}

abbrev waiting : Connection
waiting = record {
  handle = pos 5;
  buffer_in = empty_stream;
  buffer_out = record { text = 1 ∷ 2 ∷ 3 ∷ []; put_at = 3 };
}

abbrev pub idle : Connection
idle = record { handle = pos 5; buffer_in = empty_stream; buffer_out = empty_stream }

do_handle_write-Conserves_example :
    Returns
      (Conserves one_handle one_handle_laws [] waiting)
      (do_handle_write one_handle (interrupted ∷ sent 2 ∷ would_block ∷ []) (waiting, true))
do_handle_write-Conserves_example =
    do_handle_write-Conserves one_handle one_handle_laws (interrupted ∷ sent 2 ∷ would_block ∷ [])
      waiting true (inr (omega arith, tt)) (omega arith) (record { known = tt; armed = refl })

send-Queued_example :
    Returns
      (Queued one_handle one_handle_laws idle (4 ∷ []))
      (send one_handle (4 ∷ []) (idle, false))
send-Queued_example =
    send-Queued one_handle one_handle_laws (4 ∷ []) idle false refl refl
      (record { known = tt; armed = refl })

replicate : ℕ → List ℕ
replicate zero = []
replicate (suc n) = 7 ∷ replicate n

length-replicate : (n : ℕ) → length (replicate n) ≡ n
unfolding replicate
length-replicate zero = refl
length-replicate (suc n) = ap suc (length-replicate n)

full_chunk : List ℕ
full_chunk = replicate chunk

length-full_chunk : length full_chunk ≡ chunk
unfolding full_chunk
length-full_chunk = length-replicate chunk

-- It consumes what it is given.
abbrev consume : List ℕ → Connection × Bool → Outcome (ℤ × Connection × Bool)
consume bytes (c, l) = ok (pos (length bytes), c, l)

do_handle_read_drops_example :
    (s : Stream) × Appended empty_stream (full_chunk ++ []) s
    × (do_handle_read one_handle consume (got full_chunk ∷ failed (pos 11) ∷ []) (idle, false)
        ≡ (close one_handle (record idle { buffer_in = s }, false) >>= λ l'. ok (none, l')))
do_handle_read_drops_example =
    do_handle_read_drops one_handle consume (full_chunk ∷ []) (pos 11) [] idle false
      (length-full_chunk, tt) refl (omega (arith, length-append full_chunk [], length-full_chunk))

-- Two bytes after a full chunk.
abbrev two_bytes : List ℕ
two_bytes = 1 ∷ 2 ∷ []

do_handle_read_delivers_example :
    (s : Stream) × Appended empty_stream ((full_chunk ++ []) ++ two_bytes) s
    × (do_handle_read one_handle consume (got full_chunk ∷ got two_bytes ∷ []) (idle, false) ≡ (
        if is_empty ((full_chunk ++ []) ++ two_bytes)
        then (close one_handle (record idle { buffer_in = s }, false) >>= λ l'. ok (none, l'))
        else (consume (to_string s) (record idle { buffer_in = s }, false) >>= λ r.
            ok (some (record r.1 { buffer_in = ignore r.1.buffer_in r.0 }), r.2))))
do_handle_read_delivers_example =
    do_handle_read_delivers one_handle consume (full_chunk ∷ []) two_bytes [] idle false
      (length-full_chunk, tt) (omega arith) refl
      (omega (
        arith,
        length-append (full_chunk ++ []) two_bytes,
        length-append full_chunk [],
        length-full_chunk,
      ))
