-- ===== src/Buffer/Read.antt =====
-- `input_stream_buffer::read` in src/net/stream_buffer.cc. The answers of `recv` are an argument.
pub mod Complete
use libolptnet.Base.{
  ℕ, ℤ, pos, negsuc, add_int, Outcome, ok, fault, blocked, ◌>>=◌, List, [], ◌∷◌, length, is_empty,
  ltb, if◌then◌else◌,
}
use libolptnet.Buffer.{Stream, write}

-- `const int len = 64 * 1024`.
abbrev pub chunk : ℕ
chunk = 65536

-- What `::recv` answers: the bytes that it stored, of which there are none when the peer has
-- closed, or -1 with an `errno`.
pub data Recv : Type 0 where
  got : List ℕ → Recv
  failed : ℤ → Recv

-- The value returned, `sava_errno`, the buffer, and the answers that are still to come.
abbrev pub ReadResult : Type 0
ReadResult = ℤ × ℤ × Stream × List Recv

-- The `do` loop, over the answers: it blocks where they end.
unfoldable pub read_loop : List Recv → ℕ → ℤ → Stream → Outcome ReadResult
read_loop [] read_bytes saved s = fault blocked
read_loop (failed errno ∷ answers) read_bytes saved s = ok (negsuc 0, errno, s, answers)
read_loop (got bytes ∷ answers) read_bytes saved s =
    if is_empty bytes
    then ok (pos read_bytes, saved, s, answers)
    else (add_int read_bytes (length bytes) >>= λ total.
        if ltb (length bytes) chunk
        then ok (pos total, saved, write s bytes, answers)
        else read_loop answers total saved (write s bytes))

unfoldable pub read : List Recv → ℤ → Stream → Outcome ReadResult
unfolding read_loop
read answers saved s = read_loop answers 0 saved s
