-- ===== src/Buffer/Read/Complete.antt =====
-- The loop of `input_stream_buffer::read` in src/net/stream_buffer.cc, over any sequence of answers.
use libolptnet.Base.{
  ℕ, ◌+◌, ◌<◌, ◌≡◌, sym, ap, ◌∙◌, ℤ, pos, negsuc, int_limit, add_int_small, ok, List, [], ◌∷◌, ◌++◌,
  map, append_assoc, append-nil, length, length-append, arith,
}
use libolptnet.Buffer.{Stream, write, to_string}
use libolptnet.Buffer.Contents.{IsAtEnd, write-IsAtEnd}
use libolptnet.Buffer.Read.{chunk, Recv, got, failed, read_loop, read}

abbrev pub joined : List (List ℕ) → List ℕ
joined [] = []
joined (c ∷ cs) = c ++ joined cs

abbrev pub AllFull : List (List ℕ) → Type 0
AllFull [] = Unit {0}
AllFull (c ∷ cs) = (length c ≡ chunk) × AllFull cs

-- The stream has taken the bytes at its end.
abbrev pub Appended : Stream → List ℕ → Stream → Type 0
Appended s bytes s' = (to_string s' ≡ to_string s ++ bytes) × IsAtEnd s'

Appended-write :
    (s : Stream) (c bytes : List ℕ) (s' : Stream)
    → IsAtEnd s
    → Appended (write s c) bytes s'
    → Appended s (c ++ bytes) s'
Appended-write s c bytes s' h (e, end) =
    (e ∙ ap (λ t. t ++ bytes) (write-IsAtEnd s c h).0 ∙ append_assoc (to_string s) c bytes, end)

-- A full answer is stored, and the loop goes on.
read_loop-full :
    (c : List ℕ) (tail : List Recv) (n : ℕ) (saved : ℤ) (s : Stream)
    → length c ≡ chunk
    → n + length c < int_limit
    → read_loop (got c ∷ tail) n saved s ≡ read_loop tail (n + length c) saved (write s c)
unfolding read_loop
read_loop-full [] tail n saved s full small = absurd (omega arith)
read_loop-full (b ∷ c) tail n saved s full small =
    rw (add_int_small n (length (b ∷ c)) small) (ground arith)

read_loop_full :
    (cs : List (List ℕ)) (tail : List Recv) (n : ℕ) (saved : ℤ) (s : Stream)
    → AllFull cs
    → IsAtEnd s
    → n + length (joined cs) < int_limit
    → (s' : Stream) × Appended s (joined cs) s'
      × (read_loop (map got cs ++ tail) n saved s
          ≡ read_loop tail (n + length (joined cs)) saved s')
read_loop_full [] tail n saved s full h small =
    (s, (sym (append-nil (to_string s)), h), ap (λ k. read_loop tail k saved s) (omega arith))
read_loop_full (c ∷ cs) tail n saved s full h small =
    let (s', done, e) =
      read_loop_full cs tail (n + length c) saved (write s c) full.1 (write-IsAtEnd s c h).1
        (omega (arith, length-append c (joined cs))) in
    (
      s',
      Appended-write s c (joined cs) s' h done,
      read_loop-full c (map got cs ++ tail) n saved s full.0
            (omega (arith, length-append c (joined cs)))
          ∙ e
          ∙ ap (λ k. read_loop tail k saved s') (omega (arith, length-append c (joined cs))),
    )

-- A short answer ends the loop: stored, unless there is none of it.
read_loop-short :
    (last : List ℕ) (tail : List Recv) (n : ℕ) (saved : ℤ) (s : Stream)
    → length last < chunk
    → IsAtEnd s
    → n + length last < int_limit
    → (s' : Stream) × Appended s last s'
      × (read_loop (got last ∷ tail) n saved s ≡ ok (pos (n + length last), saved, s', tail))
unfolding read_loop
read_loop-short [] tail n saved s short h small =
    (s, (sym (append-nil (to_string s)), h), ap (λ k. ok (pos k, saved, s, tail)) (omega arith))
read_loop-short (b ∷ c) tail n saved s short h small = (
  write s (b ∷ c),
  write-IsAtEnd s (b ∷ c) h,
  rw (add_int_small n (length (b ∷ c)) small) (ground arith),
)

-- For a buffer with its put position at the end, and any number of answers of `::recv` of exactly
-- 65536 bytes followed by a shorter or empty one, of less than INT_MAX + 1 bytes together: `read`
-- returns their number, all of them are appended to the buffer, in order, and the answers that
-- follow and `sava_errno` are left as they were.
pub read_complete :
    (cs : List (List ℕ)) (last : List ℕ) (tail : List Recv) (saved : ℤ) (s : Stream)
    → AllFull cs
    → length last < chunk
    → IsAtEnd s
    → length (joined cs ++ last) < int_limit
    → (s' : Stream) × Appended s (joined cs ++ last) s'
      × (read (map got cs ++ got last ∷ tail) saved s
          ≡ ok (pos (length (joined cs ++ last)), saved, s', tail))
unfolding read
read_complete cs last tail saved s full short h small =
    let total = length-append (joined cs) last in
    let (s1, (e1, h1), r1) =
      read_loop_full cs (got last ∷ tail) 0 saved s full h (omega (arith, total)) in
    let (s2, (e2, h2), r2) =
      read_loop-short last tail (0 + length (joined cs)) saved s1 short h1 (omega (arith, total)) in
    (
      s2,
      (e2 ∙ ap (λ t. t ++ last) e1 ∙ append_assoc (to_string s) (joined cs) last, h2),
      r1 ∙ r2 ∙ ap (λ k. ok (pos k, saved, s2, tail)) (omega (arith, total)),
    )

-- Full answers followed by an error, be it only that nothing more is there yet: `read` returns -1
-- with the error's number, though the bytes received are in the buffer.
pub read_failed :
    (cs : List (List ℕ)) (errno : ℤ) (tail : List Recv) (saved : ℤ) (s : Stream)
    → AllFull cs
    → IsAtEnd s
    → length (joined cs) < int_limit
    → (s' : Stream) × Appended s (joined cs) s'
      × (read (map got cs ++ failed errno ∷ tail) saved s ≡ ok (negsuc 0, errno, s', tail))
unfolding read read_loop
read_failed cs errno tail saved s full h small =
    read_loop_full cs (failed errno ∷ tail) 0 saved s full h (omega arith)
