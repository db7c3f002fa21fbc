-- ===== src/Buffer/Contents.antt =====
-- What the buffer does with its bytes: src/net/stream_buffer.h and src/net/stream_buffer.cc.
use libolptnet.Base.{
  ℕ, ◌+◌, ◌≤◌, ◌<◌, ◌≡◌, ◌≢◌, refl, ap, pos, negsuc, int_limit, as_int, as_int_small, le→leb, List,
  [], ◌∷◌, ◌++◌, append-nil, length, take, drop, length-append, length-drop, take-length, drop-ge,
  drop-drop, sym, ◌∙◌, arith,
}
use native.Mathlib.Nat.{zero-add}
use libolptnet.Buffer.{set_str, Stream, write, copy, to_string, ignore, put}

-- The put position is at the end, so that a write appends.
abbrev pub IsAtEnd : Stream → Type 0
IsAtEnd s = s.put_at ≡ length s.text

-- A write at the end appends, and leaves the position at the end.
pub write-IsAtEnd :
    (s : Stream) (bs : List ℕ)
    → IsAtEnd s
    → (to_string (write s bs) ≡ to_string s ++ bs) × IsAtEnd (write s bs)
unfolding write
write-IsAtEnd s bs h = (text, rw text (omega (arith, length-append s.text bs)))
  where
    text : take s.put_at s.text ++ (bs ++ drop (s.put_at + length bs) s.text) ≡ s.text ++ bs
    text =
        rw (h, take-length s.text, drop-ge (length s.text + length bs) s.text (omega arith))
          (ap (◌++◌ s.text) (append-nil bs))

pub put-IsAtEnd :
    (s : Stream) (msg : List ℕ)
    → IsAtEnd s
    → (to_string (put s msg) ≡ to_string s ++ msg) × IsAtEnd (put s msg)
unfolding put
put-IsAtEnd s msg h = write-IsAtEnd s msg h

-- A copy of a buffer holds the same bytes, and its put position is at the end, wherever the
-- original's is.
pub copy_lem : (s : Stream) → (to_string (copy s) ≡ to_string s) × IsAtEnd (copy s)
unfolding copy
copy_lem s = write-IsAtEnd (record { text = []; put_at = 0 }) s.text refl

ignore_lem :
    (s : Stream) (n : ℕ)
    → n ≤ length s.text
    → length s.text < int_limit
    → ignore s (pos n) ≡ set_str (drop n s.text)
unfolding ignore
ignore_lem s n h small =
    rw (as_int_small (length s.text) small) (rw (le→leb n (length s.text) h) refl)

-- `ignore` of no more bytes than a buffer shorter than INT_MAX + 1 holds drops exactly that many
-- from the front.
pub ignore-drop :
    (s : Stream) (n : ℕ)
    → n ≤ length s.text
    → length s.text < int_limit
    → to_string (ignore s (pos n)) ≡ drop n (to_string s)
ignore-drop s n h small = rw (ignore_lem s n h small)

-- `ignore` of all that is buffered leaves an empty buffer, with the put position at its end.
pub ignore_all :
    (s : Stream) → length s.text < int_limit → ignore s (as_int (length s.text)) ≡ set_str []
ignore_all s small =
    ap (ignore s) (as_int_small (length s.text) small)
    ∙ ignore_lem s (length s.text) (omega arith) small
    ∙ ap set_str (drop-ge (length s.text) s.text (omega arith))

-- Any other count leaves the buffer alone.
pub ignore_beyond :
    (s : Stream) (n : ℕ)
    → length s.text < n
    → length s.text < int_limit
    → (ignore s (pos n) ≡ s) × (ignore s (negsuc n) ≡ s)
unfolding ignore
ignore_beyond s n h small = rw (as_int_small (length s.text) small) (ground arith)

-- After `ignore` the next `put` starts at the front: it writes over what `ignore` has left, and only
-- what lies beyond the message's length stays.
pub put-ignore :
    (s : Stream) (n : ℕ) (msg : List ℕ)
    → n ≤ length s.text
    → length s.text < int_limit
    → to_string (put (ignore s (pos n)) msg) ≡ msg ++ drop (n + length msg) (to_string s)
unfolding put write
put-ignore s n msg h small =
    rw (ignore_lem s n h small) (rw (zero-add (length msg)) (rw (drop-drop (length msg) n s.text)))

-- After `ignore` of fewer bytes than a buffer shorter than INT_MAX + 1 holds, a message that is not
-- empty is not appended by `put` to the bytes that are left.
pub put-ignore_corrupts :
    (s : Stream) (n b : ℕ) (msg : List ℕ)
    → n < length s.text
    → length s.text < int_limit
    → to_string (put (ignore s (pos n)) (b ∷ msg)) ≢ drop n (to_string s) ++ b ∷ msg
put-ignore_corrupts s n b msg h small e = omega (
  arith,
  ap length (sym (put-ignore s n (b ∷ msg) (omega arith) small) ∙ e),
  length-append (b ∷ msg) (drop (n + length (b ∷ msg)) s.text),
  length-append (drop n s.text) (b ∷ msg),
  length-drop n s.text,
  length-drop (n + length (b ∷ msg)) s.text,
)
