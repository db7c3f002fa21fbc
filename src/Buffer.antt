-- ===== src/Buffer.antt =====
-- src/net/stream_buffer.h and src/net/stream_buffer.cc.
-- A `std::stringstream` open for input and output is its text and its put position. `str()` reads
-- the text, `str(s)` replaces it and puts the position at the front (the stream is not opened with
-- `ios::ate`), and `write` overwrites from the position on. A byte is any number.
pub mod Read
pub mod Contents
use libolptnet.Base.{
  ℕ, ◌+◌, ℤ, pos, negsuc, as_int, leb_ℤ, is_nonneg, Bool, ◌&&◌, List, [], ◌++◌, length, take, drop,
  is_empty, if◌then◌else◌,
}

-- `std::stringstream stream_`.
pub record Stream : Type 0 where
  pub text : List ℕ
  pub put_at : ℕ

abbrev pub empty_stream : Stream
empty_stream = record { text = []; put_at = 0 }

-- `stream_.str(s)`.
abbrev pub set_str : List ℕ → Stream
set_str s = record { text = s; put_at = 0 }

-- `stream_.write(ptr, n)`.
pub write : Stream → List ℕ → Stream
write s bs = record {
  text = take s.put_at s.text ++ (bs ++ drop (s.put_at + length bs) s.text);
  put_at = s.put_at + length bs;
}

-- `stream_buffer::stream_buffer(const stream_buffer&)`.
pub copy : Stream → Stream
unfolding write
copy sb = write (set_str []) sb.text

abbrev pub to_string : Stream → List ℕ
to_string s = s.text

unfoldable pub clear : Stream → Stream
clear s = set_str []

abbrev count : ℤ → ℕ
count (pos n) = n
count (negsuc _) = 0

-- `count bytes` is `bytes`, which is not negative where `substr` runs.
unfoldable pub ignore : Stream → ℤ → Stream
ignore s bytes =
    if is_nonneg bytes && leb_ℤ bytes (as_int (length s.text))
    then set_str (drop (count bytes) s.text)
    else s

abbrev pub size : Stream → ℕ
size s = length s.text

-- `output_stream_buffer::empty`.
abbrev pub empty : Stream → Bool
empty s = is_empty s.text

-- Both overloads of `output_stream_buffer::put`; the bytes are the message's.
unfoldable pub put : Stream → List ℕ → Stream
unfolding write
put s msg = write s msg
