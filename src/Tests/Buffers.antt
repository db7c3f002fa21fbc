-- ===== src/Tests/Buffers.antt =====
-- The theorems on src/net/stream_buffer.cc and src/base/functor.h, at concrete inputs.
use libolptnet.Base.{
  ℕ, ◌+◌, pos, as_int, ok, Returns, ◌==◌, if◌then◌else◌, ◌≡◌, refl, ◌≢◌, none, some, [], ◌∷◌, arith,
  true, false,
}
use libolptnet.Buffer.{Stream, to_string, ignore, put}
use libolptnet.Buffer.Contents.{put-ignore_corrupts}
use libolptnet.Buffer.Read.{got, failed, read}
use libolptnet.Buffer.Read.Complete.{Appended, read_complete}
use libolptnet.Functor.{Heap, impl_normal, assign, destroy}
use libolptnet.Functor.Calls.{assign_leaks}

abbrev three : Stream
three = record { text = 1 ∷ 2 ∷ 3 ∷ []; put_at = 3 }

abbrev moved : Stream
moved = record { text = 1 ∷ 2 ∷ 3 ∷ []; put_at = 0 }

put_runs : to_string (put (ignore three (pos 1)) (9 ∷ [])) ≡ 9 ∷ 3 ∷ []
unfolding put ignore as_int
put_runs = refl

put-ignore_corrupts_example : to_string (put (ignore three (pos 1)) (9 ∷ [])) ≢ 2 ∷ 3 ∷ 9 ∷ []
put-ignore_corrupts_example = put-ignore_corrupts three 1 9 [] (omega arith) (omega arith)

read_complete_example :
    (s' : Stream) × Appended three (7 ∷ 8 ∷ []) s'
    × (read (got (7 ∷ 8 ∷ []) ∷ failed (pos 11) ∷ []) (pos 0) three
        ≡ ok (pos 2, pos 0, s', failed (pos 11) ∷ []))
read_complete_example =
    read_complete [] (7 ∷ 8 ∷ []) (failed (pos 11) ∷ []) (pos 0) three tt (omega arith) refl
      (omega arith)

abbrev heap : Heap ℕ ℕ ℕ
heap = record {
  next = 2;
  cell = λ p.
      if p == 0
      then some (impl_normal (λ n. n + 1) 4)
      else if p == 1
      then some (impl_normal (λ n. n + 2) 5)
      else none;
}

assign_leaks_example :
    Returns
      (λ r. (r.0 ≢ 0) × ((destroy r.0 r.1).cell 0 ≡ some (impl_normal (λ n. n + 1) 4)))
      (assign false 0 1 heap)
    × Returns
        (λ r. (r.0 ≡ 0) × (r.1 ≡ heap) × ((destroy r.0 r.1).cell 0 ≡ none))
        (assign true 0 0 heap)
assign_leaks_example =
    assign_leaks 0 1 (impl_normal (λ n. n + 1) 4) (impl_normal (λ n. n + 2) 5) heap (omega arith)
      refl refl
