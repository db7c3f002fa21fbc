-- ===== src/ThreadPool/RoundRobin.antt =====
-- How `get_loop` of src/net/thpool_service_loop.cc shares the loops out.
use libolptnet.Base.{
  ℕ, zero, suc, ◌+◌, ◌*◌, ◌%◌, ◌<◌, pos, int_limit, add_int_small, ok, Returns, length, get_elem?,
  is_empty, length-append, Bool-cases, ◌≡◌, refl, sym, ap, ◌∙◌, ◌⊎◌, inl, inr, true, false, some,
  List, [], ◌∷◌, ◌++◌, append-nil, append_assoc, arith,
}
use mathlib.Core.Path.{subst}
use libolptnet.ThreadPool.{
  ThpoolServiceLoop, init, set_thread_num, open_loops, open_pool, close_pool, at, get_loop,
  get_loops,
}

open_loops-length :
    (start_loop : ℕ → ℕ) (left i : ℕ) (loops : List ℕ)
    → length (open_loops start_loop left i loops) ≡ length loops + left
unfolding open_loops
open_loops-length start_loop zero i loops = omega arith
open_loops-length start_loop (suc left) i loops = omega (
  arith,
  open_loops-length start_loop left (i + 1) (loops ++ start_loop i ∷ []),
  length-append loops (start_loop i ∷ []),
)

-- `open` of a new pool starts as many loops as `set_thread_num` was asked for, which is a positive
-- number, and after `close` `get_loop` returns the base loop and leaves the index.
pub open_pool_lem :
    (start_loop : ℕ → ℕ) (base n index : ℕ)
    → (length (open_pool start_loop (set_thread_num (init base) (pos (suc n)))).ev_loops ≡ suc n)
      × (get_loop
            (close_pool (open_pool start_loop (set_thread_num (init base) (pos (suc n)))))
            index
          ≡ ok (base, index))
unfolding open_pool set_thread_num close_pool get_loop
open_pool_lem start_loop base n index =
    (open_loops-length start_loop (suc n) 0 [] ∙ omega arith, refl)

at-append : (xs : List ℕ) (y : ℕ) (ys : List ℕ) → at (xs ++ y ∷ ys) (length xs) ≡ ok y
at-append [] y ys = refl
at-append (x ∷ xs) y ys = at-append xs y ys

is_empty-append_cons : (xs : List ℕ) (y : ℕ) (ys : List ℕ) → is_empty (xs ++ y ∷ ys) ≡ false
is_empty-append_cons [] y ys = refl
is_empty-append_cons (x ∷ xs) y ys = refl

index_mod : (k n m : ℕ) → m < n → (k * n + m) % n ≡ m
index_mod k n m h = grind arith

get_loop_at :
    (p : ThpoolServiceLoop) (xs : List ℕ) (y : ℕ) (ys : List ℕ) (k : ℕ)
    → p.ev_loops ≡ xs ++ y ∷ ys
    → k * length p.ev_loops + length xs + 1 < int_limit
    → get_loop p (k * length p.ev_loops + length xs) ≡ ok (y, k * length p.ev_loops + length xs + 1)
unfolding get_loop
get_loop_at p xs y ys k e h =
    let m =
      index_mod k (length p.ev_loops) (length xs)
        (omega (arith, ap length e, length-append xs (y ∷ ys))) in
    rw (ap is_empty e ∙ is_empty-append_cons xs y ys) (
      rw (add_int_small (k * length p.ev_loops + length xs) 1 h)
        (rw (ap (at p.ev_loops) m ∙ ap (λ q. at q (length xs)) e ∙ at-append xs y ys) refl))

get_loops_from :
    (p : ThpoolServiceLoop) (xs ys : List ℕ) (k index : ℕ)
    → p.ev_loops ≡ xs ++ ys
    → index ≡ k * length p.ev_loops + length xs
    → k * length p.ev_loops + length p.ev_loops < int_limit
    → get_loops p (length ys) index ≡ ok (ys, k * length p.ev_loops + length p.ev_loops)
unfolding get_loops
get_loops_from p xs [] k index e i h =
    ap (λ q. ok ([], q)) (omega (arith, ap length (e ∙ append-nil xs)))
get_loops_from p xs (y ∷ ys) k index e i h =
    rw
      (ap (get_loop p) i
        ∙ get_loop_at p xs y ys k e (omega (arith, ap length e, length-append xs (y ∷ ys))))
      (rw
        (get_loops_from p (xs ++ y ∷ []) ys k (k * length p.ev_loops + length xs + 1)
          (e ∙ sym (append_assoc xs (y ∷ []) ys)) (omega (arith, length-append xs (y ∷ []))) h)
        refl)

-- Where the index does not reach INT_MAX + 1, as many calls of `get_loop` as there are loops,
-- beginning at a multiple of that number, return every loop once, in order, and leave the index at
-- the next multiple.
pub get_loops_round :
    (p : ThpoolServiceLoop) (k : ℕ)
    → k * length p.ev_loops + length p.ev_loops < int_limit
    → get_loops p (length p.ev_loops) (k * length p.ev_loops)
      ≡ ok (p.ev_loops, k * length p.ev_loops + length p.ev_loops)
get_loops_round p k h =
    get_loops_from p [] p.ev_loops k (k * length p.ev_loops) refl (omega arith) h

at-some :
    (xs : List ℕ) (i : ℕ) → i < length xs → (x : ℕ) × (at xs i ≡ ok x) × (get_elem? xs i ≡ some x)
at-some [] i h = absurd (omega arith)
at-some (x ∷ xs) zero h = (x, refl, refl)
at-some (x ∷ xs) (suc i) h = at-some xs i (omega arith)

index_below : (xs : List ℕ) (i : ℕ) → is_empty xs ≡ false → i % length xs < length xs
index_below [] i e = cc
index_below (x ∷ xs) i e = grind arith

-- The base loop where there is no other, and else the one at the index, modulo their number.
abbrev pub Chosen : ThpoolServiceLoop → ℕ → ℕ × ℕ → Type 0
Chosen p index (l, next) =
    ((p.ev_loops ≡ []) × (l ≡ p.base_loop) × (next ≡ index))
    ⊎ ((get_elem? p.ev_loops (index % length p.ev_loops) ≡ some l) × (next ≡ index + 1))

empty_list : (xs : List ℕ) → is_empty xs ≡ true → xs ≡ []
empty_list [] e = refl
empty_list (x ∷ xs) e = cc

-- While the index does not overflow, a call returns one of the loops.
pub get_loop-Chosen :
    (p : ThpoolServiceLoop) (index : ℕ)
    → index + 1 < int_limit
    → Returns (Chosen p index) (get_loop p index)
unfolding get_loop
get_loop-Chosen p index h = elim (Bool-cases (is_empty p.ev_loops)) [
  | inl e ↦ rw (e, get_loop) (inl (empty_list p.ev_loops e, refl, refl))
  | inr e ↦
      let (l, found, there) =
        at-some p.ev_loops (index % length p.ev_loops) (index_below p.ev_loops index e) in
      subst (Returns (Chosen p index)) (sym (picked l e found)) (inr (there, refl))
]
  where
    picked :
        (l : ℕ)
        → is_empty p.ev_loops ≡ false
        → at p.ev_loops (index % length p.ev_loops) ≡ ok l
        → get_loop p index ≡ ok (l, index + 1)
    picked l e found = rw e (rw (add_int_small index 1 h) (rw found refl))
