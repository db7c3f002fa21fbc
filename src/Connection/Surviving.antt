-- ===== src/Connection/Surviving.antt =====
-- What the handlers of src/net/connection_handler.cc leave of their registration, whatever the
-- system answers.
use libolptnet.Base.{
  Returns-Safe, ℕ, zero, suc, ◌+◌, ◌<◌, ℤ, pos, negsuc, ◌==ℤ◌, ==ℤ_refl, is_positive, int_limit,
  as_int, add_int_small, Outcome, ok, ◌>>=◌, Returns, Returns-assert, Returns->>=, Returns-map,
  Returns-if, Safe, Safe-if, Safe->>=, length, take, is_empty, ltb, ◌≡◌, refl, Bool, true, false,
  Option, none, some, List, [], ◌∷◌, ◌++◌, arith,
}
use libolptnet.Buffer.{Stream, put, ignore, empty, to_string, write}
use libolptnet.Buffer.Read.{Recv, got, failed, read, read_loop, chunk}
use libolptnet.Connection.{
  LoopOps, Connection, SendAnswer, sent, interrupted, would_block, send_failed, watch, send, close,
  Written, write_loop, do_handle_write, after_read, do_handle_read, do_handle_error,
}
use libolptnet.Connection.Writing.{LoopLaws, watch_lem}

-- The bytes that `::recv` would store.
abbrev pub received : List Recv → ℕ
received [] = 0
received (failed errno ∷ answers) = received answers
received (got bytes ∷ answers) = length bytes + received answers

read_loop-Safe :
    (answers : List Recv) (n : ℕ) (saved : ℤ) (s : Stream)
    → n + received answers < int_limit
    → Safe (λ _. Unit {0}) (read_loop answers n saved s)
unfolding read_loop
read_loop-Safe [] n saved s h = tt
read_loop-Safe (failed errno ∷ answers) n saved s h = tt
read_loop-Safe (got bytes ∷ answers) n saved s h =
    Safe-if _ (is_empty bytes) _ _ (λ _. tt)
      (λ _. rw (add_int_small n (length bytes) (omega arith)) (
        Safe-if _ (ltb (length bytes) chunk) _ _ (λ _. tt)
          (λ _. read_loop-Safe answers (n + length bytes) saved (write s bytes) (omega arith))))

module _ {L : Type 0} (ops : LoopOps L) (laws : LoopLaws ops) where
  open laws use {Registered}

  -- The connection has the handle, which is registered.
  abbrev pub Remains : ℤ → Connection → L → Type 0
  Remains h c l = (c.handle ≡ h) × Registered l h

  pub send-Remains :
      (message : List ℕ) (c : Connection) (l : L)
      → Registered l c.handle
      → Returns (λ r. Remains c.handle r.0 r.1) (send ops message (c, l))
  unfolding send
  send-Remains message c l k =
      Returns-if _ (empty c.buffer_out) _ _
        (λ _.
          Returns->>= _ (λ (l' : L). Registered l' c.handle × (laws.writes l' c.handle ≡ true)) _ _
            (watch_lem ops laws (record c { buffer_out = put c.buffer_out message }) true l k)
            (λ l' k'. (refl, k'.0)))
        (λ _. (refl, k))

  watch-Registered :
      (c : Connection) (w : Bool) (l : L)
      → Registered l c.handle
      → Safe (λ l'. Registered l' c.handle) (watch ops c w l)
  watch-Registered c w l k =
      Returns-Safe (λ l'. Registered l' c.handle) (watch ops c w l)
        (Returns-map (λ l'. Registered l' c.handle)
          (λ l'. Registered l' c.handle × (laws.writes l' c.handle ≡ w)) (watch ops c w l)
          (watch_lem ops laws c w l k) (λ l' k'. k'.0))

  write_loop-Remains :
      (answers : List SendAnswer) (wire : List ℕ) (c : Connection) (l : L)
      → Registered l c.handle
      → Safe (λ (r : Written ops). Remains c.handle r.1 r.2) (write_loop ops answers wire c l)
  unfolding write_loop
  write_loop-Remains [] wire c l k = Safe-if _ (empty c.buffer_out) _ _ (λ _. (refl, k)) (λ _. tt)
  write_loop-Remains (interrupted ∷ answers) wire c l k =
      Safe-if _ (empty c.buffer_out) _ _ (λ _. (refl, k))
        (λ _. write_loop-Remains answers wire c l k)
  write_loop-Remains (would_block ∷ answers) wire c l k = (refl, k)
  write_loop-Remains (send_failed errno ∷ answers) wire c l k = (refl, k)
  write_loop-Remains (sent zero ∷ answers) wire c l k = (refl, k)
  write_loop-Remains (sent (suc n) ∷ answers) wire c l k =
      let c' : Connection = record c { buffer_out = ignore c.buffer_out (as_int (suc n)) } in
      Safe-if _ (empty c.buffer_out) _ _ (λ _. (refl, k))
        (λ _.
          Safe-if _ (empty c'.buffer_out) _ _
            (λ _.
              Safe->>= _ (λ (l' : L). Registered l' c.handle) _ _ (watch-Registered c' false l k)
                (λ l' k'.
                  write_loop-Remains answers (wire ++ take (suc n) (to_string c.buffer_out)) c' l'
                    k'))
            (λ _.
              write_loop-Remains answers (wire ++ take (suc n) (to_string c.buffer_out)) c' l k))

  pub do_handle_write-Remains :
      (answers : List SendAnswer) (c : Connection) (l : L)
      → Registered l c.handle
      → Safe (λ (r : Written ops). Remains c.handle r.1 r.2) (do_handle_write ops answers (c, l))
  unfolding do_handle_write
  do_handle_write-Remains answers c l k = write_loop-Remains answers [] c l k

  module _ (Gone : L → ℤ → Type 0) where
    -- The loop does not refuse to delete a handle that is registered.
    abbrev pub Deletable : Type 0
    Deletable =
        (l : L) (h : ℤ)
        → Registered l h
        → (is_positive h ≡ true) × Returns (λ r. (r.0 ≡ pos 0) × Gone r.1 h) (ops.delete_event l h)

    -- The object and its registration are there, or both are gone.
    abbrev pub Survives : ℤ → Option Connection × L → Type 0
    Survives h (none, l) = Gone l h
    Survives h (some c, l) = Remains h c l

    close-Gone :
        Deletable
        → (c : Connection) (l : L) → Registered l c.handle
        → Returns (λ l'. Gone l' c.handle) (close ops (c, l))
    unfolding close
    close-Gone deletes c l k =
        let (positive, gone) = deletes l c.handle k in
        rw positive (
          Returns->>= _ (λ (r : ℤ × L). (r.0 ≡ pos 0) × Gone r.1 c.handle) _ _ gone
            (λ (r : ℤ × L) g.
              Returns-assert _ (r.0 ==ℤ pos 0) (ok r.1) (rw g.0 (==ℤ_refl (pos 0))) g.1))

    closed-Survives :
        Deletable
        → (c : Connection) (l : L) → Registered l c.handle
        → Safe (Survives c.handle) (close ops (c, l) >>= λ l'. ok (none, l'))
    closed-Survives deletes c l k =
        Safe->>= (Survives c.handle) (λ l'. Gone l' c.handle) (close ops (c, l))
          (λ l'. ok (none, l'))
          (Returns-Safe (λ l'. Gone l' c.handle) (close ops (c, l)) (close-Gone deletes c l k))
          (λ l' g. g)

    pub do_handle_error-Survives :
        Deletable
        → (c : Connection) (l : L) → Registered l c.handle
        → Safe (Survives c.handle) (do_handle_error ops (c, l))
    unfolding do_handle_error
    do_handle_error-Survives deletes c l k = closed-Survives deletes c l k

    -- A subclass whose `on_read` keeps the handle registered.
    abbrev pub ReadsSafely : (List ℕ → Connection × L → Outcome (ℤ × Connection × L)) → Type 0
    ReadsSafely on_read =
        (bytes : List ℕ) (c : Connection) (l : L)
        → Registered l c.handle
        → Safe (λ (r : ℤ × Connection × L). Remains c.handle r.1 r.2) (on_read bytes (c, l))

    after_read-Survives :
        Deletable
        → (on_read : List ℕ → Connection × L → Outcome (ℤ × Connection × L)) → ReadsSafely on_read
        → (ret : ℤ) (c : Connection) (l : L) → Registered l c.handle
        → Safe (Survives c.handle) (after_read ops on_read ret (c, l))
    after_read-Survives deletes on_read safe (pos zero) c l k = closed-Survives deletes c l k
    after_read-Survives deletes on_read safe (negsuc n) c l k = closed-Survives deletes c l k
    after_read-Survives deletes on_read safe (pos (suc n)) c l k =
        Safe->>= (Survives c.handle) (λ (r : ℤ × Connection × L). Remains c.handle r.1 r.2)
          (on_read (to_string c.buffer_in) (c, l)) _ (safe (to_string c.buffer_in) c l k) (λ r g. g)

    pub do_handle_read-Survives :
        Deletable
        → (on_read : List ℕ → Connection × L → Outcome (ℤ × Connection × L)) → ReadsSafely on_read
        → (answers : List Recv) (c : Connection) (l : L) → received answers < int_limit
        → Registered l c.handle
        → Safe (Survives c.handle) (do_handle_read ops on_read answers (c, l))
    unfolding do_handle_read read
    do_handle_read-Survives deletes on_read safe answers c l small k =
        Safe->>= (Survives c.handle) (λ _. Unit {0}) (read answers (pos 0) c.buffer_in) _
          (read_loop-Safe answers 0 (pos 0) c.buffer_in (omega arith))
          (λ (r : ℤ × ℤ × Stream × List Recv) _.
            after_read-Survives deletes on_read safe r.0 (record c { buffer_in = r.2 }) l k)
