-- ===== src/Connection/Sending.antt =====
-- `send` in src/net/connection_handler.cc.
use libolptnet.Base.{
  ℕ, zero, suc, ℤ, ok, ◌>>=◌, Returns, Returns->>=, Returns-if, is_empty, ◌≡◌, refl, sym, ap, ◌∙◌,
  true, false, ◌&&◌, not, List, [], ◌∷◌, ◌++◌, append-nil, arith,
}
use libolptnet.Buffer.{put}
use libolptnet.Buffer.Contents.{IsAtEnd, put-IsAtEnd}
use libolptnet.Connection.{
  LoopOps, Connection, SendAnswer, sent, interrupted, would_block, send_failed, watch, send,
  write_loop, do_handle_write,
}
use libolptnet.Connection.Writing.{LoopLaws, IsArmed, watch_lem}

is_empty-append : (xs ys : List ℕ) → is_empty (xs ++ ys) ≡ (is_empty xs && is_empty ys)
is_empty-append [] ys = ground arith
is_empty-append (x ∷ xs) ys = refl

module _ {L : Type 0} (ops : LoopOps L) (laws : LoopLaws ops) where
  open laws use {Registered, writes}

  -- The message stands behind what was to be sent already, and the handle is watched for writing.
  abbrev pub Queued : Connection → List ℕ → Connection × L → Type 0
  Queued c message (c', l') =
      (c'.buffer_out.text ≡ c.buffer_out.text ++ message)
      × IsAtEnd c'.buffer_out
      × IsArmed ops laws c' l'
      × (c'.handle ≡ c.handle)
      × (c'.buffer_in ≡ c.buffer_in)

  abbrev with_message : Connection → List ℕ → Connection
  with_message c message = record c { buffer_out = put c.buffer_out message }

  -- Over a loop that never refuses `modify_event` of a registered handle: while the put position is
  -- at the end of the buffer, and the handle is registered and watched for writing exactly if the
  -- buffer is not empty, `send` of a message that is not empty returns; the message stands behind
  -- the bytes of the buffer, with the put position at the end, the handle is watched for writing,
  -- and the connection's handle and its input buffer are as they were.
  pub send-Queued :
      (message : List ℕ) (c : Connection) (l : L)
      → is_empty message ≡ false
      → IsAtEnd c.buffer_out
      → IsArmed ops laws c l
      → Returns (Queued c message) (send ops message (c, l))
  unfolding send
  send-Queued message c l filled end a =
      let (text, end') = put-IsAtEnd c.buffer_out message end in
      let full : is_empty (put c.buffer_out message).text ≡ false =
        ap is_empty text ∙ is_empty-append c.buffer_out.text message ∙ ground arith in
      Returns-if _ (is_empty c.buffer_out.text) _ _
        (λ e.
          Returns->>= _ (λ l'. Registered l' c.handle × (writes l' c.handle ≡ true))
            (watch ops (with_message c message) true l) _
            (watch_lem ops laws (with_message c message) true l a.known)
            (λ l' k.
              (text, end', record { known = k.0; armed = k.1 ∙ ap not (sym full) }, refl, refl)))
        (λ e. (
          text,
          end',
          record { known = a.known; armed = a.armed ∙ ap not (e ∙ sym full) },
          refl,
          refl,
        ))

  write_loop_idle :
      (answers : List SendAnswer) (wire : List ℕ) (c : Connection) (l : L)
      → is_empty c.buffer_out.text ≡ true
      → write_loop ops answers wire c l ≡ ok (wire, c, l, answers)
  unfolding write_loop
  write_loop_idle [] wire c l e = rw e refl
  write_loop_idle (interrupted ∷ rest) wire c l e = rw e refl
  write_loop_idle (would_block ∷ rest) wire c l e = rw e refl
  write_loop_idle (send_failed errno ∷ rest) wire c l e = rw e refl
  write_loop_idle (sent zero ∷ rest) wire c l e = rw e refl
  write_loop_idle (sent (suc k) ∷ rest) wire c l e = rw e refl

  abbrev Idle : ℤ → Connection × L → Type 0
  Idle h (c, l) = (c.buffer_out.text ≡ []) × (writes l h ≡ true)

  send_empty :
      (c : Connection) (l : L)
      → c.buffer_out.text ≡ []
      → IsAtEnd c.buffer_out
      → Registered l c.handle
      → Returns (Idle c.handle) (send ops [] (c, l))
  unfolding send
  send_empty c l nothing end g =
      Returns-if _ (is_empty c.buffer_out.text) _ _
        (λ _.
          Returns->>= _ (λ l'. Registered l' c.handle × (writes l' c.handle ≡ true))
            (watch ops (with_message c []) true l) _
            (watch_lem ops laws (with_message c []) true l g)
            (λ l' k.
              ((put-IsAtEnd c.buffer_out [] end).0 ∙ append-nil c.buffer_out.text ∙ nothing, k.1)))
        (λ e. cc (e, ap is_empty nothing))

  -- With an empty buffer whose put position is at the end, and a registered handle, `send` of an
  -- empty message and then `do_handle_write` return; nothing was handed over, the buffer is empty,
  -- and the handle is watched for writing.
  pub send_empty_spins :
      (answers : List SendAnswer) (c : Connection) (l : L)
      → c.buffer_out.text ≡ []
      → IsAtEnd c.buffer_out
      → Registered l c.handle
      → Returns
          (λ r. (r.0 ≡ []) × (r.1.buffer_out.text ≡ []) × (writes r.2 c.handle ≡ true))
          (send ops [] (c, l) >>= do_handle_write ops answers)
  unfolding do_handle_write
  send_empty_spins answers c l nothing end g =
      Returns->>= _ (Idle c.handle) (send ops [] (c, l)) _ (send_empty c l nothing end g)
        (λ (s : Connection × L) k.
          rw (write_loop_idle answers [] s.0 s.1 (ap is_empty k.0)) (refl, k.0, k.1))
