-- ===== src/Connection/Writing.antt =====
-- `do_handle_write` in src/net/connection_handler.cc: the bytes handed over and those left, and the
-- interest in writing.
use libolptnet.Base.{
  ℕ, zero, suc, ◌-◌, ◌≤◌, ◌<◌, ℤ, pos, ◌==ℤ◌, ==ℤ_refl, int_limit, as_int, as_int_small, ok, ◌>>=◌,
  Returns, Returns-assert, Returns->>=, Returns-map, Returns-if, length, take, drop, is_empty,
  take-append-drop, length-drop, if◌then◌else◌, ◌≡◌, refl, sym, ap, ◌∙◌, ◌⊎◌, inl, inr, Bool, true,
  false, not, List, [], ◌∷◌, ◌++◌, append_assoc, arith,
}
use mathlib.Core.Path.{subst}
use libolptnet.Buffer.{Stream, ignore}
use libolptnet.Buffer.Contents.{ignore-drop}
use libolptnet.Connection.{
  LoopOps, Connection, SendAnswer, sent, interrupted, would_block, send_failed, watch, Written,
  write_loop, do_handle_write,
}

-- What a connection relies on in its loop: a change of interest in a registered handle is not
-- refused, and takes effect.
pub record LoopLaws {L : Type 0} (ops : LoopOps L) : Type 1 where
  pub Registered : L → ℤ → Type 0
  pub writes : L → ℤ → Bool
  pub modify_lem :
      (l : L) (h : ℤ) (w : Bool)
      → Registered l h
      → Returns
          (λ r. (r.0 ≡ pos 0) × Registered r.1 h × (writes r.1 h ≡ w))
          (ops.modify_event l h true w)

-- The answers of `::send` to a buffer of so many bytes, up to the one at which the loop stops: never
-- more bytes than there are.
abbrev pub Serves : List SendAnswer → ℕ → Type 0
Serves [] n = n ≡ 0
Serves (interrupted ∷ rest) n = Serves rest n
Serves (would_block ∷ rest) n = Unit {0}
Serves (send_failed errno ∷ rest) n = Unit {0}
Serves (sent zero ∷ rest) n = Unit {0}
Serves (sent (suc k) ∷ rest) n = (n ≡ 0) ⊎ ((suc k ≤ n) × Serves rest (n - suc k))

is_empty-length : {A : Type 0} (xs : List A) → is_empty xs ≡ false → 0 < length xs
is_empty-length [] e = cc
is_empty-length (x ∷ xs) e = omega arith

is_empty-nil : {A : Type 0} (xs : List A) → length xs ≡ 0 → is_empty xs ≡ true
is_empty-nil [] e = refl
is_empty-nil (x ∷ xs) e = absurd (omega arith)

sent_text :
    (s : Stream) (k : ℕ)
    → suc k ≤ length s.text
    → length s.text < int_limit
    → (ignore s (as_int (suc k))).text ≡ drop (suc k) s.text
sent_text s k h small = rw (as_int_small (suc k) (omega arith)) (ignore-drop s (suc k) h small)

module _ {L : Type 0} (ops : LoopOps L) (laws : LoopLaws ops) where
  open laws use {Registered, writes}

  pub watch_lem :
      (c : Connection) (w : Bool) (l : L)
      → Registered l c.handle
      → Returns (λ l'. Registered l' c.handle × (writes l' c.handle ≡ w)) (watch ops c w l)
  unfolding watch
  watch_lem c w l g =
      Returns->>= _
        (λ (r : ℤ × L). (r.0 ≡ pos 0) × Registered r.1 c.handle × (writes r.1 c.handle ≡ w)) _ _
        (laws.modify_lem l c.handle w g)
        (λ (r : ℤ × L) k.
          Returns-assert _ (r.0 ==ℤ pos 0) (ok r.1) (rw k.0 (==ℤ_refl (pos 0))) (k.1, k.2))

  -- The handle is watched for writing exactly while there is something to write.
  pub record IsArmed (c : Connection) (l : L) : Type 0 where
    pub known : Registered l c.handle
    pub armed : writes l c.handle ≡ not (is_empty c.buffer_out.text)

  abbrev pub Conserves : List ℕ → Connection → Written ops → Type 0
  Conserves wire c (wire', c', l', answers) =
      (wire' ++ c'.buffer_out.text ≡ wire ++ c.buffer_out.text)
      × IsArmed c' l'
      × (c'.handle ≡ c.handle)

  abbrev shortened : Connection → ℕ → Connection
  shortened c k = record c { buffer_out = ignore c.buffer_out (as_int (suc k)) }

  rejoined :
      (wire : List ℕ) (c : Connection) (k : ℕ)
      → (ignore c.buffer_out (as_int (suc k))).text ≡ drop (suc k) c.buffer_out.text
      → (wire ++ take (suc k) c.buffer_out.text) ++ (ignore c.buffer_out (as_int (suc k))).text
        ≡ wire ++ c.buffer_out.text
  rejoined wire c k e = rw e (
      append_assoc wire (take (suc k) c.buffer_out.text) (drop (suc k) c.buffer_out.text)
      ∙ ap (λ t. wire ++ t) (take-append-drop (suc k) c.buffer_out.text))

  -- The interest is withdrawn when the buffer has become empty, and only then.
  after_sent :
      (rest : List SendAnswer) (wire : List ℕ) (c : Connection) (l : L)
      → Registered l c.handle
      → writes l c.handle ≡ true
      → ((l' : L) → IsArmed c l' → Returns (Conserves wire c) (write_loop ops rest wire c l'))
      → Returns (Conserves wire c) (
          if is_empty c.buffer_out.text
          then watch ops c false l >>= write_loop ops rest wire c
          else write_loop ops rest wire c l)
  after_sent rest wire c l g w go =
      Returns-if _ (is_empty c.buffer_out.text) _ _
        (λ e.
          Returns->>= _ (λ l'. Registered l' c.handle × (writes l' c.handle ≡ false))
            (watch ops c false l) _ (watch_lem c false l g)
            (λ l' k. go l' (record { known = k.0; armed = k.1 ∙ ap not (sym e) })))
        (λ e. go l (record { known = g; armed = w ∙ ap not (sym e) }))

  write_loop-Conserves :
      (answers : List SendAnswer) (wire : List ℕ) (c : Connection) (l : L)
      → Serves answers (length c.buffer_out.text)
      → length c.buffer_out.text < int_limit
      → IsArmed c l
      → Returns (Conserves wire c) (write_loop ops answers wire c l)
  unfolding write_loop
  write_loop-Conserves [] wire c l s small a = rw (is_empty-nil c.buffer_out.text s) (refl, a, refl)
  write_loop-Conserves (interrupted ∷ rest) wire c l s small a =
      Returns-if _ (is_empty c.buffer_out.text) _ _ (λ _. (refl, a, refl))
        (λ _. write_loop-Conserves rest wire c l s small a)
  write_loop-Conserves (would_block ∷ rest) wire c l s small a = (refl, a, refl)
  write_loop-Conserves (send_failed errno ∷ rest) wire c l s small a = (refl, a, refl)
  write_loop-Conserves (sent zero ∷ rest) wire c l s small a = (refl, a, refl)
  write_loop-Conserves (sent (suc k) ∷ rest) wire c l s small a =
      Returns-if _ (is_empty c.buffer_out.text) _ _ (λ _. (refl, a, refl))
        λ left'. elim s [
          | inl none_left ↦ cc (left', is_empty-nil c.buffer_out.text none_left)
          | inr (fits, serves) ↦
              let text = sent_text c.buffer_out k fits small in
              Returns-map _ (Conserves (wire ++ take (suc k) c.buffer_out.text) (shortened c k)) _
                (after_sent rest (wire ++ take (suc k) c.buffer_out.text) (shortened c k) l a.known
                  (a.armed ∙ ap not left')
                  (λ l' a'.
                    write_loop-Conserves rest (wire ++ take (suc k) c.buffer_out.text)
                      (shortened c k) l'
                      (subst (Serves rest)
                        (sym (length-drop (suc k) c.buffer_out.text) ∙ ap length (sym text)) serves)
                      (omega (arith, ap length text, length-drop (suc k) c.buffer_out.text)) a'))
                (λ r h. (h.0 ∙ rejoined wire c k text, h.1, h.2))
        ]

  -- Over a loop that never refuses `modify_event` of a registered handle: for a connection whose
  -- buffer is shorter than INT_MAX + 1, registered and watched for writing exactly if the buffer is
  -- not empty, and for answers of `::send` that never count more bytes than there are and that do
  -- not end before the loop does, `do_handle_write` returns; the bytes handed over followed by
  -- those left in the buffer are the bytes that were in the buffer, the handle is the same, and it
  -- is watched for writing exactly if some bytes are left.
  pub do_handle_write-Conserves :
      (answers : List SendAnswer) (c : Connection) (l : L)
      → Serves answers (length c.buffer_out.text)
      → length c.buffer_out.text < int_limit
      → IsArmed c l
      → Returns (Conserves [] c) (do_handle_write ops answers (c, l))
  unfolding do_handle_write
  do_handle_write-Conserves answers c l s small a = write_loop-Conserves answers [] c l s small a
