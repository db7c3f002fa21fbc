-- ===== src/ServiceHandler/Echo.antt =====
-- The example server of src/example/service_handler.cc on top of src/net/connection_handler.cc.
use libolptnet.Base.{
  Returns-Safe, Safe->>=, ℕ, ◌+◌, ◌<◌, ℤ, int_limit, as_int, ok, ◌>>=◌, Returns, Returns->>=,
  Returns-map, length, is_empty, length-append, ◌≡◌, refl, ap, ◌∙◌, false, Option, none, some, List,
  [], ◌∷◌, ◌++◌, arith,
}
use mathlib.Core.List.{map}
use libolptnet.Buffer.{Stream, ignore, set_str}
use libolptnet.Buffer.Contents.{IsAtEnd, ignore_all}
use libolptnet.Buffer.Read.{Recv, got, chunk}
use libolptnet.Buffer.Read.Complete.{joined, AllFull}
use libolptnet.Connection.{send, LoopOps, Connection, do_handle_read}
use libolptnet.Connection.Writing.{LoopLaws, IsArmed}
use libolptnet.Connection.Sending.{Queued, send-Queued}
use libolptnet.Connection.Reading.{do_handle_read_delivers}
use libolptnet.Connection.Surviving.{Remains, ReadsSafely, send-Remains}
use libolptnet.ServiceHandler.{newline, on_read}

module _ {L : Type 0} (ops : LoopOps L) (laws : LoopLaws ops) where
  -- The input is used up, and stands behind what was to be sent, with a newline.
  abbrev pub Echoed : Connection → List ℕ → Option Connection × L → Type 0
  Echoed c bytes (none, l') = ⊥
  Echoed c bytes (some c', l') =
      (c'.buffer_in.text ≡ [])
      × IsAtEnd c'.buffer_in
      × (c'.buffer_out.text ≡ c.buffer_out.text ++ ((c.buffer_in.text ++ bytes) ++ newline ∷ []))
      × IsAtEnd c'.buffer_out
      × IsArmed ops laws c' l'
      × (c'.handle ≡ c.handle)

  -- The same, for what the input buffer holds.
  abbrev Answered : Connection → Option Connection × L → Type 0
  Answered c (none, l') = ⊥
  Answered c (some c', l') =
      (c'.buffer_in.text ≡ [])
      × IsAtEnd c'.buffer_in
      × (c'.buffer_out.text ≡ c.buffer_out.text ++ (c.buffer_in.text ++ newline ∷ []))
      × IsAtEnd c'.buffer_out
      × IsArmed ops laws c' l'
      × (c'.handle ≡ c.handle)

  on_read-Answered :
      (c : Connection) (l : L)
      → IsAtEnd c.buffer_out
      → length c.buffer_in.text < int_limit
      → IsArmed ops laws c l
      → Returns (Answered c) (
          on_read ops c.buffer_in.text (c, l) >>= λ r.
          ok (some (record r.1 { buffer_in = ignore r.1.buffer_in r.0 }), r.2))
  unfolding on_read
  on_read-Answered c l end small armed =
      let message : List ℕ = c.buffer_in.text ++ newline ∷ [] in
      Returns->>= (Answered c)
        (λ (r : ℤ × Connection × L).
          (r.0 ≡ as_int (length c.buffer_in.text)) × Queued ops laws c message (r.1, r.2))
        _ _
        (Returns->>= _ (Queued ops laws c message) _ _
          (send-Queued ops laws message c l (filled c.buffer_in.text) end armed)
          (λ (r : Connection × L) k. (refl, k)))
        (λ (r : ℤ × Connection × L) k.
          let (text, end', armed', same, input) = k.1 in
          let used : ignore r.1.buffer_in r.0 ≡ set_str [] =
            ap (ignore r.1.buffer_in) k.0
            ∙ ap (λ b. ignore b (as_int (length c.buffer_in.text))) input
            ∙ ignore_all c.buffer_in small in
          (
            ap (λ b. b.text) used,
            rw used refl,
            text,
            end',
            record { known = armed'.known; armed = armed'.armed },
            same,
          ))
    where
      filled : (xs : List ℕ) → is_empty (xs ++ newline ∷ []) ≡ false
      filled [] = refl
      filled (x ∷ xs) = refl

  -- Over a loop that never refuses `modify_event` of a registered handle: for a connection of the
  -- example server with both put positions at the end, registered and watched for writing exactly
  -- if bytes are to be sent, and answers of `::recv` of exactly 65536 bytes followed by a shorter
  -- or empty one, which together are not empty and with the bytes already in the input buffer are
  -- less than INT_MAX + 1: `do_handle_read` returns without closing; the input buffer is empty, and
  -- its bytes, with those received, stand behind the output buffer's, followed by a newline, both
  -- put positions at the end again; the handle is the same, registered, and watched for writing
  -- exactly if bytes are to be sent.
  pub echo :
      (cs : List (List ℕ)) (last : List ℕ) (tail : List Recv) (c : Connection) (l : L)
      → AllFull cs
      → length last < chunk
      → is_empty (joined cs ++ last) ≡ false
      → IsAtEnd c.buffer_in
      → IsAtEnd c.buffer_out
      → length c.buffer_in.text + length (joined cs ++ last) < int_limit
      → IsArmed ops laws c l
      → Returns
          (Echoed c (joined cs ++ last))
          (do_handle_read ops (on_read ops) (map got cs ++ got last ∷ tail) (c, l))
  echo cs last tail c l full short some_read at_end at_end_out small armed =
      let (s, (text, end), e) =
        do_handle_read_delivers ops (on_read ops) cs last tail c l full short at_end
          (omega arith) in
      rw e (
        rw some_read (
          Returns-map _ (Answered (record c { buffer_in = s })) _
            (on_read-Answered (record c { buffer_in = s }) l at_end_out
              (omega (arith, ap length text, length-append c.buffer_in.text (joined cs ++ last)))
              (record { known = armed.known; armed = armed.armed }))
            (echoed s text)))
    where
      echoed :
          (s : Stream)
          → s.text ≡ c.buffer_in.text ++ (joined cs ++ last)
          → (r : Option Connection × L) → Answered (record c { buffer_in = s }) r
          → Echoed c (joined cs ++ last) r
      echoed s text (none, l') k = k
      echoed s text (some c', l') k =
          (k.0, k.1, k.2 ∙ ap (λ t. c.buffer_out.text ++ (t ++ newline ∷ [])) text, k.3, k.4, k.5)

  -- `on_read` keeps the handle registered.
  pub on_read-ReadsSafely : (Gone : L → ℤ → Type 0) → ReadsSafely ops laws Gone (on_read ops)
  unfolding on_read
  on_read-ReadsSafely Gone bytes c l k =
      Safe->>= (λ (r : ℤ × Connection × L). Remains ops laws c.handle r.1 r.2)
        (λ (r : Connection × L). Remains ops laws c.handle r.0 r.1)
        (send ops (bytes ++ newline ∷ []) (c, l)) _
        (Returns-Safe (λ (r : Connection × L). Remains ops laws c.handle r.0 r.1)
          (send ops (bytes ++ newline ∷ []) (c, l))
          (send-Remains ops laws (bytes ++ newline ∷ []) c l k))
        (λ r g. g)
