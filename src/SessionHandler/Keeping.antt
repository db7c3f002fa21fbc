-- ===== src/SessionHandler/Keeping.antt =====
-- What `session_handler` of src/example/example-1.cc leaves of its registration.
use libolptnet.Base.{Returns-Safe, ℤ, Safe->>=}
use libolptnet.Connection.{LoopOps, Connection, send}
use libolptnet.Connection.Writing.{LoopLaws}
use libolptnet.Connection.Surviving.{Remains, ReadsSafely, send-Remains}
use libolptnet.SessionHandler.{on_read}

module _ {L : Type 0} (ops : LoopOps L) (laws : LoopLaws ops) where
  -- `on_read` keeps the handle registered.
  pub on_read-ReadsSafely : (Gone : L → ℤ → Type 0) → ReadsSafely ops laws Gone (on_read ops)
  unfolding on_read
  on_read-ReadsSafely Gone bytes c l k =
      Safe->>= (λ (r : ℤ × Connection × L). Remains ops laws c.handle r.1 r.2)
        (λ (r : Connection × L). Remains ops laws c.handle r.0 r.1) (send ops bytes (c, l)) _
        (Returns-Safe (λ (r : Connection × L). Remains ops laws c.handle r.0 r.1)
          (send ops bytes (c, l)) (send-Remains ops laws bytes c l k))
        (λ r g. g)
