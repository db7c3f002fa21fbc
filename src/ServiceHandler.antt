-- ===== src/ServiceHandler.antt =====
-- src/example/service_handler.cc: the connection of the example server, which sends back what it has read.
pub mod Echo
use libolptnet.Base.{ℕ, ◌+◌, ℤ, as_int, Outcome, ok, ◌>>=◌, ◌>>◌, length, List, [], ◌∷◌, ◌++◌}
use libolptnet.Connection.{LoopOps, Connection, send}

-- "\n".
abbrev pub newline : ℕ
newline = 10

module _ {L : Type 0} (ops : LoopOps L) where
  -- `on_read`; the output to the console is left out.
  pub on_read : List ℕ → Connection × L → Outcome (ℤ × Connection × L)
  on_read input s =
      send ops (input ++ newline ∷ []) s >>= λ s'. ok (as_int (length input), s'.0, s'.1)
