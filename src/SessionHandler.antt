-- ===== src/SessionHandler.antt =====
-- `session_handler` of src/example/example-1.cc: the connection that sends back what it has read, as it is. Its
-- `on_accept` is in EventHandler.
pub mod Keeping
use libolptnet.Base.{ℕ, ℤ, Outcome, ok, ◌>>=◌, length, List, as_int}
use libolptnet.Connection.{LoopOps, Connection, send}

module _ {L : Type 0} (ops : LoopOps L) where
  -- `on_read`; the output to the console is left out.
  pub on_read : List ℕ → Connection × L → Outcome (ℤ × Connection × L)
  on_read input s = send ops input s >>= λ s'. ok (as_int (length input), s'.0, s'.1)
