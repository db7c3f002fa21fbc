-- ===== src/TcpConnector.antt =====
-- `tcp_connector` of src/client/main.cc. Its `send` and `recv` only pass on to the system, and `main` calls them for
-- ever.
pub mod Descriptors
use libolptnet.Base.{ℕ, ℤ, negsuc, is_positive, Outcome, ok, ◌>>=◌, Bool, false}
use libolptnet.Address.{SockaddrIn}
use libolptnet.NetBase.{World, ConnectAnswers, close_fd}
use libolptnet.NetBase.Resolve.{Host, Resolver, connect_host}

pub record TcpConnector : Type 0 where
  pub sock_fd : ℤ

unfoldable pub new_connector : TcpConnector
new_connector = record { sock_fd = negsuc 0 }

-- `connect`, whose descriptor from an earlier call is not closed.
pub connect :
    Resolver
    → Host
    → ℕ
    → SockaddrIn
    → (SockaddrIn → ConnectAnswers)
    → TcpConnector × World
    → Outcome (Bool × TcpConnector × World)
connect resolver ipaddr port addr answers (c, w) =
    connect_host resolver ipaddr port addr answers false w >>= λ r.
    ok (is_positive r.0, record c { sock_fd = r.0 }, r.1)

pub close : TcpConnector → World → World
close c w = close_fd c.sock_fd w
