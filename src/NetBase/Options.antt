-- ===== src/NetBase/Options.antt =====
-- The functions of src/net/net_base.cc that set an option of a socket. `::fcntl`, `::setsockopt` and `::getsockopt`
-- are parameters.
pub mod Blocking
use libolptnet.Base.{
  ℕ, ℤ, pos, negsuc, ◌==ℤ◌, ◌==◌, if◌then◌else◌, Bool, true, false, ◌&&◌, Option, none, some,
}

-- What F_GETFL answers: O_NONBLOCK, and the other bits.
pub record FileFlags : Type 0 where
  pub nonblock : Bool
  pub others : ℕ

-- TCP_NODELAY of IPPROTO_TCP; SO_KEEPALIVE, SO_SNDBUF, SO_RCVBUF and SO_REUSEADDR of SOL_SOCKET.
pub data SocketOption : Type 0 where
  tcp_nodelay so_keepalive so_sndbuf so_rcvbuf so_reuseaddr : SocketOption

-- `get_flags` is none for -1. `getsockopt` gives its value, the option's, and the length that it has stored.
pub record Sockets (K : Type 0) : Type 0 where
  pub get_flags : K → ℤ → Option FileFlags
  pub set_flags : K → ℤ → FileFlags → ℤ × K
  pub setsockopt : K → ℤ → SocketOption → ℤ → ℤ × K
  pub getsockopt : K → ℤ → SocketOption → ℤ × ℤ × ℕ

-- `sizeof (int)`.
abbrev pub size_of_int : ℕ
size_of_int = 4

module _ {K : Type 0} (sys : Sockets K) where
  open sys use {get_flags, set_flags, setsockopt, getsockopt}

  pub net_set_nonblock : ℤ → K → ℤ × K
  net_set_nonblock fd k = elim (get_flags k fd) [
    | none ↦ (negsuc 0, k)
    | some flags ↦ set_flags k fd (record flags { nonblock = true })
  ]

  pub net_set_block : ℤ → K → ℤ × K
  net_set_block fd k = elim (get_flags k fd) [
    | none ↦ (negsuc 0, k)
    | some flags ↦ set_flags k fd (record flags { nonblock = false })
  ]

  unfoldable pub net_set_tcp_nodelay : ℤ → K → ℤ × K
  net_set_tcp_nodelay fd k = setsockopt k fd tcp_nodelay (pos 1)

  unfoldable pub net_set_keepalive : ℤ → K → ℤ × K
  net_set_keepalive fd k = setsockopt k fd so_keepalive (pos 1)

  pub net_set_send_buffer_size : ℤ → ℤ → K → ℤ × K
  net_set_send_buffer_size fd size k = setsockopt k fd so_sndbuf size

  pub net_set_recv_buffer_size : ℤ → ℤ → K → ℤ × K
  net_set_recv_buffer_size fd size k = setsockopt k fd so_rcvbuf size

  -- The test of both functions that follow.
  abbrev pub size_answer : ℤ × ℤ × ℕ → ℤ
  size_answer (ret, size, len) = if (ret ==ℤ pos 0) && (len == size_of_int) then size else negsuc 0

  pub net_get_send_buffer_size : ℤ → K → ℤ
  net_get_send_buffer_size fd k = size_answer (getsockopt k fd so_sndbuf)

  pub net_get_recv_buffer_size : ℤ → K → ℤ
  net_get_recv_buffer_size fd k = size_answer (getsockopt k fd so_rcvbuf)

  unfoldable pub net_set_reuse_address : ℤ → K → ℤ × K
  net_set_reuse_address fd k = setsockopt k fd so_reuseaddr (pos 1)

  unfoldable pub net_clear_reuse_address : ℤ → K → ℤ × K
  net_clear_reuse_address fd k = setsockopt k fd so_reuseaddr (pos 0)
