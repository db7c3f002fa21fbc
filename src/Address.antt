-- ===== src/Address.antt =====
-- src/net/tcp_socket_addr.h and src/net/tcp_socket_addr.cc: an address with its descriptor.
pub mod Port
pub mod Text
use libolptnet.Base.{ℕ, ◌+◌, ◌*◌, ◌/◌, ◌%◌, ℤ, negsuc, if◌then◌else◌, Bool, not, Option, none, some}

-- `struct sockaddr_in`, with the port in network order.
pub record SockaddrIn : Type 0 where
  pub sin_family : ℕ
  pub sin_port : ℕ
  pub sin_addr : ℕ

abbrev pub zeroed : SockaddrIn
zeroed = record { sin_family = 0; sin_port = 0; sin_addr = 0 }

pub record SocketAddress : Type 0 where
  pub socket_fd : ℤ
  pub addr : SockaddrIn

-- AF_INET.
abbrev pub af_inet : ℕ
af_inet = 2

-- `htons` and `ntohs` on a little-endian machine: the two bytes change places.
abbrev pub swap16 : ℕ → ℕ
swap16 n = (n % 256) * 256 + n / 256 % 256

-- `SocketAddress::SocketAddress()`.
unfoldable pub blank : SocketAddress
blank = record { socket_fd = negsuc 0; addr = zeroed }

-- `SocketAddress::SocketAddress(ipaddr, port)`, with what `inet_pton` stores, `none` for a text that
-- is no address. `(short) port` keeps the 16 bits.
pub from_ip : Option ℕ → ℕ → SocketAddress
from_ip parsed port = record {
  socket_fd = negsuc 0;
  addr = record {
    sin_family = af_inet;
    sin_port = swap16 port;
    sin_addr = elim parsed [ none ↦ 0 | some ip ↦ ip ];
  };
}

-- `SocketAddress::SocketAddress(socket_fd, addr)`.
unfoldable pub from_sockaddr : ℤ → SockaddrIn → SocketAddress
from_sockaddr fd addr = record { socket_fd = fd; addr = addr }

-- The copy constructor.
pub copy : SocketAddress → SocketAddress
copy other = record { socket_fd = other.socket_fd; addr = other.addr }

-- `operator=`; `same` says whether the two are one object.
unfoldable pub assign : Bool → SocketAddress → SocketAddress → SocketAddress
assign same this other =
    if not same then record { socket_fd = other.socket_fd; addr = other.addr } else this

pub set_fd : SocketAddress → ℤ → SocketAddress
set_fd a fd = record a { socket_fd = fd }

pub get_fd : SocketAddress → ℤ
get_fd a = a.socket_fd

unfoldable pub get_port : SocketAddress → ℕ
get_port a = swap16 a.addr.sin_port
