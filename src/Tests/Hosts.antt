-- ===== src/Tests/Hosts.antt =====
-- The theorems on `net_ip_sockaddr` and the options of src/net/net_base.cc, and on the texts of
-- src/net/tcp_socket_addr.cc, at concrete inputs.
use libolptnet.Base.{negsuc, ℤ, pos, Returns, ◌≡◌, refl, false, none, some, [], ◌∷◌, arith}
use libolptnet.Address.{zeroed, SocketAddress}
use libolptnet.Address.Text.{Printer, to_string, decimal}
use libolptnet.Address.Text.Fits.{PrinterLaws, Printed, to_string-Printed}
use libolptnet.NetBase.Options.{
  Sockets, net_set_tcp_nodelay, net_set_keepalive, net_set_reuse_address, net_clear_reuse_address,
}
use libolptnet.TcpConnector.{new_connector}
use libolptnet.NetBase.Resolve.{AddrInfo, Resolver, net_ip_sockaddr}
use libolptnet.NetBase.Resolve.Hosts.{ResolverLaws, Resolved, net_ip_sockaddr-Resolved}

-- Every name is found, at one address.
abbrev answer : AddrInfo
answer = record {
  ai_family = 2;
  ai_socktype = 1;
  ai_addrlen = 16;
  ai_addr = record zeroed { sin_family = 2; sin_addr = 9 };
}

abbrev resolver : Resolver
resolver = record {
  inet_aton = λ host. none;
  same_nocase = λ a b. false;
  getaddrinfo = λ host. (pos 0, some answer);
}

resolver_laws : ResolverLaws resolver
resolver_laws = record { found = λ host e. (answer, refl, refl, refl, refl, refl) }

net_ip_sockaddr-Resolved_example :
    Returns
      (Resolved resolver resolver_laws (some (b'h' ∷ [])) 8080 0)
      (net_ip_sockaddr resolver (some (b'h' ∷ [])) 8080 zeroed 0)
net_ip_sockaddr-Resolved_example =
    net_ip_sockaddr-Resolved resolver resolver_laws (some (b'h' ∷ [])) 8080 zeroed 0

decimal_runs : decimal 5 8080 ≡ b'8' ∷ b'0' ∷ b'8' ∷ b'0' ∷ []
unfolding decimal
decimal_runs = refl

-- Every address is printed as "::".
abbrev printer : Printer
printer = record { inet_ntop = λ ip size. some (b':' ∷ b':' ∷ []) }

printer_laws : PrinterLaws printer
printer_laws = record { prints = λ ip size enough. (b':' ∷ b':' ∷ [], refl, omega arith) }

abbrev local : SocketAddress
local = record {
  socket_fd = pos 4;
  addr = record { sin_family = 2; sin_port = 0x901f; sin_addr = 0 };
}

to_string-Printed_example : Returns (Printed printer printer_laws local) (to_string printer local)
to_string-Printed_example = to_string-Printed printer printer_laws local

-- A socket that stores its last option.
abbrev last_option : Sockets ℤ
last_option = record {
  get_flags = λ k fd. none;
  set_flags = λ k fd flags. (pos 0, k);
  setsockopt = λ k fd o value. (pos 0, value);
  getsockopt = λ k fd o. (pos 0, k, 4);
}

options_run :
    (net_set_tcp_nodelay last_option (pos 4) (pos 9) ≡ (pos 0, pos 1))
    × (net_set_keepalive last_option (pos 4) (pos 9) ≡ (pos 0, pos 1))
    × (net_set_reuse_address last_option (pos 4) (pos 9) ≡ (pos 0, pos 1))
    × (net_clear_reuse_address last_option (pos 4) (pos 9) ≡ (pos 0, pos 0))
unfolding net_set_tcp_nodelay net_set_keepalive net_set_reuse_address net_clear_reuse_address
options_run = (refl, refl, refl, refl)

new_connector_runs : new_connector.sock_fd ≡ negsuc 0
unfolding new_connector
new_connector_runs = refl
