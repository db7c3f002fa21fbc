-- ===== src/Address/Port.antt =====
-- The port of src/net/tcp_socket_addr.cc.
use libolptnet.Base.{ℕ, ◌<◌, ℤ, negsuc, ◌≡◌, refl, Option, arith}
use libolptnet.Address.{from_ip, copy, set_fd, get_fd, get_port}

-- For a port below 65536, whatever the text of the address is parsed to: the port of the address is
-- the one it was made with, also after `set_fd` and in a copy, which has the descriptor that was
-- set; before that the descriptor is -1.
pub get_port-from_ip :
    (parsed : Option ℕ) (port : ℕ) (fd : ℤ)
    → port < 0x1_0000
    → (get_port (copy (set_fd (from_ip parsed port) fd)) ≡ port)
      × (get_fd (copy (set_fd (from_ip parsed port) fd)) ≡ fd)
      × (get_fd (from_ip parsed port) ≡ negsuc 0)
unfolding get_port copy set_fd from_ip get_fd
get_port-from_ip parsed port fd h = (omega arith, refl, refl)
