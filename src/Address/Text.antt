-- ===== src/Address/Text.antt =====
-- `get_ipaddr` and `to_string` of src/net/tcp_socket_addr.cc. `inet_ntop` is a parameter; a text is its characters,
-- without the final 0.
pub mod Fits
use libolptnet.Base.{
  ◌>>=◌, ℕ, zero, suc, ◌+◌, ◌/◌, ◌%◌, null_pointer, out_of_bounds, Outcome, ok, fault, length, ltb,
  leb, if◌then◌else◌, Option, none, some, List, [], ◌∷◌, ◌++◌,
}
use libolptnet.Address.{SocketAddress, get_port}

-- `inet_ntop` of an address in network order, into an array of the given size: NULL is none.
pub record Printer : Type 0 where
  pub inet_ntop : ℕ → ℕ → Option (List ℕ)

-- The lengths of `str` in `get_ipaddr` and of `buf` in `to_string`.
abbrev pub str_size : ℕ
str_size = 16

abbrev pub buf_size : ℕ
buf_size = 32

-- What `%d` prints of a number below 10 ^ `places`.
unfoldable pub decimal : ℕ → ℕ → List ℕ
decimal zero n = []
decimal (suc places) n =
    let more = decimal places (n / 10) in
    if ltb n 10 then (b'0' + n) ∷ [] else more ++ (b'0' + n % 10) ∷ []

-- The five places that an `unsigned short` can have.
abbrev pub port_places : ℕ
port_places = 5

module _ (printer : Printer) where
  -- A `std::string` is made of the pointer, which may be NULL.
  pub get_ipaddr : SocketAddress → Outcome (List ℕ)
  get_ipaddr a = elim (printer.inet_ntop a.addr.sin_addr str_size) [
    | none ↦ fault null_pointer
    | some text ↦ ok text
  ]

  -- `sprintf` of "%s:%d" writes the text with its final 0, wherever `buf` ends.
  pub to_string : SocketAddress → Outcome (List ℕ)
  unfolding get_ipaddr
  to_string a = do
    ip ← get_ipaddr a
    let text = ip ++ b':' ∷ decimal port_places (get_port a)
    if leb (length text + 1) buf_size then ok text else fault out_of_bounds
