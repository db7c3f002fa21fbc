-- ===== src/NetBase/Resolve.antt =====
-- `net_ip_sockaddr` of src/net/net_base.cc, and `net_tcp_connect` and `net_tcp_connect_nonblock` on top of it. What
-- the C library finds out about a host is a parameter.
pub mod Hosts
use libolptnet.Base.{
  ℕ, ◌+◌, ◌-◌, ℤ, pos, negsuc, ◌==ℤ◌, null_pointer, Outcome, ok, fault, ◌>>=◌, ◌>>◌, assert, ◌==◌,
  if◌then◌else◌, Bool, ◌&&◌, not, Option, none, some, List, [], ◌∷◌,
}
use libolptnet.Address.{SockaddrIn, swap16, af_inet}
use libolptnet.NetBase.{World, ConnectAnswers, net_tcp_connect}

-- The text of a host, without the final 0; `none` is NULL.
abbrev pub Host : Type 0
Host = Option (List ℕ)

-- What is read of `struct addrinfo`, with the address behind `ai_addr`.
pub record AddrInfo : Type 0 where
  pub ai_family : ℕ
  pub ai_socktype : ℕ
  pub ai_addrlen : ℕ
  pub ai_addr : SockaddrIn

-- SOCK_STREAM.
abbrev pub sock_stream : ℕ
sock_stream = 1

-- `sizeof (struct sockaddr_in)`.
abbrev pub size_of_sockaddr_in : ℕ
size_of_sockaddr_in = 16

-- `inet_aton`, `strcasecmp` with 0 as `true`, and `getaddrinfo` for an IPv4 stream: its value and the list that it
-- has allocated.
pub record Resolver : Type 0 where
  pub inet_aton : List ℕ → Option ℕ
  pub same_nocase : List ℕ → List ℕ → Bool
  pub getaddrinfo : List ℕ → ℤ × Option AddrInfo

-- INADDR_ANY and INADDR_LOOPBACK in network order, on a little-endian machine.
abbrev pub any_address : ℕ
any_address = 0

abbrev pub loopback_address : ℕ
loopback_address = 0x0100_007f

-- "localhost".
abbrev pub localhost : List ℕ
localhost = b'l' ∷ b'o' ∷ b'c' ∷ b'a' ∷ b'l' ∷ b'h' ∷ b'o' ∷ b's' ∷ b't' ∷ []

-- `if (res) ::freeaddrinfo(res);`, on the number of lists that are allocated.
abbrev pub free_result : Option AddrInfo → ℕ → ℕ
free_result none lists = lists
free_result (some res) lists = lists - 1

abbrev pub allocated : Option AddrInfo → ℕ → ℕ
allocated none lists = lists
allocated (some res) lists = lists + 1

-- What is done with the value of `getaddrinfo`, up to `freeaddrinfo`: the address.
abbrev pub copied : ℤ × Option AddrInfo → SockaddrIn → Outcome SockaddrIn
copied (errcode, res) addr = if not (errcode ==ℤ pos 0) then ok addr else elim res [
  | none ↦ fault null_pointer
  | some r ↦
      assert ((r.ai_family == af_inet) && (r.ai_socktype == sock_stream))
      >> (assert (r.ai_addrlen == size_of_sockaddr_in) >> ok r.ai_addr)
]

module _ (resolver : Resolver) where
  open resolver use {inet_aton, same_nocase, getaddrinfo}

  -- The body of `if (host && host[0])`: `errcode`, the address and the number of lists that are allocated.
  pub look_up : List ℕ → SockaddrIn → ℕ → Outcome (ℤ × SockaddrIn × ℕ)
  look_up host addr lists = elim (inet_aton host) [
    | some ipaddr ↦ ok (pos 0, record addr { sin_addr = ipaddr }, lists)
    | none ↦
        if same_nocase host localhost
        then ok (pos 0, record addr { sin_addr = loopback_address }, lists)
        else (let found = getaddrinfo host in
            copied found addr >>= λ addr'.
            ok (found.0, addr', free_result found.1 (allocated found.1 lists)))
  ]

  -- The test of `if (host && host[0])`.
  pub named : Host → SockaddrIn → ℕ → Outcome (ℤ × SockaddrIn × ℕ)
  unfolding look_up
  named none addr lists = ok (pos 0, addr, lists)
  named (some []) addr lists = ok (pos 0, addr, lists)
  named (some (b ∷ bs)) addr lists = look_up (b ∷ bs) addr lists

  -- `addr` as it was, and the number of lists that are allocated.
  pub net_ip_sockaddr : Host → ℕ → SockaddrIn → ℕ → Outcome (ℤ × SockaddrIn × ℕ)
  unfolding named
  net_ip_sockaddr host port addr lists =
      let any : SockaddrIn = record addr { sin_family = af_inet; sin_addr = any_address } in
      named host any lists >>= λ r.
      ok (
        if not (r.0 ==ℤ pos 0) then negsuc 0 else pos 0,
        record r.1 { sin_port = swap16 port },
        r.2,
      )

  -- What the system answers may depend on the address that is connected to; `addr` is the uninitialised variable.
  pub connect_host :
      Host → ℕ → SockaddrIn → (SockaddrIn → ConnectAnswers) → Bool → World → Outcome (ℤ × World)
  unfolding net_ip_sockaddr
  connect_host host port addr answers nonblock w =
      net_ip_sockaddr host port addr 0 >>= λ r. ok (net_tcp_connect r.0 (answers r.1) nonblock w)
