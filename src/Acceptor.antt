-- ===== src/Acceptor.antt =====
-- src/net/async_acceptor.h and src/net/async_acceptor.cc. What the acceptor calls of its loop is the
-- interface of `Connection`; the world is the list of open descriptors.
pub mod Closing
use libolptnet.Base.{
  ℤ, pos, negsuc, ◌==ℤ◌, is_positive, is_nonneg, Outcome, ok, ◌>>=◌, ◌>>◌, assert, ◌==◌,
  if◌then◌else◌, Bool, true, false, ℕ, List,
}
use libolptnet.Address.{SocketAddress, set_fd}
use libolptnet.Address.Text.{Printer, get_ipaddr}
use libolptnet.Connection.{LoopOps}
use libolptnet.NetBase.Options.{Sockets, net_set_reuse_address}
use libolptnet.NetBase.{World, close_fd, open_fd, ListenAnswers, net_tcp_listen}

-- `listen_fd_`, with the loop and the world.
pub record Acceptor (L : Type 0) : Type 0 where
  pub listen_fd : ℤ
  pub loop : L
  pub world : World

module _ {L : Type 0} (ops : LoopOps L) where
  open ops use {register_event, delete_event}

  -- The constructor.
  abbrev pub create : L → World → Acceptor L
  create l w = record { listen_fd = negsuc 0; loop = l; world = w }

  -- The end of `open`, when `listen_fd_` has been assigned.
  unfoldable pub register : Acceptor L → Outcome (ℤ × Acceptor L)
  register a = do
    (result, l) ← register_event a.loop a.listen_fd true false
    assert (result ==ℤ pos 0)
    ok (result, record a { loop = l })

  -- `open` behind `net_tcp_listen`: the address gets the descriptor. The value of
  -- `net_set_reuse_address` is ignored; `k` is the state of the system's sockets.
  unfoldable pub listened :
      {K : Type 0}
      → Sockets K
      → SocketAddress
      → ℤ
      → K
      → Acceptor L
      → Outcome (ℤ × SocketAddress × K × Acceptor L)
  unfolding register
  listened sys local_addr fd k a =
      if is_nonneg fd
      then (register a >>= λ r.
          ok (r.0, set_fd local_addr fd, (net_set_reuse_address sys fd k).1, r.1))
      else ok (negsuc 0, local_addr, k, a)

  -- `open`. `ipaddr` points into a text that is destroyed before `net_tcp_listen` reads it: `freed` is
  -- what that access comes to, and `answers` are the system's for what it has found there.
  unfoldable pub open_acceptor :
      {K : Type 0}
      → Printer
      → Sockets K
      → (List ℕ → Outcome (List ℕ))
      → (List ℕ → ListenAnswers)
      → SocketAddress × K × Acceptor L
      → Outcome (ℤ × SocketAddress × K × Acceptor L)
  unfolding listened
  open_acceptor printer sys freed answers (local_addr, k, a) = do
    text ← get_ipaddr printer local_addr
    ipaddr ← freed text
    let (fd, w) = net_tcp_listen (answers ipaddr) a.world
    let a' : Acceptor L = record a { listen_fd = fd; world = w }
    listened sys local_addr fd k a'

  -- `::close(listen_fd_); listen_fd_=-1;`.
  abbrev pub released : Acceptor L → Acceptor L
  released a =
      if is_positive a.listen_fd
      then record a { listen_fd = negsuc 0; world = close_fd a.listen_fd a.world }
      else a

  -- `close`, and the destructor.
  pub close : Acceptor L → Outcome (Acceptor L)
  close a =
      if is_positive a.listen_fd
      then (delete_event a.loop a.listen_fd >>= λ r.
          assert (r.0 ==ℤ pos 0) >> ok (released (record a { loop = r.1 })))
      else ok (released a)

  -- `::accept` answers `fd`. `on_accept` says whether the descriptor is taken over.
  unfoldable pub do_handle_read :
      (ℤ → Acceptor L → Outcome (Bool × Acceptor L)) → ℤ → Acceptor L → Outcome (Acceptor L)
  do_handle_read on_accept fd a =
      let a' : Acceptor L = record a { world = open_fd fd a.world } in
      if is_positive fd
      then (on_accept fd a' >>= λ r.
          if r.0 then ok r.1 else ok (record r.1 { world = close_fd fd r.1.world }))
      else ok a'
