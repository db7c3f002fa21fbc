-- ===== src/TcpConnector/Descriptors.antt =====
-- What descriptors `tcp_connector` of src/client/main.cc opens and closes.
use libolptnet.Base.{
  ℕ, zero, suc, ℤ, pos, ==ℤ_refl, is_positive, Returns, Returns->>=, ◌≡◌, refl, ◌⊎◌, inl, inr, Bool,
  true, false, ◌∷◌,
}
use libolptnet.Address.{SockaddrIn}
use libolptnet.NetBase.{World, ConnectAnswers, close_fd}
use libolptnet.NetBase.NoLeak.{IsSocket, OpensOne}
use libolptnet.NetBase.Resolve.{Host, Resolver, connect_host}
use libolptnet.NetBase.Resolve.Hosts.{ResolverLaws, connect_host-OpensOne}
use libolptnet.TcpConnector.{TcpConnector, connect, close}

-- A connected one closes what it has opened; one that is not has opened nothing, or the descriptor 0, which it takes
-- for a failure.
abbrev pub Closes : World → Bool × TcpConnector × World → Type 0
Closes w (connected, c, w') =
    ((connected ≡ true) × (close c w' ≡ w))
    ⊎ ((connected ≡ false) × (w' ≡ w))
    ⊎ ((connected ≡ false) × (c.sock_fd ≡ pos 0) × (close c w' ≡ w))

close_first : (n : ℕ) (w : World) → close_fd (pos n) (pos n ∷ w) ≡ w
close_first n w = rw (==ℤ_refl (pos n)) refl

opened-Closes :
    (c : TcpConnector) (w : World) (r : ℤ × World)
    → OpensOne w r
    → Closes w (is_positive r.0, record c { sock_fd = r.0 }, r.1)
unfolding close
opened-Closes c w r (inl (zero, e, f)) = rw e (rw f (inr (inr (refl, refl, close_first 0 w))))
opened-Closes c w r (inl (suc n, e, f)) = rw e (rw f (inl (refl, close_first (suc n) w)))
opened-Closes c w r (inr (e, f)) = rw e (rw f (inr (inl (refl, refl))))

module _ (resolver : Resolver) (laws : ResolverLaws resolver) where
  -- Where `::getaddrinfo` keeps its promise for the hints and `::socket` answers with a descriptor or with -1: after
  -- `connect` has returned true, `close` leaves the descriptors that were open before; where it has returned false,
  -- nothing was opened, or the descriptor 0, which `close` closes.
  pub connect-Closes :
      (ipaddr : Host) (port : ℕ) (addr : SockaddrIn) (answers : SockaddrIn → ConnectAnswers)
      (c : TcpConnector) (w : World)
      → ((a : SockaddrIn) → IsSocket (answers a).socket)
      → Returns (Closes w) (connect resolver ipaddr port addr answers (c, w))
  unfolding connect
  connect-Closes ipaddr port addr answers c w sockets =
      Returns->>= (Closes w) (OpensOne w) (connect_host resolver ipaddr port addr answers false w) _
        (connect_host-OpensOne resolver laws ipaddr port addr answers false w sockets)
        (λ (r : ℤ × World) o. opened-Closes c w r o)
