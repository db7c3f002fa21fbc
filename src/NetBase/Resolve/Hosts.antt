-- ===== src/NetBase/Resolve/Hosts.antt =====
-- Which address `net_ip_sockaddr` of src/net/net_base.cc fills in.
use libolptnet.Base.{
  ℕ, ℤ, pos, negsuc, ◌==ℤ◌, ==ℤ_iff, ==ℤ_refl, ok, Returns, Returns->>=, Bool-cases, Option-cases,
  ◌≡◌, refl, ◌≢◌, ◌⊎◌, inl, inr, Bool, true, false, Option, none, some, List, [], ◌∷◌, arith,
}
use libolptnet.Address.{SockaddrIn, swap16, af_inet}
use libolptnet.NetBase.{World, ConnectAnswers}
use libolptnet.NetBase.NoLeak.{IsSocket, OpensOne, net_tcp_connect-OpensOne}
use libolptnet.NetBase.Resolve.{
  Host, AddrInfo, sock_stream, size_of_sockaddr_in, Resolver, any_address, loopback_address,
  localhost, copied, free_result, allocated, look_up, named, net_ip_sockaddr, connect_host,
}

-- What `getaddrinfo` promises for the hints that it is given, where it returns 0.
pub record ResolverLaws (resolver : Resolver) : Type 0 where
  pub found :
      (host : List ℕ)
      → (resolver.getaddrinfo host).0 ≡ pos 0
      → (r : AddrInfo) × ((resolver.getaddrinfo host).1 ≡ some r)
        × (r.ai_family ≡ af_inet)
        × (r.ai_socktype ≡ sock_stream)
        × (r.ai_addrlen ≡ size_of_sockaddr_in)
        × (r.ai_addr.sin_family ≡ af_inet)

-- The address of a host: of any interface where there is no name, a numeric one, the loopback, or the one that is found.
abbrev pub HasAddress : Resolver → Host → ℕ → Type 0
HasAddress resolver none ip = ip ≡ any_address
HasAddress resolver (some []) ip = ip ≡ any_address
HasAddress resolver (some (b ∷ bs)) ip =
    (resolver.inet_aton (b ∷ bs) ≡ some ip)
    ⊎ ((resolver.inet_aton (b ∷ bs) ≡ none)
        × (((resolver.same_nocase (b ∷ bs) localhost ≡ true) × (ip ≡ loopback_address))
            ⊎ ((resolver.same_nocase (b ∷ bs) localhost ≡ false)
                × ((resolver.getaddrinfo (b ∷ bs)).0 ≡ pos 0)
                × ((r : AddrInfo) × ((resolver.getaddrinfo (b ∷ bs)).1 ≡ some r)
                    × (ip ≡ r.ai_addr.sin_addr)))))

-- The name is looked up, and not found.
abbrev pub Unknown : Resolver → Host → Type 0
Unknown resolver none = ⊥
Unknown resolver (some []) = ⊥
Unknown resolver (some (b ∷ bs)) =
    (resolver.inet_aton (b ∷ bs) ≡ none)
    × (resolver.same_nocase (b ∷ bs) localhost ≡ false)
    × ((resolver.getaddrinfo (b ∷ bs)).0 ≢ pos 0)

copied_found :
    (a : ℤ × Option AddrInfo) (r : AddrInfo) (addr : SockaddrIn)
    → a.0 ≡ pos 0
    → a.1 ≡ some r
    → r.ai_family ≡ af_inet
    → r.ai_socktype ≡ sock_stream
    → r.ai_addrlen ≡ size_of_sockaddr_in
    → copied a addr ≡ ok r.ai_addr
copied_found (c, o) r addr z e f g h = rw z (rw (==ℤ_refl (pos 0)) (rw e (ground arith)))

copied_failed :
    (a : ℤ × Option AddrInfo) (addr : SockaddrIn)
    → (a.0 ==ℤ pos 0) ≡ false
    → copied a addr ≡ ok addr
copied_failed (c, o) addr n = rw n refl

-- Every list that is allocated is freed, once.
balanced : (o : Option AddrInfo) (lists : ℕ) → free_result o (allocated o lists) ≡ lists
balanced none lists = refl
balanced (some r) lists = omega arith

module _ (resolver : Resolver) (laws : ResolverLaws resolver) where
  -- 0 and the address, or an error.
  abbrev Found : Host → ℕ → ℤ × SockaddrIn × ℕ → Type 0
  Found host lists (errcode, addr, lists') =
      (addr.sin_family ≡ af_inet)
      × (lists' ≡ lists)
      × (((errcode ≡ pos 0) × HasAddress resolver host addr.sin_addr)
          ⊎ ((errcode ≢ pos 0) × Unknown resolver host))

  look_up-Found :
      (b : ℕ) (bs : List ℕ) (addr : SockaddrIn) (lists : ℕ)
      → addr.sin_family ≡ af_inet
      → Returns (Found (some (b ∷ bs)) lists) (look_up resolver (b ∷ bs) addr lists)
  unfolding look_up
  look_up-Found b bs addr lists family = elim (Option-cases (resolver.inet_aton (b ∷ bs))) [
    | inr (ip, e) ↦ rw (e, look_up) (family, refl, inl (refl, inl e))
    | inl e ↦ elim (Bool-cases (resolver.same_nocase (b ∷ bs) localhost)) [
      | inl same ↦ rw (e, look_up) (rw same (family, refl, inl (refl, inr (e, inl (same, refl)))))
      | inr other ↦ elim (Bool-cases ((resolver.getaddrinfo (b ∷ bs)).0 ==ℤ pos 0)) [
        | inl z ↦
            let zero_code = (==ℤ_iff (resolver.getaddrinfo (b ∷ bs)).0 (pos 0)).0 z in
            let (r, found, f, g, h, i) = laws.found (b ∷ bs) zero_code in
            rw (e, look_up)
              (rw other (
                rw (copied_found (resolver.getaddrinfo (b ∷ bs)) r addr zero_code found f g h) (
                  i,
                  balanced (resolver.getaddrinfo (b ∷ bs)).1 lists,
                  inl (zero_code, inr (e, inr (other, zero_code, (r, found, refl)))),
                )))
        | inr n ↦
            let failed : (resolver.getaddrinfo (b ∷ bs)).0 ≢ pos 0 =
              λ z. cc (n, (==ℤ_iff (resolver.getaddrinfo (b ∷ bs)).0 (pos 0)).1 z) in
            rw (e, look_up)
              (rw other (
                rw (copied_failed (resolver.getaddrinfo (b ∷ bs)) addr n) (
                  family,
                  balanced (resolver.getaddrinfo (b ∷ bs)).1 lists,
                  inr (failed, (e, other, failed)),
                )))
      ]
    ]
  ]

  named-Found :
      (host : Host) (addr : SockaddrIn) (lists : ℕ)
      → addr.sin_family ≡ af_inet
      → addr.sin_addr ≡ any_address
      → Returns (Found host lists) (named resolver host addr lists)
  unfolding named
  named-Found none addr lists f a = (f, refl, inl (refl, a))
  named-Found (some []) addr lists f a = (f, refl, inl (refl, a))
  named-Found (some (b ∷ bs)) addr lists f a = look_up-Found b bs addr lists f

  -- The address and 0, or -1 for a name that is looked up in vain; no list is left behind, and the port is set.
  abbrev pub Resolved : Host → ℕ → ℕ → ℤ × SockaddrIn × ℕ → Type 0
  Resolved host port lists (ret, addr, lists') =
      (addr.sin_family ≡ af_inet)
      × (addr.sin_port ≡ swap16 port)
      × (lists' ≡ lists)
      × (((ret ≡ pos 0) × HasAddress resolver host addr.sin_addr)
          ⊎ ((ret ≡ negsuc 0) × Unknown resolver host))

  -- Where `::getaddrinfo` keeps its promise for the hints, `net_ip_sockaddr` returns, with the
  -- family and the port filled in and every list of addresses freed; it returns 0 with the address
  -- of any interface for no name, and else with the numeric address, the loopback's or the one
  -- found, or it returns -1 for a name that was looked up in vain.
  pub net_ip_sockaddr-Resolved :
      (host : Host) (port : ℕ) (addr : SockaddrIn) (lists : ℕ)
      → Returns (Resolved host port lists) (net_ip_sockaddr resolver host port addr lists)
  unfolding net_ip_sockaddr
  net_ip_sockaddr-Resolved host port addr lists =
      Returns->>= _ (Found host lists) _ _
        (named-Found host (record addr { sin_family = af_inet; sin_addr = any_address }) lists refl
          refl)
        (λ (r : ℤ × SockaddrIn × ℕ) k. elim k.2 [
          | inl (z, a) ↦ (k.0, refl, k.1, inl (rw z (rw (==ℤ_refl (pos 0)) refl), a))
          | inr (n, u) ↦ (k.0, refl, k.1, inr (ground (arith, ==ℤ_iff r.0 (pos 0)), u))
        ])

  -- Where `::getaddrinfo` keeps its promise for the hints and `::socket` answers with a descriptor
  -- or with -1, `net_tcp_connect` of a host, blocking or not, returns a descriptor that is open,
  -- and is the only one opened, or it returns -1 and the open descriptors are as before, whichever
  -- of its calls fails.
  pub connect_host-OpensOne :
      (host : Host) (port : ℕ) (addr : SockaddrIn) (answers : SockaddrIn → ConnectAnswers)
      (nonblock : Bool) (w : World)
      → ((a : SockaddrIn) → IsSocket (answers a).socket)
      → Returns (OpensOne w) (connect_host resolver host port addr answers nonblock w)
  unfolding connect_host
  connect_host-OpensOne host port addr answers nonblock w sockets =
      Returns->>= _ (Resolved host port 0) _ _ (net_ip_sockaddr-Resolved host port addr 0)
        (λ (r : ℤ × SockaddrIn × ℕ) k.
          net_tcp_connect-OpensOne r.0 (answers r.1) nonblock w (sockets r.1))
