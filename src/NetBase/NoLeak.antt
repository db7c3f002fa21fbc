-- ===== src/NetBase/NoLeak.antt =====
-- The descriptors that are open after the functions of src/net/net_base.cc, on their error paths
-- too.
use libolptnet.Base.{
  ℕ, ℤ, pos, negsuc, ==ℤ_iff, ==ℤ_refl, if◌then◌else◌, Bool-cases, ◌≡◌, refl, ◌⊎◌, inl, inr, Bool,
  true, false, ◌∷◌, arith,
}
use libolptnet.NetBase.{
  World, failed, ListenAnswers, net_tcp_bind, net_tcp_listen, ConnectAnswers, einprogress,
  tcp_connect_sockaddr, net_tcp_connect,
}

-- The call returns a new open descriptor, or -1 with nothing opened.
abbrev pub OpensOne : World → ℤ × World → Type 0
OpensOne w (sock, w') =
    ((n : ℕ) × (sock ≡ pos n) × (w' ≡ pos n ∷ w)) ⊎ ((sock ≡ negsuc 0) × (w' ≡ w))

-- `::socket` answers with a descriptor or with -1.
abbrev pub IsSocket : ℤ → Type 0
IsSocket s = ((n : ℕ) × (s ≡ pos n)) ⊎ (s ≡ negsuc 0)

bind_open :
    (a : ListenAnswers) (w : World) (n : ℕ)
    → a.socket ≡ pos n
    → net_tcp_bind a w ≡ (if failed a.bind then (negsuc 0, w) else (pos n, pos n ∷ w))
unfolding net_tcp_bind
bind_open a w n e = rw e (ground (arith, ==ℤ_iff (pos n) (negsuc 0), ==ℤ_refl (pos n)))

bind_none : (a : ListenAnswers) (w : World) → a.socket ≡ negsuc 0 → net_tcp_bind a w ≡ (negsuc 0, w)
unfolding net_tcp_bind
bind_none a w e = rw e (ground (arith, ==ℤ_refl (negsuc 0)))

-- Where `::socket` answers with a descriptor or with -1, `net_tcp_listen` returns a descriptor that
-- is open, and is the only one opened, or it returns -1 and the open descriptors are as before,
-- whichever of its calls fails.
pub net_tcp_listen-OpensOne :
    (a : ListenAnswers) (w : World) → IsSocket a.socket → OpensOne w (net_tcp_listen a w)
unfolding net_tcp_listen
net_tcp_listen-OpensOne a w (inl (n, e)) = elim (Bool-cases (failed a.bind)) [
  | inl b ↦ rw (bind_open a w n e) (rw b (inr (refl, refl)))
  | inr b ↦ elim (Bool-cases (failed a.listen)) [
    | inl f ↦ rw (bind_open a w n e) (rw b (rw f (inr (refl, rw (==ℤ_refl (pos n)) refl))))
    | inr f ↦ rw (bind_open a w n e) (rw b (rw f (inl (n, refl, refl))))
  ]
]
net_tcp_listen-OpensOne a w (inr e) = rw (bind_none a w e) (inr (refl, refl))

connect_none :
    (a : ConnectAnswers) (nonblock : Bool) (w : World)
    → a.socket ≡ negsuc 0
    → tcp_connect_sockaddr a nonblock w ≡ (negsuc 0, w)
unfolding tcp_connect_sockaddr
connect_none a nonblock w e = rw e (ground (arith, ==ℤ_refl (negsuc 0)))

connect_open :
    (a : ConnectAnswers) (nonblock : Bool) (w : World) (n : ℕ)
    → a.socket ≡ pos n
    → (tcp_connect_sockaddr a nonblock w ≡ (negsuc 0, w))
      ⊎ (tcp_connect_sockaddr a nonblock w ≡ (pos n, pos n ∷ w))
unfolding tcp_connect_sockaddr
connect_open a nonblock w n e = rw e (ground (arith, ==ℤ_iff (pos n) (negsuc 0), ==ℤ_refl (pos n)))

-- Where `::socket` answers with a descriptor or with -1, `net_tcp_connect`, blocking or not,
-- returns a descriptor that is open, and is the only one opened, or it returns -1 and the open
-- descriptors are as before, whichever of its calls fails.
pub net_tcp_connect-OpensOne :
    (resolved : ℤ) (a : ConnectAnswers) (nonblock : Bool) (w : World)
    → IsSocket a.socket
    → OpensOne w (net_tcp_connect resolved a nonblock w)
unfolding net_tcp_connect
net_tcp_connect-OpensOne (negsuc k) a nonblock w s = inr (refl, refl)
net_tcp_connect-OpensOne (pos k) a nonblock w (inl (n, e)) = elim (connect_open a nonblock w n e) [
  | inl r ↦ rw r (inr (refl, refl))
  | inr r ↦ rw r (inl (n, refl, refl))
]
net_tcp_connect-OpensOne (pos k) a nonblock w (inr e) =
    rw (connect_none a nonblock w e) (inr (refl, refl))

-- A non-blocking connection that is under way counts as opened; a blocking one does not.
pub connect_in_progress :
    (a : ConnectAnswers) (w : World) (n f g : ℕ)
    → a.socket ≡ pos n
    → a.get_flags ≡ pos f
    → a.set_flags ≡ pos g
    → a.connect ≡ negsuc 0
    → a.errno ≡ einprogress
    → (tcp_connect_sockaddr a true w ≡ (pos n, pos n ∷ w))
      × (tcp_connect_sockaddr a false w ≡ (negsuc 0, w))
unfolding tcp_connect_sockaddr
connect_in_progress a w n f g s gf sf c e = (
  ground (
    arith,
    ==ℤ_iff (pos n) (negsuc 0),
    ==ℤ_iff (pos f) (negsuc 0),
    ==ℤ_iff (pos g) (negsuc 0),
    ==ℤ_refl (negsuc 0),
    ==ℤ_refl einprogress,
  ),
  ground (arith, ==ℤ_iff (pos n) (negsuc 0), ==ℤ_refl (negsuc 0), ==ℤ_refl (pos n)),
)
