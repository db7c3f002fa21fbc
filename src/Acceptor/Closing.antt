-- ===== src/Acceptor/Closing.antt =====
-- The descriptors of src/net/async_acceptor.cc.
use libolptnet.Base.{
  ℕ, zero, suc, ℤ, pos, negsuc, ==ℤ_refl, Outcome, ok, ◌>>=◌, Returns, ◌≡◌, refl, ◌≢◌, inl, inr,
  Bool, true, false, List, ◌∷◌,
}
use libolptnet.Address.{SocketAddress}
use libolptnet.Address.Text.{Printer, get_ipaddr}
use libolptnet.Connection.{LoopOps}
use libolptnet.NetBase.{World, close_fd, ListenAnswers, net_tcp_listen}
use libolptnet.NetBase.Options.{Sockets}
use libolptnet.NetBase.NoLeak.{IsSocket, OpensOne, net_tcp_listen-OpensOne}
use libolptnet.Acceptor.{Acceptor, listened, open_acceptor, close, do_handle_read}

module _ {L : Type 0} (ops : LoopOps L) where
  close_lem :
      (a : Acceptor L) (l' : L) (n : ℕ)
      → a.listen_fd ≡ pos (suc n)
      → ops.delete_event a.loop (pos (suc n)) ≡ ok (pos 0, l')
      → close ops a
        ≡ ok (record { listen_fd = negsuc 0; loop = l'; world = close_fd (pos (suc n)) a.world })
  unfolding close
  close_lem a l' n e d = rw e (rw d (rw (==ℤ_refl (pos 0)) refl))

  closed_again :
      (n : ℕ) (l : L) (w : World)
      → close ops (record { listen_fd = negsuc n; loop = l; world = w })
        ≡ ok (record { listen_fd = negsuc n; loop = l; world = w })
  unfolding close
  closed_again n l w = refl

  -- Where the loop does not refuse to delete the positive `listen_fd_`, closing twice is closing
  -- once, and the first call closes the descriptor and sets `listen_fd_` to -1.
  pub close_twice :
      (a : Acceptor L) (l' : L) (n : ℕ)
      → a.listen_fd ≡ pos (suc n)
      → ops.delete_event a.loop (pos (suc n)) ≡ ok (pos 0, l')
      → ((close ops a >>= close ops) ≡ close ops a)
        × (close ops a
            ≡ ok (record {
              listen_fd = negsuc 0;
              loop = l';
              world = close_fd (pos (suc n)) a.world;
            }))
  close_twice a l' n e d = (
    rw (close_lem a l' n e d) (closed_again 0 l' (close_fd (pos (suc n)) a.world)),
    close_lem a l' n e d,
  )

  -- Where `on_accept` does not take a positive descriptor over and leaves the acceptor alone,
  -- `do_handle_read` leaves the open descriptors, the loop and `listen_fd_` as they were; and so it
  -- does when `::accept` fails.
  pub refused_is_closed :
      (on_accept : ℤ → Acceptor L → Outcome (Bool × Acceptor L)) (a : Acceptor L) (n : ℕ)
      → ((b : Acceptor L) → on_accept (pos (suc n)) b ≡ ok (false, b))
      → (do_handle_read ops on_accept (pos (suc n)) a ≡ ok a)
        × (do_handle_read ops on_accept (negsuc n) a ≡ ok a)
  unfolding do_handle_read
  refused_is_closed on_accept a n refuses = (
    rw (refuses (record a { world = pos (suc n) ∷ a.world })) (rw (==ℤ_refl (pos (suc n))) refl),
    refl,
  )

  -- The loop refuses neither to register nor to delete a handle.
  abbrev pub Accepting : Type 0
  Accepting =
      (l : L) (h : ℤ)
      → ((l' : L) × (ops.register_event l h true false ≡ ok (pos 0, l')))
        × ((l' : L) × (ops.delete_event l h ≡ ok (pos 0, l')))

  abbrev Released : World → Acceptor L → Type 0
  Released w b = (b.world ≡ w) × (b.listen_fd ≡ negsuc 0)

  opened :
      {K : Type 0} (sys : Sockets K) (fd : ℤ) (w' w : World) (l : L) (addr : SocketAddress) (k : K)
      → Accepting
      → OpensOne w (fd, w')
      → fd ≢ pos 0
      → Returns (Released w) (
          listened ops sys addr fd k (record { listen_fd = fd; loop = l; world = w' }) >>= λ r.
          close ops r.3)
  unfolding listened
  opened sys (pos zero) w' w l addr k ready o h = absurd (h refl)
  opened sys (pos (suc n)) w' w l addr k ready (inl (m, e, e')) h =
      let (l1, r) = (ready l (pos (suc n))).0 in
      let (l2, d) = (ready l1 (pos (suc n))).1 in
      rw r (
        rw (==ℤ_refl (pos 0)) (
          rw (close_lem (record { listen_fd = pos (suc n); loop = l1; world = w' }) l2 n refl d)
            (rw e' (rw (← e) (rw (==ℤ_refl (pos (suc n))) (refl, refl))))))
  opened sys (pos (suc n)) w' w l addr k ready (inr (e, e')) h = cc
  opened sys (negsuc n) w' w l addr k ready (inl (m, e, e')) h = cc
  opened sys (negsuc n) w' w l addr k ready (inr (e, e')) h = rw (closed_again n l w') (e', e)

  -- Where the access to the destroyed text finds something, `::socket` answers with a descriptor or
  -- with -1, `net_tcp_listen` does not return 0, and the loop refuses neither to register nor to
  -- delete a handle, `open` and then `close` return; the open descriptors are as before, and
  -- `listen_fd_` is -1.
  pub open_close :
      {K : Type 0} (printer : Printer) (sys : Sockets K) (k : K) (freed : List ℕ → Outcome (List ℕ))
      (answers : List ℕ → ListenAnswers) (addr : SocketAddress) (a : Acceptor L)
      (text ipaddr : List ℕ)
      → get_ipaddr printer addr ≡ ok text
      → freed text ≡ ok ipaddr
      → IsSocket (answers ipaddr).socket
      → Accepting
      → (net_tcp_listen (answers ipaddr) a.world).0 ≢ pos 0
      → Returns
          (λ b. (b.world ≡ a.world) × (b.listen_fd ≡ negsuc 0))
          (open_acceptor ops printer sys freed answers (addr, k, a) >>= λ r. close ops r.3)
  unfolding open_acceptor
  open_close printer sys k freed answers addr a text ipaddr printed found s ready nonzero =
      rw printed (
        rw found (
          opened sys (net_tcp_listen (answers ipaddr) a.world).0
            (net_tcp_listen (answers ipaddr) a.world).1 a.world a.loop addr k ready
            (net_tcp_listen-OpensOne (answers ipaddr) a.world s) nonzero))
