-- ===== src/AcceptorServer/Accepting.antt =====
-- A new connection at the example server: src/net/async_acceptor.cc with src/example/acceptor_server.cc.
use libolptnet.Base.{
  ℕ, suc, ◌+◌, ◌≤◌, ◌<◌, ℤ, pos, ==ℤ_refl, int_limit, ok, Returns, Returns-eq, length, leb,
  Bool-cases, ◌≡◌, refl, ◌⊎◌, inl, inr, Bool, true, false, [], ◌∷◌, ◌++◌, arith,
}
use libolptnet.ThreadPool.{get_loop}
use libolptnet.ThreadPool.RoundRobin.{Chosen, get_loop-Chosen}
use libolptnet.Connection.{LoopOps}
use libolptnet.Acceptor.{Acceptor, do_handle_read}
use libolptnet.AcceptorServer.{max_client_count, AcceptorServer, handed, on_accept, accept_call}

-- The descriptor stays open, and one call is queued, for one of the loops.
abbrev pub TakesOver : Acceptor AcceptorServer → ℕ → Acceptor AcceptorServer → Type 0
TakesOver a n b =
    (b.world ≡ pos n ∷ a.world)
    × (b.listen_fd ≡ a.listen_fd)
    × (b.loop.clients ≡ a.loop.clients ++ a.loop.next ∷ [])
    × ((l : ℕ) × (next : ℕ) × Chosen a.loop.thpool a.loop.index (l, next)
        × (b.loop.queued
            ≡ a.loop.queued ++ (l, record { handler = a.loop.next; address = pos n }) ∷ []))

accept_call-eq :
    (fd : ℤ) (a : Acceptor AcceptorServer) (r : Bool × AcceptorServer)
    → on_accept fd a.loop ≡ ok r
    → accept_call fd a ≡ ok (r.0, record a { loop = r.1 })
unfolding accept_call
accept_call-eq fd a r e = rw e refl

on_accept-full :
    (fd : ℤ) (s : AcceptorServer)
    → leb max_client_count (length s.clients) ≡ true
    → on_accept fd s ≡ ok (false, s)
unfolding on_accept
on_accept-full fd s full = rw full refl

on_accept-room :
    (fd : ℤ) (s : AcceptorServer)
    → leb max_client_count (length s.clients) ≡ false
    → s.index + 1 < int_limit
    → (r : ℕ × ℕ) × Chosen s.thpool s.index r × (on_accept fd s ≡ ok (handed s fd r))
unfolding on_accept
on_accept-room fd s room small =
    let (r, e, chosen) =
      Returns-eq (Chosen s.thpool s.index) (get_loop s.thpool s.index)
        (get_loop-Chosen s.thpool s.index small) in
    (r, chosen, rw room (rw e refl))

-- Where the index of `get_loop` does not reach INT_MAX, the server's acceptor, with a positive
-- descriptor from `::accept`, returns; with 1024 clients or more it closes the descriptor and
-- changes nothing, and with fewer the descriptor stays open, one client is added, and one call of
-- the handler's `open`, with that descriptor, is queued for the loop that `get_loop` chooses, the
-- base loop or the one at the index.
pub accept_or_close :
    (ops : LoopOps AcceptorServer) (a : Acceptor AcceptorServer) (n : ℕ)
    → a.loop.index + 1 < int_limit
    → Returns
        (λ b.
          ((max_client_count ≤ length a.loop.clients) × (b ≡ a))
          ⊎ ((length a.loop.clients < max_client_count) × TakesOver a (suc n) b))
        (do_handle_read ops accept_call (pos (suc n)) a)
unfolding do_handle_read
accept_or_close ops a n small = elim (Bool-cases (leb max_client_count (length a.loop.clients))) [
  | inl full ↦
      rw
        (accept_call-eq (pos (suc n)) (record a { world = pos (suc n) ∷ a.world }) (false, a.loop)
          (on_accept-full (pos (suc n)) a.loop full))
        (inl (ground arith, rw (==ℤ_refl (pos (suc n))) refl))
  | inr room ↦
      let (r, chosen, e) = on_accept-room (pos (suc n)) a.loop room small in
      rw
        (accept_call-eq (pos (suc n)) (record a { world = pos (suc n) ∷ a.world })
          (handed a.loop (pos (suc n)) r) e)
        (inr (ground arith, (refl, refl, refl, (r.0, r.1, chosen, refl))))
]
