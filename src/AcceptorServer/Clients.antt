-- ===== src/AcceptorServer/Clients.antt =====
-- The list of clients of src/example/acceptor_server.cc, whatever reaches the server.
use libolptnet.Base.{
  ℕ, ◌+◌, ◌≤◌, ◌<◌, ℤ, int_limit, Returns, Returns->>=, length, length-append, leb, ◌==◌,
  if◌then◌else◌, Bool-cases, ◌≡◌, refl, inl, inr, Bool, true, false, ◌||◌, List, [], ◌∷◌, ◌++◌,
  arith,
}
use libolptnet.ThreadPool.RoundRobin.{Chosen, get_loop-Chosen}
use libolptnet.AcceptorServer.{
  max_client_count, AcceptorServer, handed, on_accept, erase, remove_handler, ServerEvent, accepted,
  closed, handle, serve,
}

abbrev pub member : ℕ → List ℕ → Bool
member c [] = false
member c (d ∷ ds) = if c == d then true else member c ds

-- No client is listed twice.
abbrev pub NoRepeat : List ℕ → Type 0
NoRepeat [] = Unit {0}
NoRepeat (c ∷ cs) = (member c cs ≡ false) × NoRepeat cs

pub record IsValid (s : AcceptorServer) : Type 0 where
  pub bounded : length s.clients ≤ max_client_count
  pub old : (c : ℕ) → member c s.clients ≡ true → c < s.next
  pub distinct : NoRepeat s.clients

member-append : (c : ℕ) (cs : List ℕ) (d : ℕ) → member c (cs ++ d ∷ []) ≡ (member c cs || (c == d))
member-append c [] d = ground arith
member-append c (b ∷ cs) d = ground (arith, member-append c cs d)

NoRepeat-append :
    (cs : List ℕ) (d : ℕ) → NoRepeat cs → member d cs ≡ false → NoRepeat (cs ++ d ∷ [])
NoRepeat-append [] d n e = (refl, tt)
NoRepeat-append (c ∷ cs) d n e = ground (arith, NoRepeat-append cs d n.1, member-append c cs d)

length-erase : (h : ℕ) (cs : List ℕ) → length (erase h cs) ≤ length cs
unfolding erase
length-erase h [] = omega arith
length-erase h (c ∷ cs) = ground (arith, length-erase h cs)

-- Erasing takes out the handler, and no other.
pub member-erase :
    (c h : ℕ) (cs : List ℕ)
    → NoRepeat cs
    → member c (erase h cs) ≡ (if c == h then false else member c cs)
unfolding erase
member-erase c h [] n = ground arith
member-erase c h (d ∷ cs) n = ground (arith, member-erase c h cs n.1)

NoRepeat-erase : (h : ℕ) (cs : List ℕ) → NoRepeat cs → NoRepeat (erase h cs)
unfolding erase
NoRepeat-erase h [] n = tt
NoRepeat-erase h (c ∷ cs) n = ground (arith, NoRepeat-erase h cs n.1, member-erase c h cs n.1)

handed-IsValid :
    (s : AcceptorServer) (addr : ℤ) (r : ℕ × ℕ)
    → IsValid s
    → leb max_client_count (length s.clients) ≡ false
    → IsValid (handed s addr r).1
handed-IsValid s addr r v below = record {
  bounded = ground (arith, length-append s.clients (s.next ∷ []));
  old = λ c m. ground (arith, v.old c, member-append c s.clients s.next);
  distinct = NoRepeat-append s.clients s.next v.distinct (ground (arith, v.old s.next));
}

remove_handler-IsValid : (s : AcceptorServer) (h : ℕ) → IsValid s → IsValid (remove_handler h s)
unfolding remove_handler
remove_handler-IsValid s h v = record {
  bounded = omega (arith, length-erase h s.clients, v.bounded);
  old = λ c m. ground (arith, v.old c, member-erase c h s.clients v.distinct);
  distinct = NoRepeat-erase h s.clients v.distinct;
}

-- Valid, with the index of `get_loop` counted up by one at most.
abbrev Next : AcceptorServer → AcceptorServer → Type 0
Next s t = IsValid t × (t.index ≤ s.index + 1)

handle-Next :
    (e : ServerEvent) (s : AcceptorServer)
    → IsValid s
    → s.index + 1 < int_limit
    → Returns (Next s) (handle e s)
unfolding handle on_accept remove_handler
handle-Next (accepted addr) s v small =
    elim (Bool-cases (leb max_client_count (length s.clients))) [
      | inl full ↦ rw (full, handle, on_accept) (v, omega arith)
      | inr room ↦
          rw (room, handle, on_accept)
            (Returns->>= (Next s) (λ (r : Bool × AcceptorServer). Next s r.1) _ _
              (Returns->>= _ (Chosen s.thpool s.index) _ _ (get_loop-Chosen s.thpool s.index small)
                (λ (r : ℕ × ℕ) k. (handed-IsValid s addr r v room, counted r k)))
              (λ (r : Bool × AcceptorServer) k. k))
    ]
  where
    counted : (r : ℕ × ℕ) → Chosen s.thpool s.index r → r.1 ≤ s.index + 1
    counted r (inl (a, b, c)) = omega arith
    counted r (inr (a, b)) = omega arith
handle-Next (closed h) s v small = (remove_handler-IsValid s h v, omega arith)

-- For any sequence of accepted connections and closed handlers, whose length and the index of
-- `get_loop` together are less than INT_MAX + 1: a server with at most 1024 clients, none of them
-- listed twice and each older than the next handler, returns from all its calls and is such a
-- server again.
pub serve-IsValid :
    (es : List ServerEvent) (s : AcceptorServer)
    → IsValid s
    → s.index + length es < int_limit
    → Returns IsValid (serve es s)
unfolding serve
serve-IsValid [] s v small = v
serve-IsValid (e ∷ es) s v small =
    Returns->>= IsValid (Next s) (handle e s) (serve es) (handle-Next e s v (omega arith))
      (λ t k. serve-IsValid es t k.0 (omega arith))
