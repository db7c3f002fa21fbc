-- ===== src/NetBase/Options/Blocking.antt =====
-- What the options of src/net/net_base.cc come to, over calls that do as documented.
use libolptnet.Base.{
  ℤ, pos, negsuc, ◌==ℤ◌, ==ℤ_iff, ==ℤ_refl, if◌then◌else◌, Bool-cases, ◌≡◌, refl, ◌∙◌, ◌≢◌, ◌⊎◌,
  inl, inr, true, false, some, arith,
}
use libolptnet.NetBase.Options.{
  FileFlags, SocketOption, so_sndbuf, so_rcvbuf, Sockets, size_of_int, net_set_nonblock,
  net_set_block, net_set_send_buffer_size, net_set_recv_buffer_size, net_get_send_buffer_size,
  net_get_recv_buffer_size,
}

-- F_SETFL returns 0 and stores the flags of that descriptor, or another value and changes nothing. SO_SNDBUF and
-- SO_RCVBUF do not meddle with each other; the system may keep another size than it was asked for, `granted`.
pub record SocketLaws {K : Type 0} (sys : Sockets K) : Type 0 where
  pub granted : SocketOption → ℤ → ℤ
  pub stored :
      (k : K) (fd g : ℤ) (flags : FileFlags)
      → (sys.set_flags k fd flags).0 ≡ pos 0
      → sys.get_flags (sys.set_flags k fd flags).1 g
        ≡ (if g ==ℤ fd then some flags else sys.get_flags k g)
  pub refused :
      (k : K) (fd g : ℤ) (flags : FileFlags)
      → (sys.set_flags k fd flags).0 ≢ pos 0
      → sys.get_flags (sys.set_flags k fd flags).1 g ≡ sys.get_flags k g
  pub sized :
      (k : K) (fd : ℤ) (o : SocketOption) (size : ℤ)
      → (sys.setsockopt k fd o size).0 ≡ pos 0
      → sys.getsockopt (sys.setsockopt k fd o size).1 fd o ≡ (pos 0, granted o size, size_of_int)

module _ {K : Type 0} (sys : Sockets K) (laws : SocketLaws sys) where
  -- The flags of `fd` are `flags`, and those of the others as they were.
  abbrev pub FlagsSet : ℤ → FileFlags → K → K → Type 0
  FlagsSet fd flags k k' =
      (g : ℤ) → sys.get_flags k' g ≡ (if g ==ℤ fd then some flags else sys.get_flags k g)

  abbrev pub FlagsKept : K → K → Type 0
  FlagsKept k k' = (g : ℤ) → sys.get_flags k' g ≡ sys.get_flags k g

  -- A call has its effect and returns 0, or has none and returns something else.
  abbrev pub Tried : (K → Type 0) → (K → Type 0) → ℤ × K → Type 0
  Tried Done Kept r = ((r.0 ≡ pos 0) × Done r.1) ⊎ ((r.0 ≢ pos 0) × Kept r.1)

  set_flags-Tried :
      (k : K) (fd : ℤ) (flags : FileFlags)
      → Tried (FlagsSet fd flags k) (FlagsKept k) (sys.set_flags k fd flags)
  set_flags-Tried k fd flags = elim (Bool-cases ((sys.set_flags k fd flags).0 ==ℤ pos 0)) [
    | inl e ↦
        let z = (==ℤ_iff (sys.set_flags k fd flags).0 (pos 0)).0 e in
        inl (z, λ g. laws.stored k fd g flags z)
    | inr e ↦
        let n : (sys.set_flags k fd flags).0 ≢ pos 0 =
          λ z. cc (e, (==ℤ_iff (sys.set_flags k fd flags).0 (pos 0)).1 z) in
        inr (n, λ g. laws.refused k fd g flags n)
  ]

  set_nonblock-Tried :
      (k : K) (fd : ℤ) (flags : FileFlags)
      → sys.get_flags k fd ≡ some flags
      → Tried
          (FlagsSet fd (record flags { nonblock = true }) k)
          (FlagsKept k)
          (net_set_nonblock sys fd k)
  unfolding net_set_nonblock
  set_nonblock-Tried k fd flags e =
      rw (e, net_set_nonblock) (set_flags-Tried k fd (record flags { nonblock = true }))

  set_block-Tried :
      (k : K) (fd : ℤ) (flags : FileFlags)
      → sys.get_flags k fd ≡ some flags
      → Tried
          (FlagsSet fd (record flags { nonblock = false }) k)
          (FlagsKept k)
          (net_set_block sys fd k)
  unfolding net_set_block
  set_block-Tried k fd flags e =
      rw (e, net_set_block) (set_flags-Tried k fd (record flags { nonblock = false }))

  -- Where the flags of a descriptor can be read and `net_set_nonblock` has returned 0,
  -- `net_set_block` returns 0 and the descriptor has its old flags without O_NONBLOCK, or it fails
  -- and they have O_NONBLOCK; no other descriptor's flags change.
  pub set_block-set_nonblock :
      (k : K) (fd : ℤ) (flags : FileFlags)
      → sys.get_flags k fd ≡ some flags
      → (net_set_nonblock sys fd k).0 ≡ pos 0
      → Tried
          (FlagsSet fd (record flags { nonblock = false }) k)
          (FlagsSet fd (record flags { nonblock = true }) k)
          (net_set_block sys fd (net_set_nonblock sys fd k).1)
  set_block-set_nonblock k fd flags e ok1 = elim (set_nonblock-Tried k fd flags e) [
    | inr (bad, kept) ↦ absurd (bad ok1)
    | inl (z, first) ↦
        elim (set_block-Tried (net_set_nonblock sys fd k).1 fd (record flags { nonblock = true })
          (first fd ∙ rw (==ℤ_refl fd) refl)) [
            | inl (z2, second) ↦ inl (z2, λ g. ground (arith, second g, first g))
            | inr (bad, kept) ↦ inr (bad, λ g. kept g ∙ first g)
          ]
  ]

  -- After a call that sets a buffer's size has returned 0, the one that gets it returns what the
  -- system has granted; where the system cannot tell, both return -1.
  pub get_buffer_size-set :
      (k : K) (fd size : ℤ)
      → ((net_set_send_buffer_size sys fd size k).0 ≡ pos 0
          → net_get_send_buffer_size sys fd (net_set_send_buffer_size sys fd size k).1
            ≡ laws.granted so_sndbuf size)
        × ((net_set_recv_buffer_size sys fd size k).0 ≡ pos 0
            → net_get_recv_buffer_size sys fd (net_set_recv_buffer_size sys fd size k).1
              ≡ laws.granted so_rcvbuf size)
        × ((sys.getsockopt k fd so_sndbuf).0 ≢ pos 0 → net_get_send_buffer_size sys fd k ≡ negsuc 0)
        × ((sys.getsockopt k fd so_rcvbuf).0 ≢ pos 0 → net_get_recv_buffer_size sys fd k ≡ negsuc 0)
  unfolding net_set_send_buffer_size net_set_recv_buffer_size net_get_send_buffer_size
      net_get_recv_buffer_size
  get_buffer_size-set k fd size = (
    λ e. rw (laws.sized k fd so_sndbuf size e) (rw (==ℤ_refl (pos 0)) refl),
    λ e. rw (laws.sized k fd so_rcvbuf size e) (rw (==ℤ_refl (pos 0)) refl),
    λ e. ground (arith, ==ℤ_iff (sys.getsockopt k fd so_sndbuf).0 (pos 0)),
    λ e. ground (arith, ==ℤ_iff (sys.getsockopt k fd so_rcvbuf).0 (pos 0)),
  )
