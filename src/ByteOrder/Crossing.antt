-- ===== src/ByteOrder/Crossing.antt =====
-- Integers that cross the network: the conversions of src/net/bytes_endian.h on two machines.
use libolptnet.Base.{ℕ, ◌^◌, ◌<◌, ◌≡◌, ◌↔◌, refl, ◌∙◌, true}
use libolptnet.ByteOrder.{
  ByteOrder, little, big, stored, loaded, EndianMacros, EndianLaws, ToNetwork, FromNetwork, bytes,
  is_little_endian, host_to_network64, host_to_network32, host_to_network16, network_to_host64,
  network_to_host32, network_to_host16,
}
use libolptnet.ByteOrder.Bytes.{
  stored-AreBytes, length-stored, loaded-lt, stored-loaded, network_bytes-injective,
}

module _ (sender receiver : ByteOrder) where
  -- The receiver loads the bytes that the sender's conversion has left in memory.
  crossing :
      (w : ℕ) (f g : ℕ → ℕ)
      → ToNetwork sender w f
      → FromNetwork receiver w g
      → (x : ℕ) → x < 256 ^ w
      → g (loaded receiver (stored sender w (f x))) ≡ x
  crossing w f g to from x h =
      let sent = stored sender w (f x) in
      let n = loaded receiver sent in
      let n_lt : n < 256 ^ w =
        loaded-lt receiver w sent (length-stored sender w (f x)) (stored-AreBytes sender w (f x)) in
      network_bytes-injective w (g n) x (from n n_lt).0 h (
        (from n n_lt).1
        ∙ stored-loaded receiver w sent (length-stored sender w (f x))
            (stored-AreBytes sender w (f x))
        ∙ (to x h).1)

  module _ (out : EndianMacros) (out_lem : EndianLaws sender out) (inward : EndianMacros)
      (in_lem : EndianLaws receiver inward) where
    -- For two machines of any byte orders, each with macros that do what the manual says, and
    -- integers of 64, 32 and 16 bits: where the receiver loads the bytes that the sender holds
    -- after `host_to_network64`, `host_to_network32` or `host_to_network16` of the integer, the
    -- matching `network_to_host` gives the integer back.
    pub network_to_host-host_to_network :
        (x64 x32 x16 : ℕ)
        → x64 < 2 ^ 64
        → x32 < 2 ^ 32
        → x16 < 2 ^ 16
        → (network_to_host64 inward (loaded receiver (stored sender 8 (host_to_network64 out x64)))
            ≡ x64)
          × (network_to_host32 inward
                (loaded receiver (stored sender 4 (host_to_network32 out x32)))
              ≡ x32)
          × (network_to_host16 inward
                (loaded receiver (stored sender 2 (host_to_network16 out x16)))
              ≡ x16)
    unfolding host_to_network64 host_to_network32 host_to_network16 network_to_host64
        network_to_host32 network_to_host16
    network_to_host-host_to_network x64 x32 x16 h64 h32 h16 = (
      crossing 8 out.htobe64 inward.be64toh out_lem.htobe64_lem in_lem.be64toh_lem x64 h64,
      crossing 4 out.htobe32 inward.be32toh out_lem.htobe32_lem in_lem.be32toh_lem x32 h32,
      crossing 2 out.htobe16 inward.be16toh out_lem.htobe16_lem in_lem.be16toh_lem x16 h16,
    )

-- `is_little_endian` tells the machines apart.
pub is_little_endian_iff : (order : ByteOrder) → (is_little_endian order ≡ true) ↔ (order ≡ little)
unfolding is_little_endian stored bytes
is_little_endian_iff little = (λ _. refl, λ _. refl)
is_little_endian_iff big = (λ h. cc, λ h. cc)
