-- ===== src/Tests/Machines.antt =====
-- Two machines with macros as in endian.h, and an integer between them: src/net/bytes_endian.h.
use libolptnet.Base.{ℕ, ◌^◌, ◌<◌, ◌≡◌, refl, ◌∙◌, ap, arith}
use mathlib.Core.List.{reverse, reverse-reverse}
use libolptnet.ByteOrder.{
  little, big, bytes, value, stored, loaded, network_bytes, EndianMacros, EndianLaws, ToNetwork,
  FromNetwork, host_to_network64, host_to_network32, host_to_network16, network_to_host64,
  network_to_host32, network_to_host16,
}
use libolptnet.ByteOrder.Bytes.{bytes-value, loaded-lt, stored-AreBytes, length-stored}
use libolptnet.ByteOrder.Crossing.{network_to_host-host_to_network}

-- The bytes in reverse.
swap : ℕ → ℕ → ℕ
swap w x = value (network_bytes w x)

abbrev little_macros : EndianMacros
little_macros = record {
  htobe16 = swap 2;
  htobe32 = swap 4;
  htobe64 = swap 8;
  be16toh = swap 2;
  be32toh = swap 4;
  be64toh = swap 8;
}

abbrev big_macros : EndianMacros
big_macros = record {
  htobe16 = λ x. x;
  htobe32 = λ x. x;
  htobe64 = λ x. x;
  be16toh = λ x. x;
  be32toh = λ x. x;
  be64toh = λ x. x;
}

swap-lt : (w x : ℕ) → swap w x < 256 ^ w
unfolding swap stored loaded
swap-lt w x = loaded-lt little w (stored big w x) (length-stored big w x) (stored-AreBytes big w x)

swap-ToNetwork : (w : ℕ) → ToNetwork little w (swap w)
unfolding swap stored
swap-ToNetwork w x h =
    (swap-lt w x, bytes-value w (stored big w x) (length-stored big w x) (stored-AreBytes big w x))

swap-FromNetwork : (w : ℕ) → FromNetwork little w (swap w)
unfolding swap stored
swap-FromNetwork w n h = (
  swap-lt w n,
  ap reverse (bytes-value w (stored big w n) (length-stored big w n) (stored-AreBytes big w n))
      ∙ reverse-reverse (bytes w n),
)

little_macros_lem : EndianLaws little little_macros
little_macros_lem = record {
  htobe16_lem = swap-ToNetwork 2;
  htobe32_lem = swap-ToNetwork 4;
  htobe64_lem = swap-ToNetwork 8;
  be16toh_lem = swap-FromNetwork 2;
  be32toh_lem = swap-FromNetwork 4;
  be64toh_lem = swap-FromNetwork 8;
}

kept : (w : ℕ) → ToNetwork big w (λ x. x)
unfolding stored
kept w x h = (h, refl)

big_macros_lem : EndianLaws big big_macros
unfolding stored
big_macros_lem = record {
  htobe16_lem = kept 2;
  htobe32_lem = kept 4;
  htobe64_lem = kept 8;
  be16toh_lem = λ n h. (h, refl);
  be32toh_lem = λ n h. (h, refl);
  be64toh_lem = λ n h. (h, refl);
}

swapped : swap 4 0x1234_5678 ≡ 0x7856_3412
unfolding swap bytes value
swapped = refl

network_to_host-host_to_network_example :
    (network_to_host64 big_macros
        (loaded big (stored little 8 (host_to_network64 little_macros 0x1_0000_0002)))
      ≡ 0x1_0000_0002)
    × (network_to_host32 big_macros
          (loaded big (stored little 4 (host_to_network32 little_macros 0x1234_5678)))
        ≡ 0x1234_5678)
    × (network_to_host16 big_macros
          (loaded big (stored little 2 (host_to_network16 little_macros 8080)))
        ≡ 8080)
network_to_host-host_to_network_example =
    network_to_host-host_to_network little big little_macros little_macros_lem big_macros
      big_macros_lem 0x1_0000_0002 0x1234_5678 8080 (omega arith) (omega arith) (omega arith)
