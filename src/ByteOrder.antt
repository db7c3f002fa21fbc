-- ===== src/ByteOrder.antt =====
-- The byte order of src/net/bytes_endian.h. A machine keeps the bytes of an integer with the least
-- significant one first, or with the most significant one first. The macros of endian.h are a
-- parameter.
pub mod Bytes
pub mod Crossing
use libolptnet.Base.{ℕ, ◌+◌, ◌*◌, ◌/◌, ◌%◌, ◌^◌, ◌<◌, ◌≡◌, Bool, zero, suc, List, [], ◌∷◌, ◌==◌}
use mathlib.Core.List.{reverse}

pub data ByteOrder : Type 0 where
  little : ByteOrder
  big : ByteOrder

-- The `w` low bytes of `x`, the least significant one first.
unfoldable pub bytes : ℕ → ℕ → List ℕ
bytes zero x = []
bytes (suc w) x = (x % 256) ∷ bytes w (x / 256)

-- The number that such bytes stand for.
unfoldable pub value : List ℕ → ℕ
value [] = 0
value (b ∷ bs) = b + 256 * value bs

-- `w` bytes on the network: the most significant one first.
abbrev pub network_bytes : ℕ → ℕ → List ℕ
network_bytes w x = reverse (bytes w x)

-- The bytes in memory of an unsigned integer of `w` bytes.
unfoldable pub stored : ByteOrder → ℕ → ℕ → List ℕ
stored little w x = bytes w x
stored big w x = network_bytes w x

-- The integer whose bytes in memory are these.
unfoldable pub loaded : ByteOrder → List ℕ → ℕ
loaded little bs = value bs
loaded big bs = value (reverse bs)

-- The macros of endian.h.
pub record EndianMacros : Type 0 where
  pub htobe16 : ℕ → ℕ
  pub htobe32 : ℕ → ℕ
  pub htobe64 : ℕ → ℕ
  pub be16toh : ℕ → ℕ
  pub be32toh : ℕ → ℕ
  pub be64toh : ℕ → ℕ

-- A conversion to network order: the bytes in memory of the result are those of the argument in
-- network order.
abbrev pub ToNetwork : ByteOrder → ℕ → (ℕ → ℕ) → Type 0
ToNetwork order w f =
    (x : ℕ) → x < 256 ^ w → (f x < 256 ^ w) × (stored order w (f x) ≡ network_bytes w x)

-- A conversion from network order: the bytes in memory of the argument are those of the result in
-- network order.
abbrev pub FromNetwork : ByteOrder → ℕ → (ℕ → ℕ) → Type 0
FromNetwork order w f =
    (n : ℕ) → n < 256 ^ w → (f n < 256 ^ w) × (network_bytes w (f n) ≡ stored order w n)

-- What the manual says of the macros on a machine of this byte order.
pub record EndianLaws (order : ByteOrder) (macros : EndianMacros) : Type 0 where
  pub htobe16_lem : ToNetwork order 2 macros.htobe16
  pub htobe32_lem : ToNetwork order 4 macros.htobe32
  pub htobe64_lem : ToNetwork order 8 macros.htobe64
  pub be16toh_lem : FromNetwork order 2 macros.be16toh
  pub be32toh_lem : FromNetwork order 4 macros.be32toh
  pub be64toh_lem : FromNetwork order 8 macros.be64toh

first_byte : List ℕ → ℕ
first_byte [] = 0
first_byte (b ∷ _) = b

-- The first byte in memory of the `int` 1.
pub is_little_endian : ByteOrder → Bool
unfolding first_byte
is_little_endian order = first_byte (stored order 4 1) == 1

module _ (macros : EndianMacros) where
  open macros use {htobe16, htobe32, htobe64, be16toh, be32toh, be64toh}

  pub host_to_network64 : ℕ → ℕ
  host_to_network64 host64 = htobe64 host64

  pub host_to_network32 : ℕ → ℕ
  host_to_network32 host32 = htobe32 host32

  pub host_to_network16 : ℕ → ℕ
  host_to_network16 host16 = htobe16 host16

  pub network_to_host64 : ℕ → ℕ
  network_to_host64 net64 = be64toh net64

  pub network_to_host32 : ℕ → ℕ
  network_to_host32 net32 = be32toh net32

  pub network_to_host16 : ℕ → ℕ
  network_to_host16 net16 = be16toh net16
