-- ===== src/ByteOrder/Bytes.antt =====
-- Numbers and their bytes, the byte order of src/net/bytes_endian.h.
use libolptnet.Base.{
  ℕ, ◌+◌, ◌*◌, ◌/◌, ◌%◌, ◌^◌, ◌<◌, ◌≡◌, refl, sym, ap, ◌∙◌, zero, suc, List, [], ◌∷◌, length, arith,
}
use mathlib.Core.List.{reverse, reverse_aux, reverse-reverse}
use native.Mathlib.Nat.{pow-succ'}
use libolptnet.ByteOrder.{ByteOrder, little, big, bytes, value, stored, loaded, network_bytes}

-- Each is a byte.
abbrev pub AreBytes : List ℕ → Type 0
AreBytes [] = Unit {0}
AreBytes (b ∷ bs) = (b < 256) × AreBytes bs

AreBytes-reverse_aux : (bs cs : List ℕ) → AreBytes bs → AreBytes cs → AreBytes (reverse_aux bs cs)
AreBytes-reverse_aux [] cs hb hc = hc
AreBytes-reverse_aux (b ∷ bs) cs hb hc = AreBytes-reverse_aux bs (b ∷ cs) hb.1 (hb.0, hc)

length-reverse_aux : (bs cs : List ℕ) → length (reverse_aux bs cs) ≡ length bs + length cs
length-reverse_aux [] cs = omega arith
length-reverse_aux (b ∷ bs) cs = omega (arith, length-reverse_aux bs (b ∷ cs))

bytes-AreBytes : (w x : ℕ) → AreBytes (bytes w x)
unfolding bytes
bytes-AreBytes zero x = tt
bytes-AreBytes (suc w) x = (omega arith, bytes-AreBytes w (x / 256))

length-bytes : (w x : ℕ) → length (bytes w x) ≡ w
unfolding bytes
length-bytes zero x = refl
length-bytes (suc w) x = ap suc (length-bytes w (x / 256))

pub bytes-value : (w : ℕ) (bs : List ℕ) → length bs ≡ w → AreBytes bs → bytes w (value bs) ≡ bs
unfolding bytes value
bytes-value zero [] e h = refl
bytes-value zero (b ∷ bs) e h = cc
bytes-value (suc w) [] e h = cc
bytes-value (suc w) (b ∷ bs) e h =
    let low : (b + 256 * value bs) % 256 ≡ b = omega arith in
    let high : (b + 256 * value bs) / 256 ≡ value bs = omega arith in
    rw (low, high, bytes-value w bs (omega arith) h.1) refl

value-lt : (w : ℕ) (bs : List ℕ) → length bs ≡ w → AreBytes bs → value bs < 256 ^ w
unfolding value
value-lt zero [] e h = omega arith
value-lt zero (b ∷ bs) e h = cc
value-lt (suc w) [] e h = cc
value-lt (suc w) (b ∷ bs) e h =
    rw (pow-succ' 256 w) (omega (arith, value-lt w bs (omega arith) h.1))

pub value-bytes : (w x : ℕ) → x < 256 ^ w → value (bytes w x) ≡ x
unfolding bytes value
value-bytes zero x h = omega arith
value-bytes (suc w) x h = omega (arith, value-bytes w (x / 256) (omega (arith, pow-succ' 256 w)))

-- The bytes of some integer in memory.
pub stored-AreBytes : (order : ByteOrder) (w x : ℕ) → AreBytes (stored order w x)
unfolding stored
stored-AreBytes little w x = bytes-AreBytes w x
stored-AreBytes big w x = AreBytes-reverse_aux (bytes w x) [] (bytes-AreBytes w x) tt

pub length-stored : (order : ByteOrder) (w x : ℕ) → length (stored order w x) ≡ w
unfolding stored
length-stored little w x = length-bytes w x
length-stored big w x = omega (arith, length-reverse_aux (bytes w x) [], length-bytes w x)

-- `w` bytes are loaded as an integer of that size, which has these bytes.
pub loaded-lt :
    (order : ByteOrder) (w : ℕ) (bs : List ℕ)
    → length bs ≡ w
    → AreBytes bs
    → loaded order bs < 256 ^ w
unfolding loaded
loaded-lt little w bs e h = value-lt w bs e h
loaded-lt big w bs e h =
    value-lt w (reverse bs) (omega (arith, length-reverse_aux bs []))
      (AreBytes-reverse_aux bs [] h tt)

pub stored-loaded :
    (order : ByteOrder) (w : ℕ) (bs : List ℕ)
    → length bs ≡ w
    → AreBytes bs
    → stored order w (loaded order bs) ≡ bs
unfolding stored loaded
stored-loaded little w bs e h = bytes-value w bs e h
stored-loaded big w bs e h =
    ap reverse (
      bytes-value w (reverse bs) (omega (arith, length-reverse_aux bs []))
        (AreBytes-reverse_aux bs [] h tt))
    ∙ reverse-reverse bs

-- Different numbers of `w` bytes have different bytes on the network.
pub network_bytes-injective :
    (w x y : ℕ) → x < 256 ^ w → y < 256 ^ w → network_bytes w x ≡ network_bytes w y → x ≡ y
network_bytes-injective w x y hx hy e =
    sym (value-bytes w x hx)
    ∙ ap value (sym (reverse-reverse (bytes w x)) ∙ ap reverse e ∙ reverse-reverse (bytes w y))
    ∙ value-bytes w y hy
