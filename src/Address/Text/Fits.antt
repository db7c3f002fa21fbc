-- ===== src/Address/Text/Fits.antt =====
-- The lengths of the texts of src/net/tcp_socket_addr.cc, and the digits of the port.
use libolptnet.Base.{
  ℕ, zero, suc, ◌+◌, ◌-◌, ◌*◌, ◌/◌, ◌%◌, ◌≤◌, ◌<◌, ok, Returns, length, length-append, ltb, ltb→lt,
  le→leb, false, Bool-cases, ◌≡◌, refl, ◌∙◌, ◌⊎◌, inl, inr, some, List, [], ◌∷◌, ◌++◌, arith,
}
use libolptnet.Address.{SocketAddress, get_port}
use libolptnet.Address.Text.{
  Printer, str_size, buf_size, decimal, port_places, get_ipaddr, to_string,
}

-- INET_ADDRSTRLEN is enough for any address, and what is stored fits with its final 0.
pub record PrinterLaws (printer : Printer) : Type 0 where
  pub prints :
      (ip size : ℕ)
      → str_size ≤ size
      → (text : List ℕ) × (printer.inet_ntop ip size ≡ some text) × (length text < size)

length-decimal : (places n : ℕ) → length (decimal places n) ≤ places
unfolding decimal
length-decimal zero n = omega arith
length-decimal (suc places) n = ground (
  arith,
  length-decimal places (n / 10),
  length-append (decimal places (n / 10)) ((b'0' + n % 10) ∷ []),
)

-- The number that the digits stand for.
abbrev pub value : List ℕ → ℕ → ℕ
value [] acc = acc
value (c ∷ cs) acc = value cs (acc * 10 + (c - b'0'))

value-append : (cs : List ℕ) (c acc : ℕ) → value (cs ++ c ∷ []) acc ≡ value cs acc * 10 + (c - b'0')
value-append [] c acc = refl
value-append (b ∷ cs) c acc = value-append cs c (acc * 10 + (b - b'0'))

abbrev pub IsDigits : List ℕ → Type 0
IsDigits [] = Unit {0}
IsDigits (c ∷ cs) = (b'0' ≤ c) × (c ≤ b'9') × IsDigits cs

-- There is a first digit, and it is not 0.
abbrev pub IsLed : List ℕ → Type 0
IsLed [] = ⊥
IsLed (c ∷ cs) = b'0' < c

-- A number the way it is written: digits, without a 0 in front unless it is 0.
abbrev pub IsNumeral : List ℕ → Type 0
IsNumeral cs = IsDigits cs × ((cs ≡ b'0' ∷ []) ⊎ IsLed cs)

IsDigits-append :
    (cs : List ℕ) (c : ℕ) → IsDigits cs → b'0' ≤ c → c ≤ b'9' → IsDigits (cs ++ c ∷ [])
IsDigits-append [] c d h k = (h, k, tt)
IsDigits-append (b ∷ cs) c d h k = (d.0, d.1, IsDigits-append cs c d.2 h k)

IsLed-append : (cs ds : List ℕ) → IsLed cs → IsLed (cs ++ ds)
IsLed-append [] ds h = absurd h
IsLed-append (c ∷ cs) ds h = h

-- 10 ^ places.
abbrev power : ℕ → ℕ
power zero = 1
power (suc places) = 10 * power places

value-decimal : (places n : ℕ) → n < power places → value (decimal places n) 0 ≡ n
unfolding decimal
value-decimal zero n h = omega arith
value-decimal (suc places) n h = elim (Bool-cases (ltb n 10)) [
  | inl small ↦ rw small (omega arith)
  | inr large ↦ rw large (
      value-append (decimal places (n / 10)) (b'0' + n % 10) 0
      ∙ omega (arith, value-decimal places (n / 10) (omega arith)))
]

ltb→ge : (a b : ℕ) → ltb a b ≡ false → b ≤ a
ltb→ge a b h = ground arith

decimal-IsDigits : (places n : ℕ) → IsDigits (decimal places n)
unfolding decimal
decimal-IsDigits zero n = tt
decimal-IsDigits (suc places) n = elim (Bool-cases (ltb n 10)) [
  | inl small ↦ rw small (omega arith, omega (arith, ltb→lt n 10 small), tt)
  | inr large ↦ rw large (
      IsDigits-append (decimal places (n / 10)) (b'0' + n % 10) (decimal-IsDigits places (n / 10))
        (omega arith) (omega arith))
]

decimal-IsLed : (places n : ℕ) → 0 < n → n < power places → IsLed (decimal places n)
unfolding decimal
decimal-IsLed zero n p h = omega arith
decimal-IsLed (suc places) n p h = elim (Bool-cases (ltb n 10)) [
  | inl small ↦ rw small (omega arith)
  | inr large ↦ rw large (
      IsLed-append (decimal places (n / 10)) ((b'0' + n % 10) ∷ [])
        (decimal-IsLed places (n / 10) (omega (arith, ltb→ge n 10 large)) (omega arith)))
]

decimal-IsNumeral : (places n : ℕ) → n < power (suc places) → IsNumeral (decimal (suc places) n)
unfolding decimal
decimal-IsNumeral places zero h = (decimal-IsDigits (suc places) zero, inl refl)
decimal-IsNumeral places (suc n) h = (
  decimal-IsDigits (suc places) (suc n),
  inr (decimal-IsLed (suc places) (suc n) (omega arith) h),
)

get_port-lt : (a : SocketAddress) → get_port a < 0x1_0000
unfolding get_port
get_port-lt a = omega arith

module _ (printer : Printer) (laws : PrinterLaws printer) where
  -- The address, a colon and the port in decimal, 21 characters at most.
  abbrev pub Printed : SocketAddress → List ℕ → Type 0
  Printed a text =
      (ip : List ℕ) × (digits : List ℕ) × (get_ipaddr printer a ≡ ok ip)
      × (text ≡ ip ++ b':' ∷ digits)
      × IsNumeral digits
      × (value digits 0 ≡ get_port a)
      × (length text ≤ 21)

  fitting :
      (a : SocketAddress) (ip : List ℕ)
      → get_ipaddr printer a ≡ ok ip
      → length ip < str_size
      → (length (ip ++ b':' ∷ decimal port_places (get_port a)) ≤ 21)
        × (to_string printer a ≡ ok (ip ++ b':' ∷ decimal port_places (get_port a)))
  unfolding to_string
  fitting a ip e short =
      let small : length (ip ++ b':' ∷ decimal port_places (get_port a)) ≤ 21 = omega (
        arith,
        length-append ip (b':' ∷ decimal port_places (get_port a)),
        length-decimal port_places (get_port a),
      ) in
      (
        small,
        rw e (
            rw
              (le→leb (length (ip ++ b':' ∷ decimal port_places (get_port a)) + 1) buf_size
                (omega arith))
              refl),
      )

  -- Where `inet_ntop` succeeds with an array of 16 characters and stays within it, `to_string` of
  -- any address returns, within its array of 32; the text is the address, a colon and the port in
  -- decimal digits, without a 0 in front unless it is 0, and is 21 characters at most.
  pub to_string-Printed : (a : SocketAddress) → Returns (Printed a) (to_string printer a)
  unfolding get_ipaddr
  to_string-Printed a =
      let (ip, e, short) = laws.prints a.addr.sin_addr str_size (omega arith) in
      let known : get_ipaddr printer a ≡ ok ip = rw (e, get_ipaddr) refl in
      let (small, done) = fitting a ip known short in
      rw done (
        ip,
        decimal port_places (get_port a),
        known,
        refl,
        decimal-IsNumeral 4 (get_port a) (omega (arith, get_port-lt a)),
        value-decimal port_places (get_port a) (omega (arith, get_port-lt a)),
        small,
      )
