-- ===== src/Bcd/Range.antt =====
-- What the decoder can produce, for any datagram: its length, its characters, and the digits that it
-- keeps, against an arithmetic reading of the packet.
use mini_pgw.Prelude.{
  ℕ, ◌+◌, ◌*◌, ◌/◌, ◌%◌, ◌≤◌, ◌<◌, ◌≡◌, refl, not, List, [], ◌∷◌, map, arith, ◌==◌, All, keep_if,
  length, zero, suc, take,
}
use mini_pgw.Text.{Text}
use mini_pgw.Bcd.{
  filler, push_digit, imsi_to_bcd, decode, low_nibble, high_nibble, received, buffer_size,
}
use mini_pgw.Bcd.Nibbles.{low_nibble_lem, high_nibble_lem}

abbrev pub IsByte : ℕ → Type 0
IsByte b = b < 256

-- The characters '0' to '>' that a nibble other than the filler can become.
abbrev pub IsImsiChar : ℕ → Type 0
IsImsiChar c = (b'0' ≤ c) × (c ≤ b'>')

-- The nibbles of a packet in the order of their digits.
abbrev pub nibbles : List ℕ → List ℕ
nibbles [] = []
nibbles (b ∷ packet) = (b % 16) ∷ (b / 16) ∷ nibbles packet

-- For a packet of bytes, the decoder keeps the nibbles other than 0xF, low half first, each as the
-- character that many places after '0'.
pub decode-nibbles :
    (packet : List ℕ)
    → All IsByte packet
    → decode packet ≡ map (λ x. b'0' + x) (keep_if (λ x. not (x == filler)) (nibbles packet))
unfolding decode
decode-nibbles [] h = refl
decode-nibbles (b ∷ packet) h =
    rw (low_nibble_lem b h.0, high_nibble_lem b h.0) (ground (arith, decode-nibbles packet h.1))

push_digit-IsImsiChar :
    (x : ℕ) (rest : Text) → x < 16 → All IsImsiChar rest → All IsImsiChar (push_digit x rest)
unfolding push_digit
push_digit-IsImsiChar x rest h all = ground arith

-- For a packet of bytes, every character of the decoded IMSI lies between '0' and '>'.
pub decode-IsImsiChar : (packet : List ℕ) → All IsByte packet → All IsImsiChar (decode packet)
unfolding decode
decode-IsImsiChar [] h = tt
decode-IsImsiChar (b ∷ packet) h =
    push_digit-IsImsiChar (low_nibble b) _ (omega (arith, low_nibble_lem b h.0)) (
      push_digit-IsImsiChar (high_nibble b) _ (omega (arith, high_nibble_lem b h.0))
        (decode-IsImsiChar packet h.1))

length-push_digit-le : (x : ℕ) (rest : Text) → length (push_digit x rest) ≤ length rest + 1
unfolding push_digit
length-push_digit-le x rest = ground arith

pub length-decode-le : (packet : List ℕ) → length (decode packet) ≤ 2 * length packet
unfolding decode
length-decode-le [] = omega arith
length-decode-le (b ∷ packet) = omega (
  arith,
  length-push_digit-le (low_nibble b) (push_digit (high_nibble b) (decode packet)),
  length-push_digit-le (high_nibble b) (decode packet),
  length-decode-le packet,
)

length-take-le : (n : ℕ) (packet : List ℕ) → length (take n packet) ≤ n
length-take-le zero packet = omega arith
length-take-le (suc n) [] = omega arith
length-take-le (suc n) (b ∷ packet) = omega (arith, length-take-le n packet)

-- However long a datagram is, the IMSI that the server decodes has at most 32 characters.
pub length-decode-received-le : (packet : List ℕ) → length (decode (received packet)) ≤ 32
unfolding received
length-decode-received-le packet =
    omega (arith, length-decode-le (take buffer_size packet), length-take-le buffer_size packet)

-- The client sends one byte for every two digits begun.
pub length-imsi_to_bcd : (imsi : Text) → length (imsi_to_bcd imsi) ≡ (length imsi + 1) / 2
unfolding imsi_to_bcd
length-imsi_to_bcd [] = refl
length-imsi_to_bcd (c ∷ []) = refl
length-imsi_to_bcd (c ∷ d ∷ imsi) = omega (arith, length-imsi_to_bcd imsi)

pub imsi_to_bcd-IsByte : (imsi : Text) → All IsByte (imsi_to_bcd imsi)
unfolding imsi_to_bcd
imsi_to_bcd-IsByte [] = tt
imsi_to_bcd-IsByte (c ∷ []) = (omega arith, tt)
imsi_to_bcd-IsByte (c ∷ d ∷ imsi) = (omega arith, imsi_to_bcd-IsByte imsi)
