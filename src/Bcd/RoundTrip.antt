-- ===== src/Bcd/RoundTrip.antt =====
-- The client's packing and the server's decoding, one after the other.
use mini_pgw.Prelude.{
  ℕ, zero, suc, ◌+◌, ◌*◌, ◌/◌, ◌%◌, ◌≤◌, ◌<◌, ◌≡◌, refl, ap, ◌∙◌, ◌⊎◌, inl, inr, List, [], ◌∷◌,
  arith, All, take,
}
use mini_pgw.Text.{Text}
use mini_pgw.Bcd.{
  filler, digit_of, pack, push_digit, imsi_to_bcd, decode, low_nibble, high_nibble, received,
}
use mini_pgw.Bcd.Nibbles.{pack_lem, low_nibble_lem, high_nibble_lem}
use mini_pgw.Bcd.Range.{IsByte}

abbrev pub IsDigit : ℕ → Type 0
IsDigit c = (b'0' ≤ c) × (c ≤ b'9')

digit_of_lem : (c : ℕ) → IsDigit c → (digit_of c < 10) × (b'0' + digit_of c ≡ c)
unfolding digit_of
digit_of_lem c h = omega arith

push_digit_of : (c : ℕ) (rest : Text) → IsDigit c → push_digit (digit_of c) rest ≡ c ∷ rest
unfolding push_digit
push_digit_of c rest h = ground (arith, digit_of_lem c h)

-- The two halves of a packed byte.
nibbles-pack :
    (high low : ℕ)
    → high < 16
    → low < 16
    → (low_nibble (pack high low) ≡ low) × (high_nibble (pack high low) ≡ high)
nibbles-pack high low h l =
    let b = pack high low in
    let e : b ≡ high * 16 + low = pack_lem high low h l in
    (omega (arith, low_nibble_lem b (omega arith)), omega (arith, high_nibble_lem b (omega arith)))

decode-pack :
    (high low : ℕ) (packet : List ℕ)
    → high < 16
    → low < 16
    → decode (pack high low ∷ packet) ≡ push_digit low (push_digit high (decode packet))
unfolding decode
decode-pack high low packet h l = let (p, q) = nibbles-pack high low h l in rw (p, q)

decode-pack_digits :
    (c d : ℕ) (packet : List ℕ)
    → IsDigit c
    → IsDigit d
    → decode (pack (digit_of d) (digit_of c) ∷ packet) ≡ c ∷ d ∷ decode packet
decode-pack_digits c d packet hc hd =
    decode-pack (digit_of d) (digit_of c) packet (omega (arith, digit_of_lem d hd))
      (omega (arith, digit_of_lem c hc))
    ∙ ap (push_digit (digit_of c)) (push_digit_of d (decode packet) hd)
    ∙ push_digit_of c (d ∷ decode packet) hc

decode-pack-filler : (c : ℕ) → IsDigit c → decode (pack filler (digit_of c) ∷ []) ≡ c ∷ []
decode-pack-filler c hc =
    decode-pack filler (digit_of c) [] (omega arith) (omega (arith, digit_of_lem c hc))
    ∙ (unfold decode in push_digit_of c [] hc)

suc-*-two : (n : ℕ) → suc n * 2 ≡ suc (suc (n * 2))
suc-*-two n = omega arith

-- A prefix of the packet decodes to the digits that it was packed from.
decode-take-imsi_to_bcd :
    (n : ℕ) (imsi : Text)
    → All IsDigit imsi
    → decode (take n (imsi_to_bcd imsi)) ≡ take (n * 2) imsi
unfolding imsi_to_bcd
decode-take-imsi_to_bcd zero imsi h = unfold decode in refl
decode-take-imsi_to_bcd (suc n) [] h = unfold decode in rw suc-*-two
decode-take-imsi_to_bcd (suc zero) (c ∷ []) h = decode-pack-filler c h.0
decode-take-imsi_to_bcd (suc (suc n)) (c ∷ []) h = rw suc-*-two (decode-pack-filler c h.0)
decode-take-imsi_to_bcd (suc n) (c ∷ d ∷ imsi) h =
    rw (suc-*-two n, decode-pack_digits c d _ h.0 h.1.0)
      (ap (λ t. c ∷ d ∷ t) (decode-take-imsi_to_bcd n imsi h.1.1))

-- For an IMSI of decimal digits, of any length, decoding what the client packs gives the IMSI
-- back.
pub decode-imsi_to_bcd : (imsi : Text) → All IsDigit imsi → decode (imsi_to_bcd imsi) ≡ imsi
unfolding imsi_to_bcd
decode-imsi_to_bcd [] h = unfold decode in refl
decode-imsi_to_bcd (c ∷ []) h = decode-pack-filler c h.0
decode-imsi_to_bcd (c ∷ d ∷ imsi) h =
    rw (decode-pack_digits c d _ h.0 h.1.0) (ap (λ t. c ∷ d ∷ t) (decode-imsi_to_bcd imsi h.1.1))

-- For an IMSI of decimal digits, what the server decodes from its receive buffer is the first 32
-- digits of the IMSI.
pub decode-received-imsi_to_bcd :
    (imsi : Text) → All IsDigit imsi → decode (received (imsi_to_bcd imsi)) ≡ take 32 imsi
unfolding received
decode-received-imsi_to_bcd imsi h = decode-take-imsi_to_bcd 16 imsi h

-- Bytes of two decimal digits, the last of which may have the filler for its second digit.
abbrev pub IsPacked : List ℕ → Type 0
IsPacked [] = Unit
IsPacked (b ∷ []) = (b % 16 < 10) × ((b / 16 < 10) ⊎ (b / 16 ≡ filler))
IsPacked (b ∷ c ∷ packet) = (b % 16 < 10) × (b / 16 < 10) × IsPacked (c ∷ packet)

digit_of-char : (x : ℕ) → x < 16 → digit_of (b'0' + x) ≡ x
unfolding digit_of
digit_of-char x h = omega arith

push_digit_lt : (x : ℕ) (rest : Text) → x < 10 → push_digit x rest ≡ (b'0' + x) ∷ rest
unfolding push_digit
push_digit_lt x rest h = ground arith

push_digit-filler : (x : ℕ) (rest : Text) → x ≡ filler → push_digit x rest ≡ rest
unfolding push_digit
push_digit-filler x rest h = ground arith

-- The digits of a byte, packed again.
pack-digit_of : (b : ℕ) → b < 256 → pack (digit_of (b'0' + b / 16)) (digit_of (b'0' + b % 16)) ≡ b
pack-digit_of b h =
    rw (digit_of-char (b / 16) (omega arith), digit_of-char (b % 16) (omega arith))
      (omega (arith, pack_lem (b / 16) (b % 16) (omega arith) (omega arith)))

pack-digit_of-filler :
    (b : ℕ) → b < 256 → b / 16 ≡ filler → pack filler (digit_of (b'0' + b % 16)) ≡ b
pack-digit_of-filler b h p =
    rw (digit_of-char (b % 16) (omega arith))
      (omega (arith, pack_lem filler (b % 16) (omega arith) (omega arith)))

decode-full :
    (b : ℕ) (packet : List ℕ)
    → b < 256
    → b % 16 < 10
    → b / 16 < 10
    → decode (b ∷ packet) ≡ (b'0' + b % 16) ∷ (b'0' + b / 16) ∷ decode packet
unfolding decode
decode-full b packet h p q =
    rw (low_nibble_lem b h, high_nibble_lem b h)
      (ap (push_digit (b % 16)) (push_digit_lt (b / 16) (decode packet) q)
        ∙ push_digit_lt (b % 16) _ p)

decode-half :
    (b : ℕ) → b < 256 → b % 16 < 10 → b / 16 ≡ filler → decode (b ∷ []) ≡ (b'0' + b % 16) ∷ []
unfolding decode
decode-half b h p q =
    rw (low_nibble_lem b h, high_nibble_lem b h)
      (ap (push_digit (b % 16)) (push_digit-filler (b / 16) [] q) ∙ push_digit_lt (b % 16) [] p)

-- For a packet of bytes of two decimal digits, of which the last may have the filler in its high
-- half, packing what it decodes to gives the packet back.
pub imsi_to_bcd-decode :
    (packet : List ℕ) → All IsByte packet → IsPacked packet → imsi_to_bcd (decode packet) ≡ packet
unfolding imsi_to_bcd
imsi_to_bcd-decode [] h v = unfold decode in refl
imsi_to_bcd-decode (b ∷ []) h (low, inl high) =
    rw (decode-full b [] h.0 low high) (unfold decode in ap (λ x. x ∷ []) (pack-digit_of b h.0))
imsi_to_bcd-decode (b ∷ []) h (low, inr high) =
    rw (decode-half b h.0 low high) (ap (λ x. x ∷ []) (pack-digit_of-filler b h.0 high))
imsi_to_bcd-decode (b ∷ c ∷ packet) h v =
    rw (decode-full b (c ∷ packet) h.0 v.0 v.1)
      (λ i. pack-digit_of b h.0 i ∷ imsi_to_bcd-decode (c ∷ packet) h.1 v.2 i)
