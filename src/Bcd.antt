-- ===== src/Bcd.antt =====
-- IMSI numbers on the wire: `imsi_to_bcd` of src/client/client.cpp, and the decoding loop of
-- `UdpServer::run_loop` (src/server/udp_server.cpp) with its receive buffer of 16 bytes.
-- A `uint8_t` is a number kept below 256 by `% 256`.
pub mod Nibbles
pub mod Range
pub mod RoundTrip
use mini_pgw.Prelude.{
  ℕ, ◌+◌, ◌-◌, ◌*◌, ◌/◌, ◌%◌, ◌^◌, bit_and, bit_or, List, [], ◌∷◌, ◌++◌, ◌==◌, if◌then◌else◌, take,
}
use mini_pgw.Text.{Text}

abbrev pub filler : ℕ
filler = 0xF

-- `uint8_t low = imsi[i] - '0'`
unfoldable pub digit_of : ℕ → ℕ
digit_of c = (c + 256 - b'0') % 256

-- `bcd.push_back((high << 4) | low)`
unfoldable pub pack : ℕ → ℕ → ℕ
pack high low = bit_or (high * 2 ^ 4) low % 256

unfoldable pub imsi_to_bcd : Text → List ℕ
unfolding digit_of pack
imsi_to_bcd [] = []
imsi_to_bcd (c ∷ []) = pack filler (digit_of c) ∷ []
imsi_to_bcd (c ∷ d ∷ imsi) = pack (digit_of d) (digit_of c) ∷ imsi_to_bcd imsi

abbrev pub low_nibble : ℕ → ℕ
low_nibble b = bit_and b 0x0F

abbrev pub high_nibble : ℕ → ℕ
high_nibble b = bit_and (b / 2 ^ 4) 0x0F

-- `if (x != 0xF) imsi.push_back(char('0' + x))`, in front of what the rest of the loop appends
unfoldable pub push_digit : ℕ → Text → Text
push_digit x rest = if x == filler then rest else (b'0' + x) ∷ rest

unfoldable pub decode : List ℕ → Text
unfolding push_digit
decode [] = []
decode (b ∷ packet) = push_digit (low_nibble b) (push_digit (high_nibble b) (decode packet))

abbrev pub buffer_size : ℕ
buffer_size = 16

-- `recvfrom` into the buffer drops what a datagram has beyond it.
unfoldable pub received : List ℕ → List ℕ
received packet = take buffer_size packet
