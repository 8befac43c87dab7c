-- ===== src/Tests/Wire.antt =====
-- The wire format, the blacklist and the UDP thread.
use mathlib.Core.List.{Mem}
use mini_pgw.Prelude.{
  ℕ, ◌+◌, ◌/◌, ◌≤◌, ◌≡◌, ◌↔◌, refl, true, List, [], ◌∷◌, some, arith, take, length, inr,
}
use mini_pgw.Text.{Text, bytes, text_eq}
use mini_pgw.Bcd.{imsi_to_bcd, decode, received}
use mini_pgw.Bcd.Range.{decode-nibbles, length-imsi_to_bcd}
use mini_pgw.Bcd.RoundTrip.{decode-imsi_to_bcd, decode-received-imsi_to_bcd, imsi_to_bcd-decode}
use mini_pgw.Blacklist
use mini_pgw.Blacklist.{Blacklist}
use mini_pgw.Blacklist.Laws.{is_blocked-init}
use mini_pgw.Udp.{in_recvfrom, arrives, tests, stop, handle, replies, rejected_reply}
use mini_pgw.Udp.Replies.{replies-stop-le}
use mini_pgw.Udp.EndToEnd.{handle-imsi_to_bcd}
use mini_pgw.Tests.Fixtures.{ticking, fresh, alice, bob}

-- Fifteen digits: seven full bytes, and one with the filler.
abbrev alice_packet : List ℕ
alice_packet = 0x00 ∷ 0x01 ∷ 0x01 ∷ 0x21 ∷ 0x43 ∷ 0x65 ∷ 0x87 ∷ 0xF9 ∷ []

pack_alice : imsi_to_bcd alice ≡ alice_packet
unfolding imsi_to_bcd
pack_alice = refl

decode-alice : decode alice_packet ≡ alice
unfolding decode
decode-alice = refl

-- A nibble above 9 is no digit, and comes out as a character all the same.
decode_colon : decode (0xFA ∷ []) ≡ bytes ":"
unfolding decode
decode_colon = refl

decode-imsi_to_bcd_example : decode (imsi_to_bcd alice) ≡ alice
decode-imsi_to_bcd_example = decode-imsi_to_bcd alice (omega arith)

abbrev long_imsi : Text
long_imsi = bytes "0123456789012345678901234567890123456789"

decode-received-imsi_to_bcd_example : decode (received (imsi_to_bcd long_imsi)) ≡ take 32 long_imsi
decode-received-imsi_to_bcd_example = decode-received-imsi_to_bcd long_imsi (omega arith)

imsi_to_bcd-decode_example : imsi_to_bcd (decode (0x21 ∷ 0xF3 ∷ [])) ≡ 0x21 ∷ 0xF3 ∷ []
imsi_to_bcd-decode_example =
    imsi_to_bcd-decode (0x21 ∷ 0xF3 ∷ []) (omega arith)
      (omega arith, omega arith, (omega arith, inr refl))

decode-nibbles_example : decode (0x21 ∷ 0xFA ∷ []) ≡ bytes "12:"
decode-nibbles_example = decode-nibbles (0x21 ∷ 0xFA ∷ []) (omega arith)

length-imsi_to_bcd_example : length (imsi_to_bcd alice) ≡ (length alice + 1) / 2
length-imsi_to_bcd_example = length-imsi_to_bcd alice

abbrev blacklist : Blacklist
blacklist = record { blocked = bob ∷ [] }

is_blocked-init_example :
    (Blacklist.is_blocked (Blacklist.init (alice ∷ bob ∷ alice ∷ [])) bob ≡ true)
    ↔ Mem bob (alice ∷ bob ∷ alice ∷ [])
is_blocked-init_example = is_blocked-init (alice ∷ bob ∷ alice ∷ []) bob

handle-imsi_to_bcd_example :
    handle ticking blacklist fresh (imsi_to_bcd bob) ≡ (fresh, some rejected_reply)
unfolding Blacklist.is_blocked Blacklist.contains text_eq
handle-imsi_to_bcd_example =
    handle-imsi_to_bcd ticking blacklist fresh bob (omega arith) (λ e. cc) (omega arith)

replies-stop-le_example :
    replies ticking blacklist
      (stop (record { running = true; place = in_recvfrom }))
      fresh
      (arrives alice_packet ∷ tests ∷ arrives alice_packet ∷ [])
    ≤ 1
replies-stop-le_example =
    replies-stop-le ticking blacklist (record { running = true; place = in_recvfrom }) fresh
      (arrives alice_packet ∷ tests ∷ arrives alice_packet ∷ [])
