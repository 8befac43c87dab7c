-- ===== src/Client/Dialogue.antt =====
-- A client's request against the server.
use mini_pgw.Prelude.{
  ℕ, ◌≤◌, ◌≡◌, ◌≢◌, refl, true, [], arith, length, All, Bool-cases, inl, inr, if◌then◌else◌,
}
use mini_pgw.Text.{Text, text_eq}
use mini_pgw.Bcd.{imsi_to_bcd}
use mini_pgw.Bcd.RoundTrip.{IsDigit}
use mini_pgw.Blacklist.{Blacklist, is_blocked}
use mini_pgw.Store.{SessionStore}
use mini_pgw.Manager.{Clock, Manager}
use mini_pgw.Udp
use mini_pgw.Udp.EndToEnd.{handle-imsi_to_bcd}
use mini_pgw.Client.{
  success, Network, session_created, unknown_response, generate_imsi, judge, after_send,
  request_session,
}

-- A generated IMSI has fifteen digits.
pub generate_imsi-IsDigit :
    (a b c : ℕ)
    → a ≤ 9
    → b ≤ 9
    → c ≤ 9
    → All IsDigit (generate_imsi a b c) × (length (generate_imsi a b c) ≡ 15)
unfolding generate_imsi
generate_imsi-IsDigit a b c p q r = (omega arith, omega arith)

judge_created : judge Udp.created_reply ≡ session_created
unfolding judge text_eq
judge_created = refl

judge_rejected : judge Udp.rejected_reply ≡ unknown_response
unfolding judge text_eq
judge_rejected = refl

-- A network that carries the datagram to the server, and its answer back.
abbrev pub connected : {S : SessionStore} → Clock → Blacklist → Manager S → Text → Network
connected clock blacklist m imsi = record {
  socket_opens = true;
  address_parses = true;
  send_works = true;
  arrives = (Udp.handle clock blacklist m (imsi_to_bcd imsi)).1;
}

module _ {S : SessionStore} (clock : Clock) (blacklist : Blacklist) (m : Manager S) where
  -- Over a network that works, a client's request for an IMSI of 1 to 32 digits, answered by the
  -- server's handler, succeeds, and logs a session created exactly when the blacklist does not
  -- block the IMSI, and an unknown response otherwise.
  pub request_session-handle :
      (imsi : Text)
      → All IsDigit imsi
      → imsi ≢ []
      → length imsi ≤ 32
      → let run = request_session (connected clock blacklist m imsi) imsi in
        (run.code ≡ success)
        × (run.verdict ≡ (if is_blocked blacklist imsi then unknown_response else session_created))
  unfolding request_session after_send
  request_session-handle imsi digits ne short = elim (Bool-cases (is_blocked blacklist imsi)) [
    | inl yes_b ↦
        rw (handle-imsi_to_bcd clock blacklist m imsi digits ne short, yes_b) (refl, judge_rejected)
    | inr no_b ↦
        rw (handle-imsi_to_bcd clock blacklist m imsi digits ne short, no_b) (refl, judge_created)
  ]
