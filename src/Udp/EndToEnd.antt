-- ===== src/Udp/EndToEnd.antt =====
-- The answer to a datagram, and the way from a client's IMSI to a session.
use mini_pgw.Prelude.{
  ℕ, ◌≤◌, ◌≡◌, ◌≢◌, refl, ◌∙◌, List, [], ◌∷◌, some, arith, length, All, if◌then◌else◌, take_all,
}
use mini_pgw.Text.{Text}
use mini_pgw.Bcd.{imsi_to_bcd, decode, received}
use mini_pgw.Bcd.RoundTrip.{IsDigit, decode-received-imsi_to_bcd}
use mini_pgw.Blacklist.{Blacklist, is_blocked}
use mini_pgw.Store.{SessionStore}
use mini_pgw.Manager.{Clock, Manager, touch_session}
use mini_pgw.Manager.Activity.{touch_session-true}
use mini_pgw.Udp.{created_reply, rejected_reply, answer, handle}

module _ {S : SessionStore} (clock : Clock) (blacklist : Blacklist) (m : Manager S) where
  answer_lem :
      (imsi : Text)
      → answer clock blacklist m imsi ≡ (
          if is_blocked blacklist imsi
          then (m, rejected_reply)
          else ((touch_session clock m imsi).0, created_reply))
  unfolding answer
  answer_lem imsi = ground (arith, touch_session-true clock m imsi)

  -- A datagram that is not empty is answered, whatever its bytes: "rejected" with no change of the
  -- sessions if the blacklist blocks the IMSI decoded from its first 16 bytes, and otherwise
  -- "created" after a touch of that IMSI.
  pub handle_lem :
      (packet : List ℕ)
      → packet ≢ []
      → handle clock blacklist m packet ≡ (
          let imsi = decode (received packet) in
          if is_blocked blacklist imsi
          then (m, some rejected_reply)
          else ((touch_session clock m imsi).0, some created_reply))
  unfolding handle
  handle_lem [] h = absurd (h refl)
  handle_lem (b ∷ packet) h = ground (arith, answer_lem (decode (received (b ∷ packet))))

  imsi_to_bcd-ne-nil : (imsi : Text) → imsi ≢ [] → imsi_to_bcd imsi ≢ []
  unfolding imsi_to_bcd
  imsi_to_bcd-ne-nil [] h = λ e. h refl
  imsi_to_bcd-ne-nil (c ∷ []) h = λ e. cc
  imsi_to_bcd-ne-nil (c ∷ d ∷ imsi) h = λ e. cc

  -- A datagram packed by the client from an IMSI of 1 to 32 digits is answered "rejected" with no
  -- change of the sessions if the blacklist blocks that IMSI, and otherwise "created" after a
  -- touch of that very IMSI.
  pub handle-imsi_to_bcd :
      (imsi : Text)
      → All IsDigit imsi
      → imsi ≢ []
      → length imsi ≤ 32
      → handle clock blacklist m (imsi_to_bcd imsi) ≡ (
          if is_blocked blacklist imsi
          then (m, some rejected_reply)
          else ((touch_session clock m imsi).0, some created_reply))
  handle-imsi_to_bcd imsi digits ne short =
      let same : decode (received (imsi_to_bcd imsi)) ≡ imsi =
        decode-received-imsi_to_bcd imsi digits ∙ take_all imsi 32 short in
      handle_lem (imsi_to_bcd imsi) (imsi_to_bcd-ne-nil imsi ne) ∙ rw same
