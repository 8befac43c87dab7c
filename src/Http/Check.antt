-- ===== src/Http/Check.antt =====
-- What GET /check_subscriber answers, from the datagram that made the session on.
use mini_pgw.Prelude.{ℕ, suc, ◌+◌, ◌≤◌, ◌≡◌, ◌≢◌, false, [], arith, All, length, ltb, if◌then◌else◌}
use mini_pgw.Text.{Text, bytes}
use mini_pgw.Bcd.{imsi_to_bcd}
use mini_pgw.Bcd.RoundTrip.{IsDigit}
use mini_pgw.Blacklist.{Blacklist, is_blocked}
use mini_pgw.Store.{SessionStore, StoreLaws, passes, is_live}
use mini_pgw.Udp
use mini_pgw.Udp.EndToEnd.{handle-imsi_to_bcd}
use mini_pgw.Manager.{Clock, now_at}
use mini_pgw.Manager.Activity.{IsSteady, is_active_lem, is_active-touch_session}
use mini_pgw.Http.{Node, handle_check}

module _ {S : SessionStore} (L : StoreLaws S) (clock : Clock) where
  -- For a valid store, GET /check_subscriber answers "active" if the store holds a session of the
  -- IMSI that expires after the clock reading of the request, and "not active" otherwise.
  pub handle_check_lem :
      (n : Node S) (imsi : Text)
      → L.IsValid n.sessions.store
      → (handle_check clock n imsi).1 ≡ (
          if passes (is_live (now_at clock n.sessions.reads)) (L.find n.sessions.store imsi)
          then bytes "active"
          else bytes "not active")
  unfolding handle_check
  handle_check_lem n imsi v = ground (arith, is_active_lem L clock n.sessions imsi v)

  -- For a steady clock and a valid store, after the datagram that a client sends for an IMSI of 1
  -- to 32 digits that is not blocked, GET /check_subscriber at the j-th clock reading answers
  -- "active" exactly when that reading is before the reading that dated the session plus the
  -- timeout, and "not active" otherwise.
  pub check_after_datagram :
      (blacklist : Blacklist) (n : Node S) (imsi : Text) (j : ℕ)
      → IsSteady clock
      → L.IsValid n.sessions.store
      → All IsDigit imsi
      → imsi ≢ []
      → length imsi ≤ 32
      → is_blocked blacklist imsi ≡ false
      → let m = (Udp.handle clock blacklist n.sessions (imsi_to_bcd imsi)).0 in
        (handle_check clock (record n { sessions = record m { reads = j } }) imsi).1 ≡ (
          if ltb (clock.seconds j) (clock.seconds (suc n.sessions.reads) + n.sessions.timeout)
          then bytes "active"
          else bytes "not active")
  unfolding handle_check
  check_after_datagram blacklist n imsi j steady v digits ne short free =
      rw (handle-imsi_to_bcd clock blacklist n.sessions imsi digits ne short, free)
        (ground (arith, is_active-touch_session L clock n.sessions imsi j steady v))
