-- ===== src/Process/Fits.antt =====
-- How many sessions there can be after each step of the threads.
use mini_pgw.Prelude.{ℕ, suc, ◌≤◌, ◌≡◌, refl, List, [], ◌∷◌, arith, Bool-cases, inl, inr}
use mini_pgw.Text.{Text}
use mini_pgw.Cdr.{Round, waits, ends, writes}
use mini_pgw.Bcd.{decode, received}
use mini_pgw.Blacklist.{Blacklist, is_blocked}
use mini_pgw.Store.{SessionStore, StoreLaws}
use mini_pgw.Udp
use mini_pgw.Udp.EndToEnd.{handle_lem}
use mini_pgw.Manager.{Clock, Manager, touched, touch_session, cleaner_pass}
use mini_pgw.Manager.Accounts.Run.{after_round}
use mini_pgw.Http.{Node}
use mini_pgw.Process.{udp_step}

module _ {S : SessionStore} (L : StoreLaws S) (clock : Clock) (blacklist : Blacklist) where
  -- A valid store of at most `k` sessions.
  pub record Fits (k : ℕ) (m : Manager S) : Type 0 where
    pub valid : L.IsValid m.store
    pub small : L.size m.store ≤ k

  pub Fits-suc : {k : ℕ} {m : Manager S} → Fits k m → Fits (suc k) m
  Fits-suc f = record { valid = f.valid; small = omega arith }

  touch-Fits :
      {k : ℕ} (m : Manager S) (imsi : Text) → Fits k m → Fits (suc k) (touch_session clock m imsi).0
  unfolding touch_session
  touch-Fits {k} m imsi f =
      let valid : L.IsValid (S.save_session m.store (touched clock m imsi)).0 =
        L.save-IsValid m.store (touched clock m imsi) f.valid in
      let small = L.size-save m.store (touched clock m imsi) f.valid in
      elim (Bool-cases (S.session_exists m.store imsi)) [
        | inl old ↦ rw old (record { valid = valid; small = omega arith })
        | inr new ↦ rw new (record { valid = valid; small = omega arith })
      ]

  datagram-Fits :
      {k : ℕ} (m : Manager S) (packet : List ℕ)
      → Fits k m
      → Fits (suc k) (Udp.handle clock blacklist m packet).0
  datagram-Fits m [] f = unfold Udp.handle in Fits-suc f
  datagram-Fits m (b ∷ packet) f =
      elim (Bool-cases (is_blocked blacklist (decode (received (b ∷ packet))))) [
        | inl yes_b ↦ rw (handle_lem clock blacklist m (b ∷ packet) (λ e. cc), yes_b) (Fits-suc f)
        | inr no_b ↦
            rw (handle_lem clock blacklist m (b ∷ packet) (λ e. cc), no_b)
              (touch-Fits m (decode (received (b ∷ packet))) f)
      ]

  udp_at-Fits :
      {k : ℕ} (place : Udp.Place) (u : Udp.UdpServer) (m : Manager S) (e : Udp.Event)
      → Fits k m
      → Fits (suc k) (Udp.step_at clock blacklist place u m e).1
  unfolding Udp.step_at
  udp_at-Fits Udp.in_recvfrom u m (Udp.arrives packet) f = datagram-Fits m packet f
  udp_at-Fits place u m Udp.stops f = Fits-suc f
  udp_at-Fits Udp.at_test u m Udp.tests f = Fits-suc f
  udp_at-Fits Udp.in_recvfrom u m Udp.fails f = Fits-suc f
  udp_at-Fits _ u m _ f = Fits-suc f

  pub udp_step-Fits :
      {k : ℕ} (n : Node S) (e : Udp.Event)
      → Fits k n.sessions
      → Fits (suc k) (udp_step clock blacklist n e).sessions
        × ((udp_step clock blacklist n e).graceful_rate ≡ n.graceful_rate)
  unfolding udp_step
  udp_step-Fits n Udp.stops f = (Fits-suc f, refl)
  udp_step-Fits n Udp.tests f = (udp_at-Fits n.udp.place n.udp n.sessions Udp.tests f, refl)
  udp_step-Fits n Udp.fails f = (udp_at-Fits n.udp.place n.udp n.sessions Udp.fails f, refl)
  udp_step-Fits n (Udp.arrives packet) f =
      (udp_at-Fits n.udp.place n.udp n.sessions (Udp.arrives packet) f, refl)

  pub cleaner-Fits : {k : ℕ} (m : Manager S) → Fits k m → Fits (suc k) (cleaner_pass clock m)
  unfolding cleaner_pass
  cleaner-Fits m f = record {
    valid = L.cleanup-IsValid m.store _ f.valid;
    small = omega (arith, L.size-cleanup m.store _ f.valid, f.small);
  }

  pub after_round-Fits :
      {k : ℕ} (m : Manager S) (r : Round) → Fits k m → Fits (suc k) (after_round clock m r)
  unfolding after_round
  after_round-Fits m waits f = Fits-suc f
  after_round-Fits m ends f = Fits-suc f
  after_round-Fits m (writes w) f = record { valid = f.valid; small = omega (arith, f.small) }
