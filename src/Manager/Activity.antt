-- ===== src/Manager/Activity.antt =====
-- What `is_active` answers, and what a touch changes in the store.
use mini_pgw.Prelude.{
  ℕ, suc, ◌+◌, ◌≤◌, ◌≡◌, refl, ◌∙◌, true, List, [], ◌∷◌, some, arith, if◌then◌else◌, any_of, ltb,
}
use mini_pgw.Text.{Text, text_eq, text_lt}
use mini_pgw.Text.Order.{text_eq_iff}
use mini_pgw.Store.{StoredSession, SessionStore, StoreLaws, tally, passes, is_live}
use mini_pgw.Manager.{Clock, Manager, now_at, touched, touch_session, is_active}

-- A clock that never goes back, and whose texts are in the order of its times: `"%F %T"` at a fixed
-- offset from UTC.
pub record IsSteady (clock : Clock) : Type 0 where
  pub forward : (i : ℕ) → clock.seconds i ≤ clock.seconds (suc i)
  pub ordered : (a b : ℕ) → text_lt (clock.stamp a) (clock.stamp b) ≡ ltb a b

text_eq_comm : (a b : Text) → text_eq a b ≡ text_eq b a
text_eq_comm a b = ground (arith, text_eq_iff a b, text_eq_iff b a)

any_of-tally :
    (k : Text) (sessions : List StoredSession)
    → any_of (λ s. text_eq s.imsi k) sessions ≡ ltb 0 (tally k sessions)
any_of-tally k [] = refl
any_of-tally k (s ∷ sessions) = ground (arith, text_eq_comm s.imsi k, any_of-tally k sessions)

module _ {S : SessionStore} (clock : Clock) (m : Manager S) where
  pub touch_session_held :
      (imsi : Text)
      → S.session_exists m.store imsi ≡ true
      → touch_session clock m imsi ≡ (
        record m {
          store = (S.save_session m.store (touched clock m imsi)).0;
          reads = suc (suc m.reads);
        },
        true,
      )
  unfolding touch_session
  touch_session_held imsi old = ground arith

  -- A touch returns true, whether it creates a session or prolongs one.
  pub touch_session-true : (imsi : Text) → (touch_session clock m imsi).1 ≡ true
  unfolding touch_session
  touch_session-true imsi = ground arith

module _ {S : SessionStore} (L : StoreLaws S) (clock : Clock) where
  -- An IMSI is active when the store has a session of it that expires after the reading of the clock.
  pub is_active_lem :
      (m : Manager S) (imsi : Text)
      → L.IsValid m.store
      → (is_active clock m imsi).1 ≡ passes (is_live (now_at clock m.reads)) (L.find m.store imsi)
  unfolding is_active
  is_active_lem m imsi v =
      any_of-tally imsi _ ∙ (rw (L.load-tally m.store (now_at clock m.reads) imsi v) (ground arith))

module _ {S : SessionStore} (L : StoreLaws S) (clock : Clock) (m : Manager S) where
  -- For a valid store, a touch stores the new session under its IMSI, whether or not there was
  -- one, with both its times new, and leaves the sessions of all other IMSI.
  pub find-touch_session :
      (imsi k : Text)
      → L.IsValid m.store
      → L.find (touch_session clock m imsi).0.store k
        ≡ (if text_eq imsi k then some (touched clock m imsi) else L.find m.store k)
  unfolding touch_session
  find-touch_session imsi k v = ground (arith, L.find-save m.store (touched clock m imsi) k v)

  pub touch_session-IsValid :
      (imsi : Text) → L.IsValid m.store → L.IsValid (touch_session clock m imsi).0.store
  unfolding touch_session
  touch_session-IsValid imsi v = ground (arith, L.save-IsValid m.store (touched clock m imsi) v)

  -- For a steady clock and a valid store, a session just touched is active at the j-th clock
  -- reading exactly when that reading, in seconds, is below the reading that dated the session
  -- plus the timeout.
  pub is_active-touch_session :
      (imsi : Text) (j : ℕ)
      → IsSteady clock
      → L.IsValid m.store
      → (is_active clock (record (touch_session clock m imsi).0 { reads = j }) imsi).1
        ≡ ltb (clock.seconds j) (clock.seconds (suc m.reads) + m.timeout)
  is_active-touch_session imsi j steady v =
      is_active_lem L clock (record (touch_session clock m imsi).0 { reads = j }) imsi
        (touch_session-IsValid imsi v)
      ∙ ground (
        arith,
        find-touch_session imsi imsi v,
        text_eq_iff imsi imsi,
        steady.ordered (clock.seconds j) (clock.seconds (suc m.reads) + m.timeout),
      )
