-- ===== src/Manager.antt =====
-- src/server/session_manager.cpp and include/pgw/session_manager.hpp, over any store that fills the
-- interface `ISessionStore`. A method here goes through at once: Race.antt and
-- Threads.antt let other threads come between its parts. Time is the clock's: its i-th reading is in seconds, and `stamp`
-- is `put_time` of `localtime`. The manager counts the readings. Log messages are left out.
pub mod Rounds
pub mod Accounts
pub mod Activity
pub mod Shutdown
pub mod Books
pub mod Independence
use mini_pgw.Prelude.{
  ℕ, zero, suc, ◌+◌, ◌≡◌, Bool, true, false, List, [], ◌∷◌, Option, none, some, if◌then◌else◌,
  any_of,
}
use mini_pgw.Text.{Text, text_eq}
use mini_pgw.Cdr.{CdrRecord, CdrWriter, write, created, expired}
use mini_pgw.Store.{StoredSession, SessionStore}

pub record Clock : Type 0 where
  pub seconds : ℕ → ℕ
  pub stamp : ℕ → Text

pub record Manager (S : SessionStore) : Type 0 where
  pub timeout : ℕ
  pub store : S.State
  pub cdr : CdrWriter
  pub reads : ℕ
  pub stop : Bool

-- The `i`-th reading as text.
abbrev pub now_at : Clock → ℕ → Text
now_at clock i = clock.stamp (clock.seconds i)

-- The records that a round of the cleaner writes.
unfoldable pub write_expired : Text → List StoredSession → CdrWriter → CdrWriter
write_expired now [] cdr = cdr
write_expired now (s ∷ sessions) cdr =
    write_expired now sessions
      (write cdr (record { timestamp = now; imsi = s.imsi; action = expired }))

module _ {S : SessionStore} (clock : Clock) where
  abbrev pub now_str : Manager S → Text × Manager S
  now_str m = (now_at clock m.reads, record m { reads = suc m.reads })

  abbrev pub expires_str : Manager S → Text × Manager S
  expires_str m =
      (clock.stamp (clock.seconds m.reads + m.timeout), record m { reads = suc m.reads })

  -- The session that `touch_session` stores: two readings of the clock.
  abbrev pub touched : Manager S → Text → StoredSession
  touched m imsi = record {
    imsi = imsi;
    created_at = (now_str m).0;
    expires_at = (expires_str (now_str m).1).0;
  }

  -- The constructor reads the live sessions only to log them.
  unfoldable pub init : ℕ → S.State → CdrWriter → Manager S
  init timeout store cdr = record {
    timeout = timeout;
    store = store;
    cdr = cdr;
    reads = 1;
    stop = false;
  }

  -- The destructor's flag.
  unfoldable pub request_stop : Manager S → Manager S
  request_stop m = record m { stop = true }

  unfoldable pub touch_session : Manager S → Text → Manager S × Bool
  touch_session m imsi =
      let (now, m1) = now_str m in
      let m2 = (expires_str m1).1 in
      let saved = (S.save_session m2.store (touched m imsi)).0 in
      if S.session_exists m2.store imsi then (record m2 { store = saved }, true) else (
        record m2 {
          store = saved;
          cdr = write m2.cdr (record { timestamp = now; imsi = imsi; action = created });
        },
        true,
      )

  unfoldable pub is_active : Manager S → Text → Manager S × Bool
  is_active m imsi =
      let (now, m1) = now_str m in
      (m1, any_of (λ s. text_eq s.imsi imsi) (S.load_sessions m1.store now))

  unfoldable pub expire_session_locked : Manager S → Text → Manager S
  expire_session_locked m imsi =
      let (now, m1) = now_str (record m { store = (S.delete_session m.store imsi).0 }) in
      record m1 { cdr = write m1.cdr (record { timestamp = now; imsi = imsi; action = expired }) }

  -- The rounds of the loop that are left, `sessions_per_sec - removed`.
  unfoldable pub offload_rate : ℕ → Manager S → Manager S
  unfolding expire_session_locked
  offload_rate zero m = m
  offload_rate (suc left) m =
      let (now, m1) = now_str m in
      elim (S.load_sessions m1.store now) [
        | [] ↦ m1
        | s ∷ _ ↦ offload_rate left (expire_session_locked m1 s.imsi)
      ]

  -- `while (true)` on fuel; `none` means that it ran out.
  unfoldable pub graceful_stop : ℕ → ℕ → Manager S → Option (Manager S)
  unfolding offload_rate
  graceful_stop zero rate m = none
  graceful_stop (suc fuel) rate m =
      let (now, m1) = now_str m in
      elim (S.load_sessions m1.store now) [
        | [] ↦ some m1
        | s ∷ _ ↦ graceful_stop fuel rate (offload_rate rate m1)
      ]

  -- What a round of `cleaner_loop` does before it waits.
  unfoldable pub cleaner_pass : Manager S → Manager S
  unfolding write_expired
  cleaner_pass m =
      let (now, m1) = now_str m in
      record m1 {
        cdr = write_expired now (S.load_expired_sessions m1.store now) m1.cdr;
        store = S.cleanup_expired_sessions m1.store now;
      }

  -- The test of the loop: `none` when the flag ends it.
  unfoldable pub cleaner_round : Manager S → Option (Manager S)
  unfolding cleaner_pass
  cleaner_round m = if m.stop then none else some (cleaner_pass m)
