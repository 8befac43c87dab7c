-- ===== src/Race.antt =====
-- The threads of the program over one session manager (src/server/session_manager.cpp), interleaved
-- where the code lets go of its locks. The cleaner takes no lock of the manager between the listing of the
-- expired sessions, the records that it writes of them, and the removal; the offloading loop releases
-- the lock between choosing a session and expiring it. `touch_session` and `is_active` are one step each.
pub mod Events
pub mod Covered
pub mod Completeness
pub mod Spurious
pub mod Stale
use mini_pgw.Prelude.{ℕ, suc, List, [], ◌∷◌, Option, none, some}
use mini_pgw.Text.{Text}
use mini_pgw.Cdr.{CdrRecord, write, expired}
use mini_pgw.Store.{StoredSession, SessionStore}
use mini_pgw.Manager.{Clock, Manager, now_at, touch_session, is_active, expire_session_locked}

-- The cleaner waits, or works on the list that it read at the `i`-th reading of the clock.
pub data Cleaner : Type 0 where
  waiting : Cleaner
  reporting : ℕ → List StoredSession → Cleaner

-- The offloading thread is between two sessions, or has chosen one.
pub data Offloader : Type 0 where
  between : Offloader
  chosen : Text → Offloader

pub record System (S : SessionStore) : Type 0 where
  pub sessions : Manager S
  pub cleaner : Cleaner
  pub offloader : Offloader

-- Which thread moves next.
pub data Move : Type 0 where
  touches : Text → Move
  checks : Text → Move
  cleans : Move
  offloads : Move

-- The first of the live sessions.
unfoldable pub choose : List StoredSession → Offloader
choose [] = between
choose (s ∷ sessions) = chosen s.imsi

module _ {S : SessionStore} (clock : Clock) where
  unfoldable pub clean_step : System S → Cleaner → System S
  clean_step y waiting =
      let m = y.sessions in
      record y {
        sessions = record m { reads = suc m.reads };
        cleaner = reporting m.reads (S.load_expired_sessions m.store (now_at clock m.reads));
      }
  clean_step y (reporting i (s ∷ sessions)) =
      let m = y.sessions in
      let rec : CdrRecord = record {
        timestamp = now_at clock i;
        imsi = s.imsi;
        action = expired;
      } in
      record y { sessions = record m { cdr = write m.cdr rec }; cleaner = reporting i sessions }
  clean_step y (reporting i []) =
      let m = y.sessions in
      record y {
        sessions = record m { store = S.cleanup_expired_sessions m.store (now_at clock i) };
        cleaner = waiting;
      }

  unfoldable pub offload_step : System S → Offloader → System S
  unfolding choose
  offload_step y between =
      let m = y.sessions in
      record y {
        sessions = record m { reads = suc m.reads };
        offloader = choose (S.load_sessions m.store (now_at clock m.reads));
      }
  offload_step y (chosen imsi) = record y {
    sessions = expire_session_locked clock y.sessions imsi;
    offloader = between;
  }

  unfoldable pub step : System S → Move → System S
  unfolding clean_step offload_step
  step y (touches imsi) = record y { sessions = (touch_session clock y.sessions imsi).0 }
  step y (checks imsi) = record y { sessions = (is_active clock y.sessions imsi).0 }
  step y cleans = clean_step y y.cleaner
  step y offloads = offload_step y y.offloader

  unfoldable pub run : System S → List Move → System S
  unfolding step
  run y [] = y
  run y (move ∷ moves) = run (step y move) moves
