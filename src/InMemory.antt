-- ===== src/InMemory.antt =====
-- src/server/in_memory_session_store.cpp and include/pgw/in_memory_session_store.hpp. Each method runs
-- under the store's own mutex, so it is one step.
pub mod Laws
pub mod Boundary
pub mod Counts
use mini_pgw.Prelude.{ℕ, ◌≡◌, Bool, true, List, [], is_some, if◌then◌else◌}
use mini_pgw.Text.{Text, text_lt}
use mini_pgw.Store.{StoredSession, SessionStore}
use mini_pgw.UnorderedMap.{Map, Layout, find, erase, insert_or_assign, erase_if, values_if}

unfoldable pub is_before : Text → Text → Bool
is_before time1 time2 = text_lt time1 time2

unfoldable pub load_sessions : Map StoredSession → Text → List StoredSession
unfolding is_before
load_sessions sessions now = values_if (λ s. is_before now s.expires_at) sessions

unfoldable pub save_session :
    Layout StoredSession → Map StoredSession → StoredSession → Map StoredSession × Bool
save_session layout sessions s = (insert_or_assign layout s.imsi s sessions, true)

unfoldable pub delete_session : Map StoredSession → Text → Map StoredSession × Bool
delete_session sessions imsi = (erase imsi sessions, is_some (find imsi sessions))

unfoldable pub session_exists : Map StoredSession → Text → Bool
session_exists sessions imsi = is_some (find imsi sessions)

unfoldable pub cleanup_expired_sessions : Map StoredSession → Text → Map StoredSession
unfolding is_before
cleanup_expired_sessions sessions now = erase_if (λ s. is_before s.expires_at now) sessions

unfoldable pub load_expired_sessions : Map StoredSession → Text → List StoredSession
unfolding is_before
load_expired_sessions sessions now = values_if (λ s. is_before s.expires_at now) sessions

-- The class as an `ISessionStore`.
abbrev pub in_memory : Layout StoredSession → SessionStore
in_memory layout = record {
  State = Map StoredSession;
  load_sessions = load_sessions;
  save_session = save_session layout;
  delete_session = delete_session;
  session_exists = session_exists;
  cleanup_expired_sessions = cleanup_expired_sessions;
  load_expired_sessions = load_expired_sessions;
}
