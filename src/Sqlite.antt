-- ===== src/Sqlite.antt =====
-- src/server/sqlite_session_store.cpp and include/pgw/sqlite_session_store.hpp, over the SQLite library as a
-- parameter. A database that could not be opened is `none`. Each method runs under the store's own
-- mutex, so it is one step.
pub mod Documented
pub mod Partition
pub mod Saves
pub mod Closed
pub mod Simulation
pub mod Tables
pub mod Accounts
use mini_pgw.Prelude.{ℕ, Bool, true, false, List, [], ◌∷◌, Option, none, some, map}
use mini_pgw.Text.{Text, bytes, c_string}
use mini_pgw.Store.{StoredSession, SessionStore}

-- What the calls of `sqlite3_step` on a statement give up to the first that gives no row: the rows,
-- each by `sqlite3_column_text`, and whether it ends in `SQLITE_DONE`; and the database they leave.
pub record Execution (Db : Type 0) : Type 0 where
  pub rows : List (ℕ → Text)
  pub done : Bool
  pub after : Db

pub record Sqlite : Type 1 where
  pub Db : Type 0
  pub Stmt : Type 0
  pub open_db : Text → Option Db
  pub exec : Db → Text → Db
  pub prepare_v2 : Db → Text → Option Stmt
  pub bind_text : Stmt → ℕ → Text → Stmt
  pub execute : Db → Stmt → Execution Db

abbrev pub schema_sql : Text
schema_sql =
    bytes
      "CREATE TABLE IF NOT EXISTS sessions (imsi TEXT PRIMARY KEY,created_at TEXT,expires_at TEXT);"

abbrev pub expired_sql : Text
expired_sql = bytes "SELECT imsi, created_at, expires_at FROM sessions WHERE expires_at <= ?;"

abbrev pub live_sql : Text
live_sql = bytes "SELECT imsi, created_at, expires_at FROM sessions WHERE expires_at > ?;"

abbrev pub replace_sql : Text
replace_sql = bytes "REPLACE INTO sessions (imsi, created_at, expires_at) VALUES (?, ?, ?);"

abbrev pub delete_sql : Text
delete_sql = bytes "DELETE FROM sessions WHERE imsi = ?;"

abbrev pub exists_sql : Text
exists_sql = bytes "SELECT 1 FROM sessions WHERE imsi = ? LIMIT 1;"

abbrev pub cleanup_sql : Text
cleanup_sql = bytes "DELETE FROM sessions WHERE expires_at <= ?;"

-- The columns of a row, as the loops read them.
unfoldable pub session_of : (ℕ → Text) → StoredSession
session_of row = record { imsi = row 0; created_at = row 1; expires_at = row 2 }

-- Whether the first call of `sqlite3_step` gives `SQLITE_DONE`, or `SQLITE_ROW`.
abbrev pub steps_done : {Db : Type 0} → Execution Db → Bool
steps_done e = elim e.rows [ [] ↦ e.done | row ∷ rows ↦ false ]

abbrev pub steps_row : {Db : Type 0} → Execution Db → Bool
steps_row e = elim e.rows [ [] ↦ false | row ∷ rows ↦ true ]

module _ (lib : Sqlite) where
  open lib use {Db, Stmt, open_db, exec, prepare_v2, bind_text, execute}

  unfoldable pub init_schema : Db → Db
  init_schema db = exec db schema_sql

  unfoldable pub init : Text → Option Db
  unfolding init_schema
  init db_path = elim (open_db db_path) [ none ↦ none | some db ↦ some (init_schema db) ]

  -- `sqlite3_prepare_v2`, which refuses a null database.
  abbrev pub prepare : Option Db → Text → Option (Db × Stmt)
  prepare none sql = none
  prepare (some db) sql = elim (prepare_v2 db sql) [ none ↦ none | some stmt ↦ some (db, stmt) ]

  -- The two loading methods, which differ in their statement.
  unfoldable pub load_by : Text → Option Db → Text → List StoredSession
  unfolding session_of
  load_by sql db now = elim (prepare db sql) [
    | none ↦ []
    | some (db1, stmt) ↦ map session_of (execute db1 (bind_text stmt 1 (c_string now))).rows
  ]

  unfoldable pub load_expired_sessions : Option Db → Text → List StoredSession
  unfolding load_by
  load_expired_sessions = load_by expired_sql

  unfoldable pub load_sessions : Option Db → Text → List StoredSession
  unfolding load_by
  load_sessions = load_by live_sql

  unfoldable pub save_session : Option Db → StoredSession → Option Db × Bool
  save_session db s = elim (prepare db replace_sql) [
    | none ↦ (db, false)
    | some (db1, stmt) ↦
        let bound =
          bind_text (bind_text (bind_text stmt 1 (c_string s.imsi)) 2 (c_string s.created_at)) 3
            (c_string s.expires_at) in
        let e = execute db1 bound in (some e.after, steps_done e)
  ]

  unfoldable pub delete_session : Option Db → Text → Option Db × Bool
  delete_session db imsi = elim (prepare db delete_sql) [
    | none ↦ (db, false)
    | some (db1, stmt) ↦
        let e = execute db1 (bind_text stmt 1 (c_string imsi)) in (some e.after, steps_done e)
  ]

  unfoldable pub session_exists : Option Db → Text → Bool
  session_exists db imsi = elim (prepare db exists_sql) [
    | none ↦ false
    | some (db1, stmt) ↦ steps_row (execute db1 (bind_text stmt 1 (c_string imsi)))
  ]

  unfoldable pub cleanup_expired_sessions : Option Db → Text → Option Db
  cleanup_expired_sessions db now = elim (prepare db cleanup_sql) [
    | none ↦ db
    | some (db1, stmt) ↦ some (execute db1 (bind_text stmt 1 (c_string now))).after
  ]

  -- The class as an `ISessionStore`.
  abbrev pub sqlite : SessionStore
  sqlite = record {
    State = Option Db;
    load_sessions = load_sessions;
    save_session = save_session;
    delete_session = delete_session;
    session_exists = session_exists;
    cleanup_expired_sessions = cleanup_expired_sessions;
    load_expired_sessions = load_expired_sessions;
  }
