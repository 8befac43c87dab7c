-- ===== src/Sqlite/Documented.antt =====
-- What SQLite documents of the statements of the store, on a table of rows. A query gives its rows in no
-- certain order, so a law says for every test how many rows pass it. Text compares byte by byte.
use mini_pgw.Prelude.{◌+◌, ◌≡◌, Bool, true, not, ◌&&◌, List, some, map, count_if, ltb}
use mini_pgw.Text.{Text, text_eq, c_string}
use mini_pgw.Store.{StoredSession, tally, is_live, one_if}
use mini_pgw.Sqlite.{
  Sqlite, expired_sql, live_sql, replace_sql, exists_sql, delete_sql, cleanup_sql, session_of,
  steps_done, steps_row,
}

-- A statement with one parameter that is ready on a database, and steps to its end without an error.
pub record Works (lib : Sqlite) (db : lib.Db) (sql arg : Text) : Type 0 where
  pub stmt : lib.Stmt
  pub prepared : lib.prepare_v2 db sql ≡ some stmt
  pub ends : (lib.execute db (lib.bind_text stmt 1 arg)).done ≡ true

-- The session as the C strings that are bound.
abbrev pub bound : StoredSession → StoredSession
bound s = record {
  imsi = c_string s.imsi;
  created_at = c_string s.created_at;
  expires_at = c_string s.expires_at;
}

-- The statement of `save_session` with its three parameters bound.
abbrev pub bind_session : (lib : Sqlite) → lib.Stmt → StoredSession → lib.Stmt
bind_session lib stmt s =
    lib.bind_text (lib.bind_text (lib.bind_text stmt 1 s.imsi) 2 s.created_at) 3 s.expires_at

pub record Documented (lib : Sqlite) : Type 1 where
  pub table : lib.Db → List StoredSession
  pub live_rows :
      (db : lib.Db) (now : Text) (p : StoredSession → Bool) (w : Works lib db live_sql now)
      → count_if p (map session_of (lib.execute db (lib.bind_text w.stmt 1 now)).rows)
        ≡ count_if (λ s. p s && is_live now s) (table db)
  pub expired_rows :
      (db : lib.Db) (now : Text) (p : StoredSession → Bool) (w : Works lib db expired_sql now)
      → count_if p (map session_of (lib.execute db (lib.bind_text w.stmt 1 now)).rows)
        ≡ count_if (λ s. p s && not (is_live now s)) (table db)
  pub exists_row :
      (db : lib.Db) (imsi : Text) (w : Works lib db exists_sql imsi)
      → steps_row (lib.execute db (lib.bind_text w.stmt 1 imsi)) ≡ ltb 0 (tally imsi (table db))
  pub replaced :
      (db : lib.Db) (s : StoredSession) (p : StoredSession → Bool) (stmt : lib.Stmt)
      → lib.prepare_v2 db replace_sql ≡ some stmt
      → let e = lib.execute db (bind_session lib stmt s) in
        steps_done e ≡ true
        → count_if p (table e.after)
          ≡ one_if (p s) + count_if (λ t. p t && not (text_eq s.imsi t.imsi)) (table db)
  pub deleted :
      (db : lib.Db) (imsi : Text) (p : StoredSession → Bool) (w : Works lib db delete_sql imsi)
      → count_if p (table (lib.execute db (lib.bind_text w.stmt 1 imsi)).after)
        ≡ count_if (λ t. p t && not (text_eq imsi t.imsi)) (table db)
  pub cleaned :
      (db : lib.Db) (now : Text) (p : StoredSession → Bool) (w : Works lib db cleanup_sql now)
      → count_if p (table (lib.execute db (lib.bind_text w.stmt 1 now)).after)
        ≡ count_if (λ s. p s && is_live now s) (table db)

-- No statement of the store ever fails.
pub record Reliable (lib : Sqlite) : Type 0 where
  pub lists : (db : lib.Db) (now : Text) → Works lib db live_sql now
  pub lists_expired : (db : lib.Db) (now : Text) → Works lib db expired_sql now
  pub looks : (db : lib.Db) (imsi : Text) → Works lib db exists_sql imsi
  pub deletes : (db : lib.Db) (imsi : Text) → Works lib db delete_sql imsi
  pub cleans : (db : lib.Db) (now : Text) → Works lib db cleanup_sql now
  pub replaces :
      (db : lib.Db) (s : StoredSession)
      → (stmt : lib.Stmt) × (lib.prepare_v2 db replace_sql ≡ some stmt)
        × (steps_done (lib.execute db (bind_session lib stmt s)) ≡ true)
