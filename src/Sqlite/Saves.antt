-- ===== src/Sqlite/Saves.antt =====
-- What a save leaves in the table.
use mini_pgw.Prelude.{
  ◌≡◌, true, not, ◌&&◌, ◌||◌, List, [], ◌∷◌, some, arith, count_if, ltb, Option-cases, inl, inr,
  if◌then◌else◌,
}
use mini_pgw.Text.{Text, text_eq, c_string}
use mini_pgw.Text.Order.{text_eq_iff}
use mini_pgw.Store.{StoredSession, tally}
use mini_pgw.Sqlite.{Sqlite, replace_sql, exists_sql, save_session, session_exists}
use mini_pgw.Sqlite.Documented.{Works, Documented, bound}

pub count_if-other :
    (i k : Text) (xs : List StoredSession)
    → count_if (λ t. text_eq k t.imsi && not (text_eq i t.imsi)) xs
      ≡ (if text_eq k i then 0 else tally k xs)
count_if-other i k [] = ground arith
count_if-other i k (x ∷ xs) =
    ground
      (arith, count_if-other i k xs, text_eq_iff k i, text_eq_iff k x.imsi, text_eq_iff i x.imsi)

module _ (lib : Sqlite) (doc : Documented lib) where
  tally-saved :
      (db db' : lib.Db) (s : StoredSession) (k : Text)
      → save_session lib (some db) s ≡ (some db', true)
      → tally k (doc.table db')
        ≡ (if text_eq k (c_string s.imsi) then 1 else tally k (doc.table db))
  unfolding save_session
  tally-saved db db' s k h = elim (Option-cases (lib.prepare_v2 db replace_sql)) [
    | inl none_e ↦ absurd (ground arith)
    | inr (stmt, e) ↦
        let saved = doc.replaced db (bound s) (λ t. text_eq k t.imsi) stmt e in
        ground (arith, saved, count_if-other (c_string s.imsi) k (doc.table db))
  ]

  pub exists_tally :
      (db : lib.Db) (k : Text)
      → Works lib db exists_sql (c_string k)
      → session_exists lib (some db) k ≡ ltb 0 (tally (c_string k) (doc.table db))
  unfolding session_exists
  exists_tally db k w = ground (arith, w.prepared, doc.exists_row db (c_string k) w)

  -- Over a SQLite library that does what its documentation says, after a save that returned true,
  -- and where the query for an IMSI works before and after, the store has that IMSI exactly if it
  -- is the saved one, as C strings, or the store had it before.
  pub sqlite_save-exists :
      (db db' : lib.Db) (s : StoredSession) (k : Text)
      → save_session lib (some db) s ≡ (some db', true)
      → Works lib db exists_sql (c_string k)
      → Works lib db' exists_sql (c_string k)
      → session_exists lib (some db') k
        ≡ (text_eq (c_string k) (c_string s.imsi) || session_exists lib (some db) k)
  sqlite_save-exists db db' s k h old new =
      ground
        (arith, exists_tally db k old, exists_tally db' k new, tally-saved db db' s (c_string k) h)
