-- ===== src/Sqlite/Partition.antt =====
-- Live and expired rows, and what a cleanup leaves.
use mini_pgw.Prelude.{
  ◌+◌, ◌≡◌, refl, Bool, not, ◌&&◌, List, [], ◌∷◌, Option, none, some, arith, count_if, map,
}
use mini_pgw.Text.{Text, text_eq, c_string}
use mini_pgw.Store.{StoredSession, tally, is_live}
use mini_pgw.Sqlite.{
  Sqlite, expired_sql, live_sql, cleanup_sql, session_of, load_by, load_sessions,
  load_expired_sessions, cleanup_expired_sessions,
}
use mini_pgw.Sqlite.Documented.{Works, Documented}

pub count_if-split :
    (p q : StoredSession → Bool) (xs : List StoredSession)
    → count_if (λ s. p s && q s) xs + count_if (λ s. p s && not (q s)) xs ≡ count_if p xs
count_if-split p q [] = refl
count_if-split p q (x ∷ xs) = ground (arith, count_if-split p q xs)

module _ (lib : Sqlite) (doc : Documented lib) where
  pub load_by-rows :
      (db : lib.Db) (sql now : Text) (w : Works lib db sql (c_string now))
      → load_by lib sql (some db) now
        ≡ map session_of (lib.execute db (lib.bind_text w.stmt 1 (c_string now))).rows
  unfolding load_by
  load_by-rows db sql now w = ground (arith, w.prepared)

  tally-live :
      (db : lib.Db) (now k : Text)
      → Works lib db live_sql (c_string now)
      → tally k (load_sessions lib (some db) now)
        ≡ count_if (λ s. text_eq k s.imsi && is_live (c_string now) s) (doc.table db)
  unfolding load_sessions
  tally-live db now k w =
      rw (load_by-rows db live_sql now w)
        (doc.live_rows db (c_string now) (λ s. text_eq k s.imsi) w)

  pub tally-expired :
      (db : lib.Db) (now k : Text)
      → Works lib db expired_sql (c_string now)
      → tally k (load_expired_sessions lib (some db) now)
        ≡ count_if (λ s. text_eq k s.imsi && not (is_live (c_string now) s)) (doc.table db)
  unfolding load_expired_sessions
  tally-expired db now k w =
      rw (load_by-rows db expired_sql now w)
        (doc.expired_rows db (c_string now) (λ s. text_eq k s.imsi) w)

  -- Over a SQLite library that does what its documentation says, on a database on which both
  -- queries work, the live and the expired sessions that the store lists for an IMSI are together
  -- as many as its rows in the table.
  pub sqlite_partition :
      (db : lib.Db) (now k : Text)
      → Works lib db live_sql (c_string now)
      → Works lib db expired_sql (c_string now)
      → tally k (load_sessions lib (some db) now)
          + tally k (load_expired_sessions lib (some db) now)
        ≡ tally k (doc.table db)
  sqlite_partition db now k live expired =
      rw (tally-live db now k live, tally-expired db now k expired)
        (count_if-split (λ s. text_eq k s.imsi) (is_live (c_string now)) (doc.table db))

  abbrev pub contents : Option lib.Db → List StoredSession
  contents none = []
  contents (some db) = doc.table db

  pub cleanup-after :
      (db : lib.Db) (now : Text) (w : Works lib db cleanup_sql (c_string now))
      → cleanup_expired_sessions lib (some db) now
        ≡ some (lib.execute db (lib.bind_text w.stmt 1 (c_string now))).after
  unfolding cleanup_expired_sessions
  cleanup-after db now w = ground (arith, w.prepared)

  -- Over a SQLite library that does what its documentation says, on a database on which the
  -- deletion and the query of live sessions work, a cleanup leaves as many rows of an IMSI as the
  -- store listed live sessions of it.
  pub sqlite_cleanup-live :
      (db : lib.Db) (now k : Text)
      → Works lib db live_sql (c_string now)
      → Works lib db cleanup_sql (c_string now)
      → tally k (contents (cleanup_expired_sessions lib (some db) now))
        ≡ tally k (load_sessions lib (some db) now)
  sqlite_cleanup-live db now k live w =
      rw (tally-live db now k live, cleanup-after db now w)
        (doc.cleaned db (c_string now) (λ s. text_eq k s.imsi) w)
