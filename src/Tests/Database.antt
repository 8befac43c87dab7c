-- ===== src/Tests/Database.antt =====
-- A database that is the list of its rows, and the store over it.
use mini_pgw.Prelude.{
  ℕ, zero, suc, ◌+◌, ◌≡◌, refl, ap, Bool, true, false, not, ◌&&◌, List, [], ◌∷◌, Option, none, some,
  arith, count_if, keep_if, map, ltb, ◌==◌, if◌then◌else◌,
}
use mini_pgw.Text.{Text, bytes, text_eq, text_lt, c_string}
use mini_pgw.Store.{StoredSession, tally, is_live}
use mini_pgw.Sqlite.{
  Sqlite, sqlite, Execution, expired_sql, live_sql, replace_sql, delete_sql, exists_sql,
  cleanup_sql, session_of, load_sessions, load_expired_sessions, save_session, load_by,
}
use mini_pgw.Sqlite.Documented.{Works, Documented, Reliable, bind_session}
use mini_pgw.Sqlite.Partition.{sqlite_partition}
use mini_pgw.Sqlite.Simulation.{Simulates}
use mini_pgw.Manager.{Manager}
use mini_pgw.Manager.Accounts.Phase.{phase_from}
use mini_pgw.Sqlite.Accounts.{TableAccounts}
use mini_pgw.Tests.Fixtures.{cdr, cdr-Logged, alice, bob, session, newest_first, nothing-IsValid}

pub data Kind : Type 0 where
  selects_expired : Kind
  selects_live : Kind
  replaces : Kind
  deletes : Kind
  looks_up : Kind
  cleans_up : Kind

pub record Stmt : Type 0 where
  pub kind : Kind
  pub args : ℕ → Text

abbrev unbound : Kind → Option Stmt
unbound kind = some (record { kind = kind; args = λ i. [] })

abbrev prepare_v2 : List StoredSession → Text → Option Stmt
prepare_v2 db sql =
    if text_eq sql expired_sql
    then unbound selects_expired
    else if text_eq sql live_sql
    then unbound selects_live
    else if text_eq sql replace_sql
    then unbound replaces
    else if text_eq sql delete_sql
    then unbound deletes
    else if text_eq sql exists_sql
    then unbound looks_up
    else if text_eq sql cleanup_sql
    then unbound cleans_up
    else none

abbrev bind_text : Stmt → ℕ → Text → Stmt
bind_text stmt i arg = record stmt { args = λ j. if j == i then arg else stmt.args j }

abbrev row_of : StoredSession → ℕ → Text
row_of s zero = s.imsi
row_of s (suc zero) = s.created_at
row_of s (suc (suc i)) = s.expires_at

abbrev query : List StoredSession → (StoredSession → Bool) → Execution (List StoredSession)
query db p = record { rows = map row_of (keep_if p db); done = true; after = db }

abbrev change : List StoredSession → Execution (List StoredSession)
change db = record { rows = []; done = true; after = db }

abbrev execute : List StoredSession → Stmt → Execution (List StoredSession)
execute db stmt = elim stmt.kind [
  | selects_expired ↦ query db (λ s. not (is_live (stmt.args 1) s))
  | selects_live ↦ query db (is_live (stmt.args 1))
  | replaces ↦ change (
      record { imsi = stmt.args 1; created_at = stmt.args 2; expires_at = stmt.args 3 }
      ∷ keep_if (λ s. not (text_eq (stmt.args 1) s.imsi)) db)
  | deletes ↦ change (keep_if (λ s. not (text_eq (stmt.args 1) s.imsi)) db)
  | looks_up ↦ record {
    rows = if ltb 0 (tally (stmt.args 1) db) then (λ i. bytes "1") ∷ [] else [];
    done = true;
    after = db;
  }
  | cleans_up ↦ change (keep_if (is_live (stmt.args 1)) db)
]

abbrev pub lib : Sqlite
lib = record {
  Db = List StoredSession;
  Stmt = Stmt;
  open_db = λ path. some [];
  exec = λ db sql. db;
  prepare_v2 = prepare_v2;
  bind_text = bind_text;
  execute = execute;
}

count_if-keep_if :
    (p q : StoredSession → Bool) (xs : List StoredSession)
    → count_if p (keep_if q xs) ≡ count_if (λ s. p s && q s) xs
count_if-keep_if p q [] = refl
count_if-keep_if p q (x ∷ xs) = ground (arith, count_if-keep_if p q xs)

session_of-row_of : (xs : List StoredSession) → map session_of (map row_of xs) ≡ xs
unfolding session_of
session_of-row_of [] = refl
session_of-row_of (x ∷ xs) = ap (λ l. x ∷ l) (session_of-row_of xs)

abbrev kind_of : Option Stmt → Kind → Kind
kind_of none other = other
kind_of (some stmt) other = stmt.kind

-- What a statement that was prepared does.
kind_prepared :
    (db : List StoredSession) (sql : Text) (stmt : Stmt) (kind : Kind)
    → prepare_v2 db sql ≡ some stmt
    → prepare_v2 db sql ≡ unbound kind
    → kind ≡ stmt.kind
kind_prepared db sql stmt kind e f = cc

query_counts :
    (db : List StoredSession) (p q : StoredSession → Bool)
    → count_if p (map session_of (query db q).rows) ≡ count_if (λ s. p s && q s) db
query_counts db p q = rw (session_of-row_of (keep_if q db)) (count_if-keep_if p q db)

live_kind : (db : List StoredSession) → prepare_v2 db live_sql ≡ unbound selects_live
unfolding text_eq
live_kind db = refl

expired_kind : (db : List StoredSession) → prepare_v2 db expired_sql ≡ unbound selects_expired
unfolding text_eq
expired_kind db = refl

exists_kind : (db : List StoredSession) → prepare_v2 db exists_sql ≡ unbound looks_up
unfolding text_eq
exists_kind db = refl

replace_kind : (db : List StoredSession) → prepare_v2 db replace_sql ≡ unbound replaces
unfolding text_eq
replace_kind db = refl

delete_kind : (db : List StoredSession) → prepare_v2 db delete_sql ≡ unbound deletes
unfolding text_eq
delete_kind db = refl

cleanup_kind : (db : List StoredSession) → prepare_v2 db cleanup_sql ≡ unbound cleans_up
unfolding text_eq
cleanup_kind db = refl

-- A statement is its kind and its bindings.
execute_kind :
    (db : List StoredSession) (stmt : Stmt) (kind : Kind)
    → kind ≡ stmt.kind
    → execute db stmt ≡ execute db (record stmt { kind = kind })
execute_kind db stmt kind e = rw e refl

prepared_execute :
    (db : List StoredSession) (sql now : Text) (kind : Kind) (w : Works lib db sql now)
    → prepare_v2 db sql ≡ unbound kind
    → execute db (bind_text w.stmt 1 now)
      ≡ execute db (record (bind_text w.stmt 1 now) { kind = kind })
prepared_execute db sql now kind w f =
    execute_kind db (bind_text w.stmt 1 now) kind (kind_prepared db sql w.stmt kind w.prepared f)

pub documented : Documented lib
documented = record {
  table = λ db. db;
  live_rows = λ db now p w.
      rw (prepared_execute db live_sql now selects_live w (live_kind db))
        (query_counts db p (is_live now));
  expired_rows = λ db now p w.
      rw (prepared_execute db expired_sql now selects_expired w (expired_kind db))
        (query_counts db p (λ s. not (is_live now s)));
  exists_row = λ db imsi w.
      rw (prepared_execute db exists_sql imsi looks_up w (exists_kind db)) (ground arith);
  replaced = λ db s p stmt e done.
      rw
        (execute_kind db (bind_session lib stmt s) replaces
          (kind_prepared db replace_sql stmt replaces e (replace_kind db)))
        (ground (arith, count_if-keep_if p (λ t. not (text_eq s.imsi t.imsi)) db));
  deleted = λ db imsi p w.
      rw (prepared_execute db delete_sql imsi deletes w (delete_kind db))
        (count_if-keep_if p (λ t. not (text_eq imsi t.imsi)) db);
  cleaned = λ db now p w.
      rw (prepared_execute db cleanup_sql now cleans_up w (cleanup_kind db))
        (count_if-keep_if p (is_live now) db);
}

-- Alice's session expires at 7, Bob's at 9.
abbrev session2 : StoredSession
session2 = record { imsi = bob; created_at = 1 ∷ []; expires_at = 9 ∷ [] }

abbrev db : List StoredSession
db = session2 ∷ session ∷ []

abbrev seven : Text
seven = 7 ∷ []

abbrev stmt_of : Kind → Stmt
stmt_of kind = record { kind = kind; args = λ i. [] }

live_sql-Works : Works lib db live_sql (c_string seven)
unfolding text_eq
live_sql-Works = record { stmt = stmt_of selects_live; prepared = refl; ends = refl }

expired_sql-Works : Works lib db expired_sql (c_string seven)
unfolding text_eq
expired_sql-Works = record { stmt = stmt_of selects_expired; prepared = refl; ends = refl }

cleanup_sql-Works : Works lib db cleanup_sql (c_string seven)
unfolding text_eq
cleanup_sql-Works = record { stmt = stmt_of cleans_up; prepared = refl; ends = refl }

exists_sql-Works : (rows : List StoredSession) (k : Text) → Works lib rows exists_sql k
unfolding text_eq
exists_sql-Works rows k = record { stmt = stmt_of looks_up; prepared = refl; ends = refl }

-- At 7 exactly, Alice's session is expired.
expired_at_seven : load_expired_sessions lib (some db) seven ≡ session ∷ []
unfolding load_expired_sessions load_by session_of c_string text_eq text_lt
expired_at_seven = refl

partition_at_seven :
    tally alice (load_sessions lib (some db) seven)
      + tally alice (load_expired_sessions lib (some db) seven)
    ≡ tally alice (documented.table db)
partition_at_seven = sqlite_partition lib documented db seven alice live_sql-Works expired_sql-Works

save_first : save_session lib (some []) session ≡ (some (session ∷ []), true)
unfolding save_session c_string text_eq
save_first = refl

pub reliable : Reliable lib
unfolding text_eq
reliable = record {
  lists = λ rows now. record { stmt = stmt_of selects_live; prepared = refl; ends = refl };
  lists_expired =
      λ rows now. record { stmt = stmt_of selects_expired; prepared = refl; ends = refl };
  looks = λ rows imsi. exists_sql-Works rows imsi;
  deletes = λ rows imsi. record { stmt = stmt_of deletes; prepared = refl; ends = refl };
  cleans = λ rows now. record { stmt = stmt_of cleans_up; prepared = refl; ends = refl };
  replaces = λ rows s. (stmt_of replaces, refl, refl);
}

pub no_rows : documented.table [] ≡ []
unfolding documented
no_rows = refl

-- A table without rows against a map without entries.
pub empty-Simulates : Simulates lib documented reliable newest_first [] []
unfolding documented
empty-Simulates = record { valid = nothing-IsValid; same = λ p. refl }

-- A server whose database has an empty table.
abbrev pub opened : Manager (sqlite lib)
opened = record { timeout = 5; store = some []; cdr = cdr; reads = 1; stop = false }

pub opened-TableAccounts : TableAccounts lib documented reliable opened []
unfolding phase_from documented
opened-TableAccounts = record {
  db = [];
  opened = refl;
  keyed = record { single = λ k. omega arith; uncut = refl };
  logged = cdr-Logged;
  phases = λ k. refl;
}
