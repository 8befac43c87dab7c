-- ===== src/Sqlite/Simulation.antt =====
-- The SQLite store against the in-memory store, on texts without a zero byte, over a library that does not
-- fail, by what their callers see of saves, deletions, lookups and lists of live sessions.
use mini_pgw.Prelude.{
  ℕ, ◌+◌, ◌≡◌, refl, ap, sym, subst, ◌∙◌, Bool, ◌&&◌, List, [], ◌∷◌, Option, some, arith, count_if,
  ltb, All,
}
use mathlib.Core.Path.{fun_ext}
use mini_pgw.Text.{Text, text_eq, c_string}
use mini_pgw.Store.{StoredSession, tally, is_live, one_if}
use mini_pgw.UnorderedMap.{Map, Layout}
use mini_pgw.InMemory
use mini_pgw.InMemory.Laws.{IsValid, save_session-IsValid, delete_session-IsValid}
use mini_pgw.InMemory.Counts.{
  count_in, apart, count_if-values_if, count_in-erase, count_in-insert_or_assign, count_in-find,
}
use mini_pgw.Sqlite
use mini_pgw.Sqlite.{Sqlite, delete_sql, exists_sql, live_sql}
use mini_pgw.Sqlite.Documented.{Documented, Reliable, bound}
use mini_pgw.Sqlite.Partition.{load_by-rows}
use mini_pgw.Sqlite.Saves.{exists_tally}

pub data Op : Type 0 where
  saves : StoredSession → Op
  deletes : Text → Op
  looks : Text → Op
  lists : Text → Op

-- What a caller sees: nothing of a save or a deletion, a flag, or a list without its order.
pub data Seen : Type 0 where
  nothing : Seen
  held : Bool → Seen
  bag : ((StoredSession → Bool) → ℕ) → Seen

abbrev pub IsPlain : Op → Type 0
IsPlain (saves s) = bound s ≡ s
IsPlain (deletes imsi) = c_string imsi ≡ imsi
IsPlain (looks imsi) = c_string imsi ≡ imsi
IsPlain (lists now) = c_string now ≡ now

abbrev pub bag_of : List StoredSession → Seen
bag_of sessions = bag (λ p. count_if p sessions)

unfoldable pub memory_op : Layout StoredSession → Map StoredSession → Op → Map StoredSession × Seen
memory_op layout m (saves s) = ((InMemory.save_session layout m s).0, nothing)
memory_op layout m (deletes imsi) = ((InMemory.delete_session m imsi).0, nothing)
memory_op layout m (looks imsi) = (m, held (InMemory.session_exists m imsi))
memory_op layout m (lists now) = (m, bag_of (InMemory.load_sessions m now))

unfoldable pub memory_run :
    Layout StoredSession → Map StoredSession → List Op → Map StoredSession × List Seen
memory_run layout m [] = (m, [])
memory_run layout m (op ∷ ops) =
    let (m', seen) = memory_op layout m op in
    let (m'', more) = memory_run layout m' ops in (m'', seen ∷ more)

module _ (lib : Sqlite) where
  unfoldable pub sqlite_op : Option lib.Db → Op → Option lib.Db × Seen
  sqlite_op db (saves s) = ((Sqlite.save_session lib db s).0, nothing)
  sqlite_op db (deletes imsi) = ((Sqlite.delete_session lib db imsi).0, nothing)
  sqlite_op db (looks imsi) = (db, held (Sqlite.session_exists lib db imsi))
  sqlite_op db (lists now) = (db, bag_of (Sqlite.load_sessions lib db now))

  unfoldable pub sqlite_run : Option lib.Db → List Op → Option lib.Db × List Seen
  sqlite_run db [] = (db, [])
  sqlite_run db (op ∷ ops) =
      let (db', seen) = sqlite_op db op in
      let (db'', more) = sqlite_run db' ops in (db'', seen ∷ more)

module _ (lib : Sqlite) (doc : Documented lib) (sure : Reliable lib)
    (layout : Layout StoredSession) where
  -- The table and the map hold the same sessions.
  pub record Simulates (db : lib.Db) (m : Map StoredSession) : Type 0 where
    pub valid : IsValid m
    pub same : (p : StoredSession → Bool) → count_if p (doc.table db) ≡ count_in p m

  save-Simulates :
      (db : lib.Db) (m : Map StoredSession) (s : StoredSession)
      → bound s ≡ s
      → Simulates db m
      → (db' : lib.Db) × ((Sqlite.save_session lib (some db) s).0 ≡ some db')
        × Simulates db' (InMemory.save_session layout m s).0
  unfolding Sqlite.save_session InMemory.save_session
  save-Simulates db m s plain r =
      let (stmt, prepared, done) = sure.replaces db (bound s) in
      (
        _,
        ground (arith, prepared),
        record {
          valid = save_session-IsValid layout m s r.valid;
          same = λ p.
              doc.replaced db (bound s) p stmt prepared done
              ∙ ap (λ (t : StoredSession). one_if (p t) + count_if (apart t.imsi p) (doc.table db))
                  plain
              ∙ ap (◌+◌ (one_if (p s))) (r.same (apart s.imsi p))
              ∙ sym (count_in-insert_or_assign layout p s m r.valid);
        },
      )

  delete-Simulates :
      (db : lib.Db) (m : Map StoredSession) (imsi : Text)
      → c_string imsi ≡ imsi
      → Simulates db m
      → (db' : lib.Db) × ((Sqlite.delete_session lib (some db) imsi).0 ≡ some db')
        × Simulates db' (InMemory.delete_session m imsi).0
  unfolding Sqlite.delete_session InMemory.delete_session
  delete-Simulates db m imsi plain r =
      let w = sure.deletes db (c_string imsi) in
      (
        _,
        ground (arith, w.prepared),
        record {
          valid = delete_session-IsValid m imsi r.valid;
          same = λ p.
              doc.deleted db (c_string imsi) p w
              ∙ ap (λ k. count_if (apart k p) (doc.table db)) plain
              ∙ r.same (apart imsi p)
              ∙ sym (count_in-erase p imsi m r.valid);
        },
      )

  exists-same :
      (db : lib.Db) (m : Map StoredSession) (imsi : Text)
      → c_string imsi ≡ imsi
      → Simulates db m
      → Sqlite.session_exists lib (some db) imsi ≡ InMemory.session_exists m imsi
  unfolding InMemory.session_exists
  exists-same db m imsi plain r =
      exists_tally lib doc db imsi (sure.looks db (c_string imsi))
      ∙ ap (λ k. ltb 0 (tally k (doc.table db))) plain
      ∙ ap (ltb 0) (r.same (λ s. text_eq imsi s.imsi) ∙ count_in-find imsi m r.valid)
      ∙ ground arith

  list-same :
      (db : lib.Db) (m : Map StoredSession) (now : Text)
      → c_string now ≡ now
      → Simulates db m
      → bag_of (Sqlite.load_sessions lib (some db) now) ≡ bag_of (InMemory.load_sessions m now)
  unfolding Sqlite.load_sessions InMemory.load_sessions
  list-same db m now plain r = ap bag (
      fun_ext λ p.
        ap (count_if p) (load_by-rows lib doc db live_sql now (sure.lists db (c_string now)))
        ∙ doc.live_rows db (c_string now) p (sure.lists db (c_string now))
        ∙ ap (λ t. count_if (λ s. p s && is_live t s) (doc.table db)) plain
        ∙ r.same (λ s. p s && is_live now s)
        ∙ sym (count_if-values_if p (is_live now) m))

  -- Two stores that showed the same and hold the same.
  abbrev Agree : {A : Type 0} → Option lib.Db × A → Map StoredSession × A → Type 0
  Agree (db, seen) (m, seen') =
      (seen ≡ seen') × ((db' : lib.Db) × (db ≡ some db') × Simulates db' m)

  op-Agree :
      (db : lib.Db) (m : Map StoredSession) (op : Op)
      → IsPlain op
      → Simulates db m
      → Agree (sqlite_op lib (some db) op) (memory_op layout m op)
  unfolding sqlite_op memory_op
  op-Agree db m (saves s) plain r = (refl, save-Simulates db m s plain r)
  op-Agree db m (deletes imsi) plain r = (refl, delete-Simulates db m imsi plain r)
  op-Agree db m (looks imsi) plain r = (ap held (exists-same db m imsi plain r), (db, refl, r))
  op-Agree db m (lists now) plain r = (list-same db m now plain r, (db, refl, r))

  -- Over a SQLite library that does what its documentation says and never fails, on texts without
  -- a zero byte, the SQLite store and the in-memory store that hold the same sessions answer any
  -- sequence of saves, deletions, lookups and lists of live sessions alike, a list without its
  -- order and the results of saves and deletions apart, and hold the same sessions after it.
  pub sqlite_run-memory_run :
      (db : lib.Db) (m : Map StoredSession) (ops : List Op)
      → All IsPlain ops
      → Simulates db m
      → ((sqlite_run lib (some db) ops).1 ≡ (memory_run layout m ops).1)
        × ((db' : lib.Db) × ((sqlite_run lib (some db) ops).0 ≡ some db')
            × Simulates db' (memory_run layout m ops).0)
  unfolding sqlite_run memory_run
  sqlite_run-memory_run db m [] plain r = (refl, (db, refl, r))
  sqlite_run-memory_run db m (op ∷ ops) (plain, rest) r =
      let (same, (db1, e, r1)) = op-Agree db m op plain r in
      let (more, held_after) = sqlite_run-memory_run db1 (memory_op layout m op).0 ops rest r1 in
      (
        ap (λ (d : Option lib.Db). (sqlite_op lib (some db) op).1 ∷ (sqlite_run lib d ops).1) e
            ∙ ap (λ t. t ∷ (sqlite_run lib (some db1) ops).1) same
            ∙ ap (λ t. (memory_op layout m op).1 ∷ t) more,
        subst
            (λ (d : Option lib.Db).
              (db' : lib.Db) × ((sqlite_run lib d ops).0 ≡ some db')
              × Simulates db' (memory_run layout (memory_op layout m op).0 ops).0)
            (sym e) held_after,
      )
