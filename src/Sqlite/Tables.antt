-- ===== src/Sqlite/Tables.antt =====
-- What the statements leave of a table with one row for an IMSI at most.
use mini_pgw.Prelude.{
  ◌+◌, ◌≤◌, ◌≡◌, ap, sym, ◌∙◌, Bool, false, not, ◌&&◌, List, [], ◌∷◌, some, arith, count_if,
  if◌then◌else◌,
}
use mini_pgw.Text.{Text, text_eq, c_string}
use mini_pgw.Text.Order.{text_eq_iff, text_eq_refl}
use mini_pgw.Store.{StoredSession, tally, is_live}
use mini_pgw.Sqlite
use mini_pgw.Sqlite.{Sqlite, sqlite, live_sql, expired_sql}
use mini_pgw.Sqlite.Documented.{Documented, Reliable, bound, bind_session}
use mini_pgw.Sqlite.Partition.{count_if-split, load_by-rows, tally-expired, cleanup-after}
use mini_pgw.Sqlite.Saves.{count_if-other}

abbrev is_cut : StoredSession → Bool
is_cut s = not (text_eq (c_string s.imsi) s.imsi)

count_if-both :
    (p q : StoredSession → Bool) (xs : List StoredSession)
    → count_if (λ s. p s && q s) xs ≤ count_if p xs
count_if-both p q [] = omega arith
count_if-both p q (x ∷ xs) = ground (arith, count_if-both p q xs)

count_if-head :
    (p : StoredSession → Bool) (x : StoredSession) (xs : List StoredSession)
    → count_if p (x ∷ xs) ≡ 0
    → p x ≡ false
count_if-head p x xs h = ground arith

tally-head : (x : StoredSession) (xs : List StoredSession) → 1 ≤ tally x.imsi (x ∷ xs)
tally-head x xs = ground (arith, text_eq_refl x.imsi)

module _ (lib : Sqlite) (doc : Documented lib) (sure : Reliable lib) where
  -- A table with one row for an IMSI at most, each without a zero byte.
  pub record IsKeyed (db : lib.Db) : Type 0 where
    pub single : (k : Text) → tally k (doc.table db) ≤ 1
    pub uncut : count_if is_cut (doc.table db) ≡ 0

  pub save-table :
      (db : lib.Db) (s : StoredSession)
      → c_string s.imsi ≡ s.imsi
      → IsKeyed db
      → (db' : lib.Db) × ((Sqlite.save_session lib (some db) s).0 ≡ some db')
        × IsKeyed db'
        × ((k : Text)
            → tally k (doc.table db') ≡ (if text_eq k s.imsi then 1 else tally k (doc.table db)))
  unfolding Sqlite.save_session
  save-table db s plain keyed =
      let (stmt, prepared, done) = sure.replaces db (bound s) in
      let replaced = λ (p : StoredSession → Bool). doc.replaced db (bound s) p stmt prepared done in
      let rows = doc.table (lib.execute db (bind_session lib stmt (bound s))).after in
      let tallied : (k : Text)
          → tally k rows ≡ (if text_eq k (c_string s.imsi) then 1 else tally k (doc.table db)) =
        λ k.
          replaced (λ t. text_eq k t.imsi)
          ∙ ground (arith, count_if-other (c_string s.imsi) k (doc.table db)) in
      (
        _,
        ground (arith, prepared),
        record {
          single = λ k. ground (arith, tallied k, keyed.single k);
          uncut = ground (
            arith,
            replaced is_cut,
            keyed.uncut,
            count_if-both is_cut (λ t. not (text_eq (c_string s.imsi) t.imsi)) (doc.table db),
            text_eq_refl s.imsi,
          );
        },
        λ k. tallied k ∙ ap (λ i. if text_eq k i then 1 else tally k (doc.table db)) plain,
      )

  pub delete-table :
      (db : lib.Db) (imsi : Text)
      → c_string imsi ≡ imsi
      → IsKeyed db
      → (db' : lib.Db) × ((Sqlite.delete_session lib (some db) imsi).0 ≡ some db')
        × IsKeyed db'
        × ((k : Text)
            → tally k (doc.table db') ≡ (if text_eq k imsi then 0 else tally k (doc.table db)))
  unfolding Sqlite.delete_session
  delete-table db imsi plain keyed =
      let w = sure.deletes db (c_string imsi) in
      let tallied = λ (k : Text).
        doc.deleted db (c_string imsi) (λ t. text_eq k t.imsi) w
        ∙ count_if-other (c_string imsi) k (doc.table db) in
      (
        _,
        ground (arith, w.prepared),
        record {
          single = λ k. ground (arith, tallied k, keyed.single k);
          uncut = ground (
            arith,
            doc.deleted db (c_string imsi) is_cut w,
            keyed.uncut,
            count_if-both is_cut (λ t. not (text_eq (c_string imsi) t.imsi)) (doc.table db),
          );
        },
        λ k. tallied k ∙ ap (λ i. if text_eq k i then 0 else tally k (doc.table db)) plain,
      )

  pub cleanup-table :
      (db : lib.Db) (now : Text)
      → IsKeyed db
      → (db' : lib.Db) × (Sqlite.cleanup_expired_sessions lib (some db) now ≡ some db')
        × IsKeyed db'
        × ((k : Text)
            → tally k (doc.table db') + tally k (Sqlite.load_expired_sessions lib (some db) now)
              ≡ tally k (doc.table db))
  cleanup-table db now keyed =
      let w = sure.cleans db (c_string now) in
      let live = is_live (c_string now) in
      let cleaned = λ (p : StoredSession → Bool). doc.cleaned db (c_string now) p w in
      (
        _,
        cleanup-after lib doc db now w,
        record {
          single = λ k. omega (
            arith,
            cleaned (λ t. text_eq k t.imsi),
            count_if-both (λ t. text_eq k t.imsi) live (doc.table db),
            keyed.single k,
          );
          uncut =
              omega (arith, cleaned is_cut, count_if-both is_cut live (doc.table db), keyed.uncut);
        },
        λ k. omega (
          arith,
          cleaned (λ t. text_eq k t.imsi),
          tally-expired lib doc db now k (sure.lists_expired db (c_string now)),
          count_if-split (λ t. text_eq k t.imsi) live (doc.table db),
        ),
      )

  -- The first live session has a row, and no zero byte.
  pub listed-first :
      (db : lib.Db) (now : Text) (s : StoredSession) (rest : List StoredSession)
      → IsKeyed db
      → Sqlite.load_sessions lib (some db) now ≡ s ∷ rest
      → (c_string s.imsi ≡ s.imsi) × (1 ≤ tally s.imsi (doc.table db))
  unfolding Sqlite.load_sessions
  listed-first db now s rest keyed e =
      let w = sure.lists db (c_string now) in
      let counts : (p : StoredSession → Bool) → count_if p (s ∷ rest) ≤ count_if p (doc.table db) =
        λ p. ground (
          arith,
          ap (count_if p) (sym e ∙ load_by-rows lib doc db live_sql now w)
              ∙ doc.live_rows db (c_string now) p w,
          count_if-both p (is_live (c_string now)) (doc.table db),
        ) in
      let whole = count_if-head is_cut s rest (omega (arith, counts is_cut, keyed.uncut)) in
      (
        (text_eq_iff (c_string s.imsi) s.imsi).0 (ground arith),
        omega (arith, tally-head s rest, counts (λ t. text_eq s.imsi t.imsi)),
      )
