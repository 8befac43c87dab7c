-- ===== src/Sqlite/Accounts.antt =====
-- The call records against the table of a database on which no statement fails.
use mini_pgw.Prelude.{
  ℕ, zero, suc, ◌+◌, ◌≤◌, ◌≡◌, refl, ap, sym, subst, ◌∙◌, List, [], ◌∷◌, ◌++◌, some, arith, ltb,
  All, Bool-cases, List-cases, inl, inr, append-nil, append_assoc,
}
use mini_pgw.Text.{Text, c_string}
use mini_pgw.Text.Order.{text_eq_iff}
use mini_pgw.Store.{StoredSession, tally}
use mini_pgw.Cdr.{CdrRecord, CdrWriter, Round, waits, ends, writes, writer_round, created, expired}
use mini_pgw.Cdr.Drain.{Logged, write-Logged, writer_round-Logged}
use mini_pgw.Sqlite
use mini_pgw.Sqlite.{Sqlite, sqlite, live_sql, expired_sql}
use mini_pgw.Sqlite.Documented.{Documented, Reliable}
use mini_pgw.Sqlite.Saves.{exists_tally}
use mini_pgw.Manager.{
  Clock, Manager, now_at, touched, touch_session, is_active, expire_session_locked, offload_rate,
  cleaner_pass,
}
use mini_pgw.Manager.Rounds.{offload_rate_done, offload_rate_more}
use mini_pgw.Manager.Accounts.Phase.{
  phase, phase_of, phase_from, phase_from-append, closed, record_of, note-created, note-expired,
  expired_records, phase_from-expired_records,
}
use mini_pgw.Manager.Accounts.Steps.{phase-snoc, write_expired-Logged}
use mini_pgw.Manager.Accounts.Run.{
  Call, touches, checks, offloads, cleans, writes_out, step, run, after_round,
}
use mini_pgw.Sqlite.Tables.{IsKeyed, save-table, delete-table, cleanup-table, listed-first}

-- A touch of an IMSI without a zero byte; any other call.
abbrev pub IsPlain : Call → Type 0
IsPlain (touches imsi) = c_string imsi ≡ imsi
IsPlain (checks imsi) = Unit
IsPlain (offloads rate) = Unit
IsPlain cleans = Unit
IsPlain writes_out = Unit

module _ (lib : Sqlite) (doc : Documented lib) (sure : Reliable lib) where
  -- A manager whose log accounts for its table.
  pub record TableAccounts (m : Manager (sqlite lib)) (log : List CdrRecord) : Type 0 where
    pub db : lib.Db
    pub opened : m.store ≡ some db
    pub keyed : IsKeyed lib doc sure db
    pub logged : Logged m.cdr log
    pub phases : (k : Text) → phase k log ≡ phase_of (ltb 0 (tally k (doc.table db)))

  module _ (clock : Clock) where
    -- The account after some more records.
    abbrev Extends : List CdrRecord → Manager (sqlite lib) → Type 0
    Extends log m = (new : List CdrRecord) × TableAccounts m (log ++ new)

    pub touch-TableAccounts :
        (m : Manager (sqlite lib)) (imsi : Text) {log : List CdrRecord}
        → c_string imsi ≡ imsi
        → TableAccounts m log
        → Extends log (touch_session clock m imsi).0
    unfolding touch_session
    touch-TableAccounts m imsi {log} plain a =
        let (db', saved, keyed, tallied) =
          save-table lib doc sure a.db (touched clock m imsi) plain a.keyed in
        let stored =
          ap (λ d. (Sqlite.save_session lib d (touched clock m imsi)).0) a.opened ∙ saved in
        let held =
          ap (λ d. Sqlite.session_exists lib d imsi) a.opened
          ∙ exists_tally lib doc a.db imsi (sure.looks a.db (c_string imsi))
          ∙ ap (λ k. ltb 0 (tally k (doc.table a.db))) plain in
        elim (Bool-cases (Sqlite.session_exists lib m.store imsi)) [
          | inl old ↦ (
            [],
            rw (old, append-nil)
                (record {
                  db = db';
                  opened = stored;
                  keyed = keyed;
                  logged = a.logged;
                  phases =
                      λ k. ground (arith, a.phases k, tallied k, held, old, text_eq_iff k imsi);
                }),
          )
          | inr new ↦ (
            record_of (now_at clock m.reads) imsi created ∷ [],
            rw new (record {
              db = db';
              opened = stored;
              keyed = keyed;
              logged = write-Logged _ a.logged;
              phases = λ k. ground (
                arith,
                a.phases k,
                phase-snoc k log (record_of (now_at clock m.reads) imsi created),
                note-created k (now_at clock m.reads) imsi (phase k log),
                tallied k,
                held,
                new,
                text_eq_iff k imsi,
              );
            }),
          )
        ]

    expire-TableAccounts :
        (m : Manager (sqlite lib)) (imsi : Text) {log : List CdrRecord}
        → (a : TableAccounts m log) → c_string imsi ≡ imsi
        → 1 ≤ tally imsi (doc.table a.db)
        → TableAccounts
            (expire_session_locked clock m imsi)
            (log ++ record_of (now_at clock m.reads) imsi expired ∷ [])
    unfolding expire_session_locked
    expire-TableAccounts m imsi {log} a plain held =
        let (db', deleted, keyed, tallied) = delete-table lib doc sure a.db imsi plain a.keyed in
        record {
          db = db';
          opened = ap (λ d. (Sqlite.delete_session lib d imsi).0) a.opened ∙ deleted;
          keyed = keyed;
          logged = write-Logged _ a.logged;
          phases = λ k. ground (
            arith,
            a.phases k,
            phase-snoc k log (record_of (now_at clock m.reads) imsi expired),
            note-expired k (now_at clock m.reads) imsi (phase k log),
            tallied k,
            held,
            text_eq_iff k imsi,
          );
        }

    pub read-TableAccounts :
        (m : Manager (sqlite lib)) (i : ℕ) {log : List CdrRecord}
        → TableAccounts m log
        → TableAccounts (record m { reads = i }) log
    read-TableAccounts m i a = record {
      db = a.db;
      opened = a.opened;
      keyed = a.keyed;
      logged = a.logged;
      phases = a.phases;
    }

    after :
        {m : Manager (sqlite lib)} (log new : List CdrRecord)
        → Extends (log ++ new) m
        → Extends log m
    after {m} log new (more, a) =
        (new ++ more, subst (TableAccounts m) (append_assoc log new more) a)

    pub offload-TableAccounts :
        (left : ℕ) (m : Manager (sqlite lib)) {log : List CdrRecord}
        → TableAccounts m log
        → Extends log (offload_rate clock left m)
    unfolding read-TableAccounts
    offload-TableAccounts zero m a = ([], rw append-nil (unfold offload_rate in a))
    offload-TableAccounts (suc left) m {log} a =
        elim (List-cases (Sqlite.load_sessions lib m.store (now_at clock m.reads))) [
          | inl e ↦
              ([], rw (append-nil, offload_rate_done clock left m e) (read-TableAccounts m _ a))
          | inr (s, rest, e) ↦
              let (plain, held) =
                listed-first lib doc sure a.db (now_at clock m.reads) s rest a.keyed (
                  ap (λ d. Sqlite.load_sessions lib d (now_at clock m.reads)) (sym a.opened) ∙ e) in
              rw (offload_rate_more clock left m s rest e) (
                after log _ (
                  offload-TableAccounts left _
                    (expire-TableAccounts _ s.imsi (read-TableAccounts m _ a) plain held)))
        ]

    phase-gone :
        (db : lib.Db) (now k : Text) (log : List CdrRecord) (gone : List StoredSession) (left : ℕ)
        → phase k log ≡ phase_of (ltb 0 (tally k (doc.table db)))
        → left + tally k gone ≡ tally k (doc.table db)
        → tally k (doc.table db) ≤ 1
        → phase k (log ++ expired_records now gone) ≡ phase_of (ltb 0 left)
    phase-gone db now k log gone left ph split single =
        phase_from-append k closed log _
        ∙ ap (λ q. phase_from k q (expired_records now gone)) ph
        ∙ phase_from-expired_records k now gone (ltb 0 (tally k (doc.table db)))
            (ltb 0 (tally k gone)) (ground arith) (λ h. ground arith)
        ∙ ap phase_of (ground arith)

    pub cleaner-TableAccounts :
        (m : Manager (sqlite lib)) {log : List CdrRecord}
        → TableAccounts m log
        → Extends log (cleaner_pass clock m)
    unfolding cleaner_pass
    cleaner-TableAccounts m {log} a =
        let now = now_at clock m.reads in
        let gone = Sqlite.load_expired_sessions lib m.store now in
        let (db', cleaned, keyed, tallied) = cleanup-table lib doc sure a.db now a.keyed in
        (
          expired_records now gone,
          record {
            db = db';
            opened = ap (λ d. Sqlite.cleanup_expired_sessions lib d now) a.opened ∙ cleaned;
            keyed = keyed;
            logged = write_expired-Logged now _ m.cdr log a.logged;
            phases = λ k.
                phase-gone a.db now k log gone (tally k (doc.table db')) (a.phases k)
                  (ap
                      (λ d.
                        tally k (doc.table db') + tally k (Sqlite.load_expired_sessions lib d now))
                      a.opened
                    ∙ tallied k)
                  (a.keyed.single k);
          },
        )

    pub writer-TableAccounts :
        (m : Manager (sqlite lib)) (w : CdrWriter) {log : List CdrRecord}
        → TableAccounts m log
        → writer_round m.cdr ≡ writes w
        → TableAccounts (record m { cdr = w }) log
    writer-TableAccounts m w a e = record {
      db = a.db;
      opened = a.opened;
      keyed = a.keyed;
      logged = writer_round-Logged e a.logged;
      phases = a.phases;
    }

    round-TableAccounts :
        (m : Manager (sqlite lib)) (r : Round) {log : List CdrRecord}
        → TableAccounts m log
        → writer_round m.cdr ≡ r
        → TableAccounts (after_round clock m r) log
    unfolding after_round
    round-TableAccounts m waits a e = a
    round-TableAccounts m ends a e = a
    round-TableAccounts m (writes w) a e = writer-TableAccounts m w a e

    step-TableAccounts :
        (m : Manager (sqlite lib)) (c : Call) {log : List CdrRecord}
        → IsPlain c
        → TableAccounts m log
        → Extends log (step clock m c)
    unfolding step
    step-TableAccounts m (touches imsi) plain a = touch-TableAccounts m imsi plain a
    step-TableAccounts m (checks imsi) plain a =
        ([], rw append-nil (unfold is_active in read-TableAccounts m _ a))
    step-TableAccounts m (offloads rate) plain a = offload-TableAccounts rate m a
    step-TableAccounts m cleans plain a = cleaner-TableAccounts m a
    step-TableAccounts m writes_out plain a = ([], rw append-nil (round-TableAccounts m _ a refl))

    -- Over a SQLite library that does what its documentation says and never fails, from a manager
    -- whose log accounts for its table, any sequence of touches of IMSI without a zero byte,
    -- checks, offloads, cleaner passes and writer rounds, each run to its end before the next,
    -- leads to a manager whose log extends the old one and accounts for its table: the table has
    -- at most one row for an IMSI, the log is what the file and the queue hold, and for every IMSI
    -- the records open and close its session in turn, open at the end exactly when the table has
    -- it.
    pub sqlite_run-Accounts :
        (m : Manager (sqlite lib)) (calls : List Call) {log : List CdrRecord}
        → All IsPlain calls
        → TableAccounts m log
        → Extends log (run clock m calls)
    unfolding run
    sqlite_run-Accounts m [] plain a = ([], rw append-nil a)
    sqlite_run-Accounts m (c ∷ calls) {log} (plain, rest) a =
        let (new, a') = step-TableAccounts m c plain a in
        after log new (sqlite_run-Accounts (step clock m c) calls rest a')
