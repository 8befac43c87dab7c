-- ===== src/Sqlite/Closed.antt =====
-- The session manager over a database that could not be opened.
use mini_pgw.Prelude.{
  ℕ, zero, suc, ◌≡◌, refl, subst, true, false, List, [], ◌∷◌, ◌++◌, none, arith, map, append-nil,
  append_assoc,
}
use mini_pgw.Text.{Text}
use mini_pgw.Cdr.{CdrRecord, created, waits, ends, writes, Round, writer_round}
use mini_pgw.Cdr.Drain.{Logged, write-Logged, writer_round-Logged}
use mini_pgw.Sqlite.{
  Sqlite, sqlite, load_sessions, load_expired_sessions, save_session, session_exists,
  cleanup_expired_sessions,
}
use mini_pgw.Manager.{Clock, Manager, touch_session, is_active, offload_rate, cleaner_pass}
use mini_pgw.Manager.Activity.{touch_session-true}
use mini_pgw.Manager.Accounts.Run.{
  Call, touches, checks, offloads, cleans, writes_out, step, run, after_round,
}

-- What a record says of whom.
abbrev pub entry : CdrRecord → Text × Text
entry rec = (rec.imsi, rec.action)

-- An entry of creation for each touch.
abbrev pub creations : List Call → List (Text × Text)
creations [] = []
creations (touches imsi ∷ calls) = (imsi, created) ∷ creations calls
creations (checks imsi ∷ calls) = creations calls
creations (offloads rate ∷ calls) = creations calls
creations (cleans ∷ calls) = creations calls
creations (writes_out ∷ calls) = creations calls

module _ (lib : Sqlite) (clock : Clock) where
  -- A manager with no database, and its log.
  pub record Closed (m : Manager (sqlite lib)) (log : List CdrRecord) : Type 0 where
    pub closed : m.store ≡ none
    pub logged : Logged m.cdr log

  touch-Closed :
      (m : Manager (sqlite lib)) (imsi : Text) {log : List CdrRecord}
      → Closed m log
      → (rec : CdrRecord) × Closed (touch_session clock m imsi).0 (log ++ rec ∷ [])
        × (entry rec ≡ (imsi, created))
  unfolding touch_session session_exists save_session
  touch-Closed m imsi c =
      rw c.closed (_, record { closed = c.closed; logged = write-Logged _ c.logged }, refl)

  offload-Closed :
      (rate : ℕ) (m : Manager (sqlite lib)) {log : List CdrRecord}
      → Closed m log
      → Closed (offload_rate clock rate m) log
  unfolding offload_rate load_sessions
  offload-Closed zero m c = c
  offload-Closed (suc rate) m c = rw c.closed (record { closed = c.closed; logged = c.logged })

  round-Closed :
      (m : Manager (sqlite lib)) (r : Round) {log : List CdrRecord}
      → Closed m log
      → writer_round m.cdr ≡ r
      → Closed (after_round clock m r) log
  unfolding after_round
  round-Closed m waits c e = c
  round-Closed m ends c e = c
  round-Closed m (writes w) c e = record {
    closed = c.closed;
    logged = writer_round-Logged e c.logged;
  }

  cleaner-Closed :
      (m : Manager (sqlite lib)) {log : List CdrRecord}
      → Closed m log
      → Closed (cleaner_pass clock m) log
  unfolding cleaner_pass load_expired_sessions cleanup_expired_sessions
  cleaner-Closed m c = rw c.closed (record { closed = c.closed; logged = c.logged })

  -- The log after some more entries.
  abbrev Wrote : List CdrRecord → List (Text × Text) → Manager (sqlite lib) → Type 0
  Wrote log entries m = (new : List CdrRecord) × Closed m (log ++ new) × (map entry new ≡ entries)

  run-Closed :
      (m : Manager (sqlite lib)) (calls : List Call) {log : List CdrRecord}
      → Closed m log
      → Wrote log (creations calls) (run clock m calls)
  unfolding run step
  run-Closed m [] c = ([], rw append-nil c, refl)
  run-Closed m (touches imsi ∷ calls) {log} c =
      let (rec, c', e) = touch-Closed m imsi c in
      let (new, c'', e') = run-Closed (touch_session clock m imsi).0 calls c' in
      (rec ∷ new, subst (Closed _) (append_assoc log (rec ∷ []) new) c'', ground arith)
  run-Closed m (checks imsi ∷ calls) c =
      run-Closed (is_active clock m imsi).0 calls
        (unfold is_active in record { closed = c.closed; logged = c.logged })
  run-Closed m (offloads rate ∷ calls) c =
      run-Closed (offload_rate clock rate m) calls (offload-Closed rate m c)
  run-Closed m (cleans ∷ calls) c = run-Closed (cleaner_pass clock m) calls (cleaner-Closed m c)
  run-Closed m (writes_out ∷ calls) c =
      run-Closed (after_round clock m (writer_round m.cdr)) calls (round-Closed m _ c refl)

  -- Over a database that could not be opened, any sequence of touches, checks, offloads, cleaner
  -- passes and writer rounds adds to the log one record of creation for each touch, in order, and
  -- nothing else; and after it every touch still returns true and every IMSI is inactive.
  pub sqlite_closed-creations :
      (m : Manager (sqlite lib)) (calls : List Call) {log : List CdrRecord}
      → m.store ≡ none
      → Logged m.cdr log
      → let m' = run clock m calls in
        (new : List CdrRecord) × Logged m'.cdr (log ++ new)
        × (map entry new ≡ creations calls)
        × ((imsi : Text)
            → ((touch_session clock m' imsi).1 ≡ true) × ((is_active clock m' imsi).1 ≡ false))
  unfolding is_active load_sessions
  sqlite_closed-creations m calls shut logged =
      let (new, c, e) = run-Closed m calls (record { closed = shut; logged = logged }) in
      (
        new,
        c.logged,
        e,
        λ imsi. (touch_session-true clock (run clock m calls) imsi, rw c.closed refl),
      )
