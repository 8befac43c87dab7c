-- ===== src/Manager/Accounts/Steps.antt =====
-- The account of the call records, method by method.
use mini_pgw.Prelude.{
  ℕ, zero, suc, ◌≡◌, ap, ◌∙◌, Bool, true, false, not, ◌&&◌, List, [], ◌∷◌, ◌++◌, Option, some,
  arith, is_some, Bool-cases, inl, inr, append-nil, append_assoc, All, subst, List-cases,
}
use mini_pgw.Text.{Text}
use mini_pgw.Text.Order.{text_eq_iff}
use mini_pgw.Cdr.{CdrRecord, CdrWriter, writes, writer_round, created, expired}
use mini_pgw.Cdr.Drain.{Logged, write-Logged, writer_round-Logged}
use mini_pgw.Store.{StoredSession, SessionStore, StoreLaws, passes}
use mini_pgw.Manager.{
  Clock, Manager, now_at, touched, touch_session, expire_session_locked, offload_rate,
  write_expired, cleaner_pass,
}
use mini_pgw.Manager.Rounds.{offload_rate_done, offload_rate_more}
use mini_pgw.Manager.Accounts.Phase.{
  closed, phase_of, note, phase, phase_from, phase_from-append, record_of, note-created,
  note-expired, expired_records, phase_from-expired_records,
}

pub record Accounts {S : SessionStore} (L : StoreLaws S) (m : Manager S) (log : List CdrRecord)
    : Type 0 where
  pub valid : L.IsValid m.store
  pub logged : Logged m.cdr log
  pub phases : (k : Text) → phase k log ≡ phase_of (is_some (L.find m.store k))

pub phase-snoc :
    (k : Text) (log : List CdrRecord) (rec : CdrRecord)
    → phase k (log ++ rec ∷ []) ≡ note k (phase k log) rec
unfolding phase_from
phase-snoc k log rec = phase_from-append k closed log (rec ∷ [])

pub passes-is_some :
    (p : StoredSession → Bool) (o : Option StoredSession) → passes p o ≡ true → is_some o ≡ true
passes-is_some p o h = ground arith

pub write_expired-Logged :
    (now : Text) (sessions : List StoredSession) (w : CdrWriter) (log : List CdrRecord)
    → Logged w log
    → Logged (write_expired now sessions w) (log ++ expired_records now sessions)
unfolding write_expired
write_expired-Logged now [] w log l = rw append-nil l
write_expired-Logged now (s ∷ sessions) w log l =
    subst (Logged _) (append_assoc log _ _)
      (write_expired-Logged now sessions _ _ (write-Logged (record_of now s.imsi expired) l))

module _ {S : SessionStore} (L : StoreLaws S) (clock : Clock) where
  -- The account after some more records.
  abbrev pub Extends : List CdrRecord → Manager S → Type 0
  Extends log m = (new : List CdrRecord) × Accounts L m (log ++ new)

  touch_old :
      (m : Manager S) (imsi : Text) {log : List CdrRecord}
      → Accounts L m log
      → S.session_exists m.store imsi ≡ true
      → Accounts L (touch_session clock m imsi).0 log
  unfolding touch_session
  touch_old m imsi {log} a old = rw old (record {
    valid = L.save-IsValid m.store _ a.valid;
    logged = a.logged;
    phases = λ k. ground (
      arith,
      a.phases k,
      L.find-save m.store (touched clock m imsi) k a.valid,
      L.exists_lem m.store imsi,
      text_eq_iff imsi k,
    );
  })

  touch_new :
      (m : Manager S) (imsi : Text) {log : List CdrRecord}
      → Accounts L m log
      → S.session_exists m.store imsi ≡ false
      → Accounts L
          (touch_session clock m imsi).0
          (log ++ record_of (now_at clock m.reads) imsi created ∷ [])
  unfolding touch_session
  touch_new m imsi {log} a new = rw new (record {
    valid = L.save-IsValid m.store _ a.valid;
    logged = write-Logged _ a.logged;
    phases = λ k. ground (
      arith,
      a.phases k,
      phase-snoc k log (record_of (now_at clock m.reads) imsi created),
      note-created k (now_at clock m.reads) imsi (phase k log),
      L.find-save m.store (touched clock m imsi) k a.valid,
      L.exists_lem m.store imsi,
      text_eq_iff imsi k,
      text_eq_iff k imsi,
    );
  })

  -- A touch records the creation of a session that the store did not have, and nothing else.
  pub touch_session-Accounts :
      (m : Manager S) (imsi : Text) {log : List CdrRecord}
      → Accounts L m log
      → Extends log (touch_session clock m imsi).0
  touch_session-Accounts m imsi {log} a = elim (Bool-cases (S.session_exists m.store imsi)) [
    | inl old ↦ ([], rw append-nil (touch_old m imsi a old))
    | inr new ↦ (record_of (now_at clock m.reads) imsi created ∷ [], touch_new m imsi a new)
  ]

  -- The expiry of a session that the store has.
  pub expire-Accounts :
      (m : Manager S) (imsi : Text) {log : List CdrRecord}
      → Accounts L m log
      → is_some (L.find m.store imsi) ≡ true
      → Accounts L
          (expire_session_locked clock m imsi)
          (log ++ record_of (now_at clock m.reads) imsi expired ∷ [])
  unfolding expire_session_locked
  expire-Accounts m imsi {log} a held = record {
    valid = L.delete-IsValid m.store imsi a.valid;
    logged = write-Logged _ a.logged;
    phases = λ k. ground (
      arith,
      a.phases k,
      phase-snoc k log (record_of (now_at clock m.reads) imsi expired),
      note-expired k (now_at clock m.reads) imsi (phase k log),
      L.find-delete m.store imsi k a.valid,
      text_eq_iff imsi k,
      text_eq_iff k imsi,
    );
  }

  -- Another clock reading, or a pass of the writer thread, changes no account.
  pub read-Accounts :
      (m : Manager S) (i : ℕ) {log : List CdrRecord}
      → Accounts L m log
      → Accounts L (record m { reads = i }) log
  read-Accounts m i a = record { valid = a.valid; logged = a.logged; phases = a.phases }

  pub writer-Accounts :
      (m : Manager S) (w : CdrWriter) {log : List CdrRecord}
      → Accounts L m log
      → writer_round m.cdr ≡ writes w
      → Accounts L (record m { cdr = w }) log
  writer-Accounts m w a e = record {
    valid = a.valid;
    logged = writer_round-Logged e a.logged;
    phases = a.phases;
  }

  -- The first live session is one that the store has.
  pub head-found :
      (st : S.State) (now : Text) (s : StoredSession) (rest : List StoredSession)
      → L.IsValid st
      → S.load_sessions st now ≡ s ∷ rest
      → is_some (L.find st s.imsi) ≡ true
  head-found st now s rest v e =
      ground (arith, (subst (All (λ t. L.find st t.imsi ≡ some t)) e (L.load-found st now v)).0)

  -- Two extensions in a row.
  pub after : {m : Manager S} (log new : List CdrRecord) → Extends (log ++ new) m → Extends log m
  after {m} log new (more, a) = (new ++ more, subst (Accounts L m) (append_assoc log new more) a)

  -- Offloading expires one live session after the other.
  pub offload_rate-Accounts :
      (left : ℕ) (m : Manager S) {log : List CdrRecord}
      → Accounts L m log
      → Extends log (offload_rate clock left m)
  offload_rate-Accounts zero m a = ([], rw append-nil (unfold offload_rate in a))
  offload_rate-Accounts (suc left) m {log} a =
      elim (List-cases (S.load_sessions m.store (now_at clock m.reads))) [
        | inl e ↦ ([], rw (append-nil, offload_rate_done clock left m e) (read-Accounts m _ a))
        | inr (s, rest, e) ↦ rw (offload_rate_more clock left m s rest e) (
            after log _ (
              offload_rate-Accounts left _ (
                expire-Accounts _ s.imsi (read-Accounts m _ a)
                  (head-found m.store _ s rest a.valid e))))
      ]

  -- The log after the records of what the cleaner lists.
  pub phase-listed :
      (m : Manager S) (now k : Text) {log : List CdrRecord}
      → Accounts L m log
      → phase k (log ++ expired_records now (S.load_expired_sessions m.store now))
        ≡ phase_of (is_some (L.find m.store k) && not (passes (L.overdue now) (L.find m.store k)))
  phase-listed m now k {log} a =
      phase_from-append k closed log _
      ∙ ap (λ ph. phase_from k ph (expired_records now gone)) (a.phases k)
      ∙ phase_from-expired_records k now gone (is_some (L.find m.store k))
          (passes (L.overdue now) (L.find m.store k)) (L.expired-tally m.store now k a.valid)
          (passes-is_some (L.overdue now) (L.find m.store k))
    where
      gone : List StoredSession
      gone = S.load_expired_sessions m.store now

  -- A round of the cleaner, run without interference, records the expiry of exactly the sessions that
  -- it removes.
  pub cleaner_pass-Accounts :
      (m : Manager S) {log : List CdrRecord} → Accounts L m log → Extends log (cleaner_pass clock m)
  unfolding cleaner_pass
  cleaner_pass-Accounts m {log} a = (
    expired_records now gone,
    record {
      valid = L.cleanup-IsValid m.store now a.valid;
      logged = write_expired-Logged now _ m.cdr log a.logged;
      phases = λ k.
          phase-listed m now k a
          ∙ ap phase_of (ground (arith, L.find-cleanup m.store now k a.valid));
    },
  )
    where
      now : Text
      now = now_at clock m.reads

      gone : List StoredSession
      gone = S.load_expired_sessions m.store now
