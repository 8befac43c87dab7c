-- ===== src/Race/Spurious.antt =====
-- A touch between the cleaner's listing and its removal.
use mini_pgw.Prelude.{
  ℕ, zero, suc, ◌<◌, ◌≡◌, refl, ap, ◌∙◌, Bool, true, not, List, [], ◌∷◌, ◌++◌, arith, is_some,
  length,
}
use mini_pgw.Text.{Text}
use mini_pgw.Text.Order.{text_eq_iff}
use mini_pgw.Cdr.{CdrRecord}
use mini_pgw.Cdr.Drain.{Logged}
use mini_pgw.Store.{StoredSession, SessionStore, StoreLaws, passes}
use mini_pgw.Manager.{Clock, Manager, now_at, touched, write_expired}
use mini_pgw.Manager.Activity.{IsSteady, touch_session_held}
use mini_pgw.Manager.Accounts.Phase.{closed, phase, expired_records}
use mini_pgw.Manager.Accounts.Steps.{Accounts, write_expired-Logged, passes-is_some, phase-listed}
use mini_pgw.Race.{waiting, reporting, Offloader, Move, touches, cleans, run}
use mini_pgw.Race.Covered.{touched-spared}

-- The rest of a pass of the cleaner: one move for each record, and one for the removal.
abbrev pub rest_of_pass : ℕ → List Move
rest_of_pass zero = cleans ∷ []
rest_of_pass (suc n) = cleans ∷ rest_of_pass n

-- What the cleaner lists at the next reading.
abbrev pub listed : {S : SessionStore} → Clock → Manager S → List StoredSession
listed {S} clock m = S.load_expired_sessions m.store (now_at clock m.reads)

module _ {S : SessionStore} (clock : Clock) (o : Offloader) where
  pub run-rest_of_pass :
      (i : ℕ) (sessions : List StoredSession) (m : Manager S)
      → run clock
          (record { sessions = m; cleaner = reporting i sessions; offloader = o })
          (rest_of_pass (length sessions))
        ≡ record {
          sessions = record m {
            cdr = write_expired (now_at clock i) sessions m.cdr;
            store = S.cleanup_expired_sessions m.store (now_at clock i);
          };
          cleaner = waiting;
          offloader = o;
        }
  unfolding run write_expired
  run-rest_of_pass i [] m = refl
  run-rest_of_pass i (s ∷ sessions) m = run-rest_of_pass i sessions _

  -- The schedule: the cleaner lists the expired sessions, the IMSI is touched, the cleaner goes on.
  abbrev pub late_touch : Manager S → Text → List Move
  late_touch m imsi = cleans ∷ touches imsi ∷ rest_of_pass (length (listed clock m))

  late_touch-run :
      (m : Manager S) (imsi : Text)
      → S.session_exists m.store imsi ≡ true
      → run clock (record { sessions = m; cleaner = waiting; offloader = o }) (late_touch m imsi)
        ≡ record {
          sessions = record m {
            reads = suc (suc (suc m.reads));
            cdr = write_expired (now_at clock m.reads) (listed clock m) m.cdr;
            store =
                S.cleanup_expired_sessions
                  (S.save_session m.store (touched clock (record m { reads = suc m.reads }) imsi)).0
                  (now_at clock m.reads);
          };
          cleaner = waiting;
          offloader = o;
        }
  unfolding run
  late_touch-run m imsi old =
      ap
        (λ (z : Manager S × Bool).
          run clock
            (record { sessions = z.0; cleaner = reporting m.reads (listed clock m); offloader = o })
            (rest_of_pass (length (listed clock m))))
        (touch_session_held clock (record m { reads = suc m.reads }) imsi old)
      ∙ run-rest_of_pass m.reads (listed clock m) _

module _ {S : SessionStore} (L : StoreLaws S) (clock : Clock) (o : Offloader) where
  -- On a steady clock with a positive timeout, if the log accounts for the store, and an IMSI is
  -- overdue when the cleaner lists the expired sessions and is touched before the cleaner goes on,
  -- then at the end of that pass the log of the writer closes the IMSI although the store still
  -- has it.
  pub late_touch_spurious :
      (m : Manager S) (imsi : Text) (log : List CdrRecord)
      → IsSteady clock
      → 0 < m.timeout
      → Accounts L m log
      → passes (L.overdue (now_at clock m.reads)) (L.find m.store imsi) ≡ true
      → let y =
          run clock
            (record { sessions = m; cleaner = waiting; offloader = o })
            (late_touch clock o m imsi) in
        let log' = log ++ expired_records (now_at clock m.reads) (listed clock m) in
        Logged y.sessions.cdr log'
        × (phase imsi log' ≡ closed)
        × (is_some (L.find y.sessions.store imsi) ≡ true)
  late_touch_spurious m imsi log steady lasting a over =
      let held = passes-is_some (L.overdue (now_at clock m.reads)) (L.find m.store imsi) over in
      let old = L.exists_lem m.store imsi ∙ held in
      let m1 : Manager S = record m { reads = suc m.reads } in
      let s = touched clock m1 imsi in
      let spared : not (L.overdue (now_at clock m.reads) s) ≡ true =
        touched-spared L clock m1 imsi (reporting m.reads []) steady lasting (omega arith) in
      rw (late_touch-run clock o m imsi old) (
        write_expired-Logged (now_at clock m.reads) (listed clock m) m.cdr log a.logged,
        phase-listed L clock m (now_at clock m.reads) imsi a ∙ rw over (ground arith),
        ground (
          arith,
          L.find-cleanup (S.save_session m.store s).0 (now_at clock m.reads) imsi
              (L.save-IsValid m.store s a.valid),
          L.find-save m.store s imsi a.valid,
          text_eq_iff imsi imsi,
          spared,
        ),
      )
