-- ===== src/Race/Stale.antt =====
-- `touch_session` reads the clock before it takes the lock: its thread held up in between, while the
-- cleaner is at work.
use mini_pgw.Prelude.{
  suc, ◌≡◌, refl, ap, ◌∙◌, true, false, List, [], ◌∷◌, ◌++◌, none, arith, is_some, length,
  if◌then◌else◌,
}
use mini_pgw.Text.{Text}
use mini_pgw.Text.Order.{text_eq_refl}
use mini_pgw.Cdr.{CdrRecord, write, created}
use mini_pgw.Cdr.Drain.{Logged, write-Logged}
use mini_pgw.Store.{StoredSession, SessionStore, StoreLaws, tally, one_if}
use mini_pgw.Manager.{Clock, Manager, now_at, touched, touch_session, write_expired}
use mini_pgw.Manager.Accounts.Phase.{
  closed, opened, phase, phase_from, phase_from-append, phase_from-expired_records, expired_records,
  record_of, note-created,
}
use mini_pgw.Manager.Accounts.Steps.{Accounts, write_expired-Logged, phase-snoc}
use mini_pgw.Race.{System, waiting, reporting, Offloader, cleans, run}
use mini_pgw.Race.Spurious.{listed, rest_of_pass, run-rest_of_pass}

-- The part of `touch_session` under the lock: the session with the two times has been made before.
unfoldable pub touch_locked : {S : SessionStore} → Manager S → StoredSession → Manager S
touch_locked {S} m s =
    let saved = (S.save_session m.store s).0 in
    if S.session_exists m.store s.imsi then record m { store = saved } else record m {
      store = saved;
      cdr = write m.cdr (record { timestamp = s.created_at; imsi = s.imsi; action = created });
    }

module _ {S : SessionStore} (clock : Clock) where
  -- A touch is its two readings of the clock, and then that part.
  pub touch_session-touch_locked :
      (m : Manager S) (imsi : Text)
      → (touch_session clock m imsi).0
        ≡ touch_locked (record m { reads = suc (suc m.reads) }) (touched clock m imsi)
  unfolding touch_session touch_locked
  touch_session-touch_locked m imsi = ground arith

  -- The cleaner lists the expired sessions, the thread of the touch comes by the lock at last, and the
  -- cleaner goes on.
  unfoldable pub stale_touch : Offloader → Manager S → StoredSession → System S
  stale_touch o m s =
      let y = run clock (record { sessions = m; cleaner = waiting; offloader = o }) (cleans ∷ []) in
      run clock (record y { sessions = touch_locked y.sessions s })
        (rest_of_pass (length (listed clock m)))

module _ {S : SessionStore} (clock : Clock) (o : Offloader) where
  touch_locked-new :
      (m : Manager S) (s : StoredSession)
      → S.session_exists m.store s.imsi ≡ false
      → touch_locked m s ≡ record m {
        store = (S.save_session m.store s).0;
        cdr = write m.cdr (record_of s.created_at s.imsi created);
      }
  unfolding touch_locked
  touch_locked-new m s new = ground arith

  stale_touch-new :
      (m : Manager S) (s : StoredSession)
      → S.session_exists m.store s.imsi ≡ false
      → stale_touch clock o m s ≡ record {
        sessions = record m {
          reads = suc m.reads;
          cdr =
              write_expired
                (now_at clock m.reads)
                (listed clock m)
                (write m.cdr (record_of s.created_at s.imsi created));
          store = S.cleanup_expired_sessions (S.save_session m.store s).0 (now_at clock m.reads);
        };
        cleaner = waiting;
        offloader = o;
      }
  unfolding stale_touch run
  stale_touch-new m s new =
      ap
        (λ (n : Manager S).
          run clock
            (record { sessions = n; cleaner = reporting m.reads (listed clock m); offloader = o })
            (rest_of_pass (length (listed clock m))))
        (touch_locked-new (record m { reads = suc m.reads }) s new)
      ∙ run-rest_of_pass clock o m.reads (listed clock m) (record m {
        reads = suc m.reads;
        store = (S.save_session m.store s).0;
        cdr = write m.cdr (record_of s.created_at s.imsi created);
      })

module _ {S : SessionStore} (L : StoreLaws S) (clock : Clock) (o : Offloader) where
  -- If the log accounts for a store that does not have an IMSI, and a touch of it that has made
  -- its session before takes the lock when the cleaner has listed the expired sessions, and that
  -- session is overdue for this pass of the cleaner, then at the end of the pass the log of the
  -- writer has opened the IMSI and not closed it, although the store does not have it.
  pub stale_touch_unrecorded :
      (m : Manager S) (s : StoredSession) (log : List CdrRecord)
      → Accounts L m log
      → L.find m.store s.imsi ≡ none
      → L.overdue (now_at clock m.reads) s ≡ true
      → let y = stale_touch clock o m s in
        let log' =
          (log ++ record_of s.created_at s.imsi created ∷ [])
          ++ expired_records (now_at clock m.reads) (listed clock m) in
        Logged y.sessions.cdr log'
        × (phase s.imsi log' ≡ opened)
        × (is_some (L.find y.sessions.store s.imsi) ≡ false)
  stale_touch_unrecorded m s log a absent over =
      let now = now_at clock m.reads in
      let rec = record_of s.created_at s.imsi created in
      let gone = listed clock m in
      let none_listed : tally s.imsi gone ≡ one_if false =
        L.expired-tally m.store now s.imsi a.valid ∙ rw absent refl in
      let was_closed : phase s.imsi log ≡ closed = a.phases s.imsi ∙ rw absent refl in
      let now_open : phase s.imsi (log ++ rec ∷ []) ≡ opened = ground (
        arith,
        phase-snoc s.imsi log rec,
        note-created s.imsi s.created_at s.imsi (phase s.imsi log),
        text_eq_refl s.imsi,
        was_closed,
      ) in
      rw (stale_touch-new clock o m s (L.exists_lem m.store s.imsi ∙ rw absent refl)) (
        write_expired-Logged now gone _ (log ++ rec ∷ []) (write-Logged rec a.logged),
        phase_from-append s.imsi closed (log ++ rec ∷ []) (expired_records now gone)
            ∙ ap (λ ph. phase_from s.imsi ph (expired_records now gone)) now_open
            ∙ phase_from-expired_records s.imsi now gone true false none_listed (λ e. cc),
        ground (
          arith,
          L.find-cleanup (S.save_session m.store s).0 now s.imsi (L.save-IsValid m.store s a.valid),
          L.find-save m.store s s.imsi a.valid,
          text_eq_refl s.imsi,
        ),
      )
