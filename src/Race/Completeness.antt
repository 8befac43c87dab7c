-- ===== src/Race/Completeness.antt =====
-- The steps of the threads, a touch with its readings of the clock as one, against the call records.
use mini_pgw.Prelude.{
  ◌≡◌, refl, true, false, List, [], ◌∷◌, ◌++◌, arith, Bool-cases, inl, inr, append-nil,
  append_assoc, subst,
}
use mini_pgw.Text.{Text}
use mini_pgw.Text.Order.{text_eq_iff}
use mini_pgw.Cdr.{CdrRecord, created, expired}
use mini_pgw.Cdr.Drain.{write-Logged}
use mini_pgw.Store.{SessionStore, StoreLaws}
use mini_pgw.Manager.{Clock, now_at, touched, touch_session, is_active, expire_session_locked}
use mini_pgw.Manager.Activity.{IsSteady}
use mini_pgw.Manager.Accounts.Phase.{record_of}
use mini_pgw.Race.{
  Cleaner, waiting, reporting, Offloader, between, chosen, System, Move, touches, checks, cleans,
  offloads, clean_step, offload_step, step, run,
}
use mini_pgw.Race.Events.{
  created-snoc_created, expired-snoc_created, created-snoc_expired, expired-snoc_expired,
}
use mini_pgw.Race.Covered.{Covered, Extends, later, touched-spared}

module _ {S : SessionStore} (L : StoreLaws S) (clock : Clock) where
  touch_old :
      (y : System S) (imsi : Text) {log : List CdrRecord}
      → IsSteady clock
      → Covered L clock y log
      → S.session_exists y.sessions.store imsi ≡ true
      → Covered L clock (record y { sessions = (touch_session clock y.sessions imsi).0 }) log
  unfolding touch_session
  touch_old y imsi {log} steady c old = rw old (record {
    valid = L.save-IsValid y.sessions.store _ c.valid;
    logged = c.logged;
    lasting = c.lasting;
    behind = later L clock y.cleaner c.behind (omega arith);
    covered = λ k. ground (
      arith,
      c.covered k,
      L.find-save y.sessions.store (touched clock y.sessions imsi) k c.valid,
      touched-spared L clock y.sessions imsi y.cleaner steady c.lasting c.behind,
    );
  })

  touch_new :
      (y : System S) (imsi : Text) {log : List CdrRecord}
      → IsSteady clock
      → Covered L clock y log
      → S.session_exists y.sessions.store imsi ≡ false
      → Covered L clock
          (record y { sessions = (touch_session clock y.sessions imsi).0 })
          (log ++ record_of (now_at clock y.sessions.reads) imsi created ∷ [])
  unfolding touch_session
  touch_new y imsi {log} steady c new = rw new (record {
    valid = L.save-IsValid y.sessions.store _ c.valid;
    logged = write-Logged _ c.logged;
    lasting = c.lasting;
    behind = later L clock y.cleaner c.behind (omega arith);
    covered = λ k. ground (
      arith,
      c.covered k,
      created-snoc_created k (now_at clock y.sessions.reads) imsi log,
      expired-snoc_created k (now_at clock y.sessions.reads) imsi log,
      L.find-save y.sessions.store (touched clock y.sessions imsi) k c.valid,
      L.exists_lem y.sessions.store imsi,
      text_eq_iff imsi k,
      text_eq_iff k imsi,
      touched-spared L clock y.sessions imsi y.cleaner steady c.lasting c.behind,
    );
  })

  pub clean-Covered :
      (y : System S) (c : Cleaner) {log : List CdrRecord}
      → y.cleaner ≡ c
      → Covered L clock y log
      → Extends L clock log (clean_step clock y c)
  unfolding clean_step
  clean-Covered y waiting {log} e v = (
    [],
    rw append-nil (record {
      valid = v.valid;
      logged = v.logged;
      lasting = v.lasting;
      behind = omega arith;
      covered = λ k. ground (
        arith,
        v.covered k,
        L.expired-tally y.sessions.store (now_at clock y.sessions.reads) k v.valid,
      );
    }),
  )
  clean-Covered y (reporting i (s ∷ sessions)) {log} e v = (
    record_of (now_at clock i) s.imsi expired ∷ [],
    record {
      valid = v.valid;
      logged = write-Logged _ v.logged;
      lasting = v.lasting;
      behind = ground (arith, v.behind);
      covered = λ k. ground (
        arith,
        v.covered k,
        created-snoc_expired k (now_at clock i) s.imsi log,
        expired-snoc_expired k (now_at clock i) s.imsi log,
      );
    },
  )
  clean-Covered y (reporting i []) {log} e v = (
    [],
    rw append-nil (record {
      valid = L.cleanup-IsValid y.sessions.store (now_at clock i) v.valid;
      logged = v.logged;
      lasting = v.lasting;
      behind = tt;
      covered = λ k.
          ground (arith, v.covered k, L.find-cleanup y.sessions.store (now_at clock i) k v.valid);
    }),
  )

  pub offload-Covered :
      (y : System S) (o : Offloader) {log : List CdrRecord}
      → Covered L clock y log
      → Extends L clock log (offload_step clock y o)
  unfolding offload_step expire_session_locked
  offload-Covered y between {log} v = (
    [],
    rw append-nil (record {
      valid = v.valid;
      logged = v.logged;
      lasting = v.lasting;
      behind = later L clock y.cleaner v.behind (omega arith);
      covered = v.covered;
    }),
  )
  offload-Covered y (chosen imsi) {log} v = (
    record_of (now_at clock y.sessions.reads) imsi expired ∷ [],
    record {
      valid = L.delete-IsValid y.sessions.store imsi v.valid;
      logged = write-Logged _ v.logged;
      lasting = v.lasting;
      behind = later L clock y.cleaner v.behind (omega arith);
      covered = λ k. ground (
        arith,
        v.covered k,
        created-snoc_expired k (now_at clock y.sessions.reads) imsi log,
        expired-snoc_expired k (now_at clock y.sessions.reads) imsi log,
        L.find-delete y.sessions.store imsi k v.valid,
        text_eq_iff imsi k,
        text_eq_iff k imsi,
      );
    },
  )

  pub step-Covered :
      (y : System S) (move : Move) {log : List CdrRecord}
      → IsSteady clock
      → Covered L clock y log
      → Extends L clock log (step clock y move)
  unfolding step
  step-Covered y (touches imsi) {log} steady v =
      elim (Bool-cases (S.session_exists y.sessions.store imsi)) [
        | inl old ↦ ([], rw append-nil (touch_old y imsi steady v old))
        | inr new ↦ (_, touch_new y imsi steady v new)
      ]
  step-Covered y (checks imsi) {log} steady v =
      unfold is_active in
      (
        [],
        rw append-nil (record {
          valid = v.valid;
          logged = v.logged;
          lasting = v.lasting;
          behind = later L clock y.cleaner v.behind (omega arith);
          covered = v.covered;
        }),
      )
  step-Covered y cleans steady v = clean-Covered y y.cleaner refl v
  step-Covered y offloads steady v = offload-Covered y y.offloader v

  -- On a steady clock, under every interleaving of touches and checks, each in one step with its
  -- readings of the clock, and of cleaner steps and offloading steps, from a covered state, the
  -- state stays covered by a log that extends the old one: for every IMSI the records of creation
  -- are at most those of expiry, plus those that the cleaner is about to write, plus one if the
  -- store has a session of it that the cleaner will not remove. Being covered includes a positive
  -- session timeout.
  pub run-Covered :
      (y : System S) (moves : List Move) {log : List CdrRecord}
      → IsSteady clock
      → Covered L clock y log
      → Extends L clock log (run clock y moves)
  unfolding run
  run-Covered y [] steady v = ([], rw append-nil v)
  run-Covered y (move ∷ moves) {log} steady v =
      let (new, v') = step-Covered y move steady v in
      let (more, v'') = run-Covered (step clock y move) moves steady v' in
      (new ++ more, subst (Covered L clock _) (append_assoc log new more) v'')
