-- ===== src/Manager/Accounts/Run.antt =====
-- Sequences of calls, each run to its end before the next, with rounds of the writer thread in between.
use mini_pgw.Prelude.{ℕ, ◌+◌, ◌≡◌, refl, false, List, [], ◌∷◌, none, arith, is_some, append-nil}
use mini_pgw.Text.{Text}
use mini_pgw.Cdr.{CdrRecord, CdrWriter, Round, waits, ends, writes, writer_round, created, expired}
use mini_pgw.Cdr.Drain.{Logged}
use mini_pgw.Store.{SessionStore, StoreLaws, one_if}
use mini_pgw.Manager.{Clock, Manager, init, touch_session, is_active, offload_rate, cleaner_pass}
use mini_pgw.Manager.Accounts.Phase.{phase_from, phase-balance, events}
use mini_pgw.Manager.Accounts.Steps.{
  Accounts, Extends, after, touch_session-Accounts, read-Accounts, writer-Accounts,
  offload_rate-Accounts, cleaner_pass-Accounts,
}

-- What the threads of the program ask of the manager, and a round of the writer thread.
pub data Call : Type 0 where
  touches : Text → Call
  checks : Text → Call
  offloads : ℕ → Call
  cleans : Call
  writes_out : Call

module _ {S : SessionStore} (clock : Clock) where
  unfoldable pub after_round : Manager S → Round → Manager S
  after_round m waits = m
  after_round m ends = m
  after_round m (writes w) = record m { cdr = w }

  unfoldable pub step : Manager S → Call → Manager S
  unfolding after_round
  step m (touches imsi) = (touch_session clock m imsi).0
  step m (checks imsi) = (is_active clock m imsi).0
  step m (offloads rate) = offload_rate clock rate m
  step m cleans = cleaner_pass clock m
  step m writes_out = after_round m (writer_round m.cdr)

  unfoldable pub run : Manager S → List Call → Manager S
  unfolding step
  run m [] = m
  run m (c ∷ calls) = run (step m c) calls

module _ {S : SessionStore} (L : StoreLaws S) (clock : Clock) where
  pub after_round-Accounts :
      (m : Manager S) (r : Round) {log : List CdrRecord}
      → Accounts L m log
      → writer_round m.cdr ≡ r
      → Accounts L (after_round clock m r) log
  unfolding after_round
  after_round-Accounts m waits a e = a
  after_round-Accounts m ends a e = a
  after_round-Accounts m (writes w) a e = writer-Accounts L clock m w a e

  step-Accounts :
      (m : Manager S) (c : Call) {log : List CdrRecord}
      → Accounts L m log
      → Extends L clock log (step clock m c)
  unfolding step
  step-Accounts m (touches imsi) a = touch_session-Accounts L clock m imsi a
  step-Accounts m (checks imsi) a =
      ([], rw append-nil (unfold is_active in read-Accounts L clock m _ a))
  step-Accounts m (offloads rate) a = offload_rate-Accounts L clock rate m a
  step-Accounts m cleans a = cleaner_pass-Accounts L clock m a
  step-Accounts m writes_out a = ([], rw append-nil (after_round-Accounts m _ a refl))

  -- From a state whose log accounts for its store, any sequence of touches, checks, offloads,
  -- cleaner passes and writer rounds, each run to its end before the next, leads to a state whose
  -- log extends the old one and accounts for the store: the store is valid, the log is what the
  -- file and the queue hold, and for every IMSI the records open and close its session in turn,
  -- open at the end exactly when the store has it.
  pub run-Accounts :
      (m : Manager S) (calls : List Call) {log : List CdrRecord}
      → Accounts L m log
      → Extends L clock log (run clock m calls)
  unfolding run
  run-Accounts m [] a = ([], rw append-nil a)
  run-Accounts m (c ∷ calls) {log} a =
      let (new, a') = step-Accounts m c a in
      after L clock log new (run-Accounts (step clock m c) calls a')

  -- A store with no session, at the start.
  pub init-Accounts :
      (timeout : ℕ) (store : S.State) {cdr : CdrWriter}
      → L.IsValid store
      → ((k : Text) → L.find store k ≡ none)
      → Logged cdr []
      → Accounts L (init clock timeout store cdr) []
  unfolding init phase_from
  init-Accounts timeout store v empty l = record {
    valid = v;
    logged = l;
    phases = λ k. rw (empty k);
  }

  -- If a log accounts for a manager's store, then for every IMSI its records of creation are as
  -- many as its records of expiry, and one more exactly if the store has the IMSI.
  pub Accounts-balance :
      {m : Manager S} {log : List CdrRecord} (k : Text)
      → Accounts L m log
      → events created k log ≡ events expired k log + one_if (is_some (L.find m.store k))
  Accounts-balance {m} {log} k a =
      omega (arith, phase-balance k log false (is_some (L.find m.store k)) (a.phases k))
