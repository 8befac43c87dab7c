-- ===== src/Race/Covered.antt =====
-- What holds between the log and the store while the threads interleave.
use mini_pgw.Prelude.{
  ℕ, zero, suc, ◌+◌, ◌≤◌, ◌<◌, ◌≡◌, refl, Bool, true, not, List, ◌++◌, arith, Bool-cases, inl, inr,
  ltb,
}
use mini_pgw.Text.{Text}
use mini_pgw.Cdr.{CdrRecord, created, expired}
use mini_pgw.Cdr.Drain.{Logged}
use mini_pgw.Store.{StoredSession, SessionStore, StoreLaws, tally, one_if, passes}
use mini_pgw.Manager.{Clock, Manager, now_at, touched}
use mini_pgw.Manager.Activity.{IsSteady}
use mini_pgw.Manager.Accounts.Phase.{events}
use mini_pgw.Race.{Cleaner, waiting, reporting, System}

-- Records that the cleaner is still to write about an IMSI.
abbrev pub pending : Text → Cleaner → ℕ
pending k waiting = 0
pending k (reporting i sessions) = tally k sessions

seconds_mono :
    (clock : Clock) (i j : ℕ) → IsSteady clock → i ≤ j → clock.seconds i ≤ clock.seconds j
seconds_mono clock i zero steady h = let e : i ≡ 0 = omega arith in rw e (omega arith)
seconds_mono clock i (suc j) steady h = elim (Bool-cases (ltb j i)) [
  | inl last ↦ let e : i ≡ suc j = ground arith in rw e (omega arith)
  | inr before ↦
      let le : i ≤ j = ground arith in
      omega (arith, seconds_mono clock i j steady le, steady.forward j)
]

module _ {S : SessionStore} (L : StoreLaws S) (clock : Clock) where
  -- Sessions that the cleaner will not remove when it is done.
  abbrev pub spared : Cleaner → StoredSession → Bool
  spared waiting s = true
  spared (reporting i sessions) s = not (L.overdue (now_at clock i) s)

  abbrev pub Behind : Cleaner → ℕ → Type 0
  Behind waiting n = Unit {0}
  Behind (reporting i sessions) n = i < n

  pub later : (c : Cleaner) {n m : ℕ} → Behind c n → n ≤ m → Behind c m
  later waiting b h = tt
  later (reporting i sessions) b h = omega arith

  -- Every creation on record is matched by an expiry on record, by one that the cleaner is about to
  -- record, or by a session that stays.
  pub record Covered (y : System S) (log : List CdrRecord) : Type 0 where
    pub valid : L.IsValid y.sessions.store
    pub logged : Logged y.sessions.cdr log
    pub lasting : 0 < y.sessions.timeout
    pub behind : Behind y.cleaner y.sessions.reads
    pub covered :
        (k : Text)
        → events created k log
          ≤ events expired k log
            + pending k y.cleaner
            + one_if (passes (spared y.cleaner) (L.find y.sessions.store k))

  -- A session touched now outlives a pass of the cleaner that began before.
  pub touched-spared :
      (m : Manager S) (imsi : Text) (c : Cleaner)
      → IsSteady clock
      → 0 < m.timeout
      → Behind c m.reads
      → spared c (touched clock m imsi) ≡ true
  touched-spared m imsi waiting steady lasting b = refl
  touched-spared m imsi (reporting i sessions) steady lasting b = ground (
    arith,
    seconds_mono clock i (suc m.reads) steady (omega arith),
    steady.ordered (clock.seconds i) (clock.seconds (suc m.reads) + m.timeout),
    L.overdue-live (now_at clock i) (touched clock m imsi),
  )

  abbrev pub Extends : List CdrRecord → System S → Type 0
  Extends log y = (new : List CdrRecord) × Covered y (log ++ new)
