-- ===== src/Manager/Books.antt =====
-- What the process needs of an account of the call records: that each method of the manager keeps it, and
-- only appends to the log.
use mini_pgw.Prelude.{
  ℕ, zero, suc, ◌≡◌, sym, subst, ◌∙◌, List, [], ◌++◌, some, inl, inr, append-nil, append_assoc,
  List-cases,
}
use mathlib.Core.Option.{some-injective}
use mini_pgw.Bcd.{decode}
use mini_pgw.Cdr.{CdrRecord, CdrWriter, writes, writer_round}
use mini_pgw.Store.{SessionStore}
use mini_pgw.Manager.{
  Clock, Manager, now_at, touch_session, offload_rate, graceful_stop, cleaner_pass,
}
use mini_pgw.Manager.Rounds.{graceful_stop_done, graceful_stop_more}

-- The account after some more records.
abbrev pub Longer :
    {S : SessionStore} → (Manager S → List CdrRecord → Type 0) → List CdrRecord → Manager S → Type 0
Longer Keeps log m = (new : List CdrRecord) × Keeps m (log ++ new)

pub record Books (S : SessionStore) (clock : Clock) : Type 1 where
  pub Keeps : Manager S → List CdrRecord → Type 0
  pub touch :
      (m : Manager S) (packet : List ℕ) {log : List CdrRecord}
      → Keeps m log
      → Longer Keeps log (touch_session clock m (decode packet)).0
  pub read :
      (m : Manager S) (i : ℕ) {log : List CdrRecord}
      → Keeps m log
      → Keeps (record m { reads = i }) log
  pub offload :
      (left : ℕ) (m : Manager S) {log : List CdrRecord}
      → Keeps m log
      → Longer Keeps log (offload_rate clock left m)
  pub clean :
      (m : Manager S) {log : List CdrRecord} → Keeps m log → Longer Keeps log (cleaner_pass clock m)
  pub pass_on :
      (m : Manager S) (w : CdrWriter) {log : List CdrRecord}
      → Keeps m log
      → writer_round m.cdr ≡ writes w
      → Keeps (record m { cdr = w }) log

module _ {S : SessionStore} (clock : Clock) (books : Books S clock) where
  open books use {Keeps}

  pub after :
      {m : Manager S} (log new : List CdrRecord) → Longer Keeps (log ++ new) m → Longer Keeps log m
  after {m} log new (more, a) = (new ++ more, subst (Keeps m) (append_assoc log new more) a)

  pub graceful_stop-Keeps :
      (fuel rate : ℕ) (m m' : Manager S) {log : List CdrRecord}
      → graceful_stop clock fuel rate m ≡ some m'
      → Keeps m log
      → Longer Keeps log m'
  graceful_stop-Keeps zero rate m m' h a = unfold graceful_stop in cc
  graceful_stop-Keeps (suc fuel) rate m m' {log} h a =
      elim (List-cases (S.load_sessions m.store (now_at clock m.reads))) [
        | inl e ↦
            subst (Longer Keeps log)
              (some-injective _ _ (sym (graceful_stop_done clock fuel rate m e) ∙ h))
              ([], rw append-nil (books.read m _ a))
        | inr (s, rest, e) ↦
            let (new, a') = books.offload rate _ (books.read m (suc m.reads) a) in
            after log new (
              graceful_stop-Keeps fuel rate _ m'
                (sym (graceful_stop_more clock fuel rate m s rest e) ∙ h) a')
      ]
