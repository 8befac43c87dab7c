-- ===== src/Manager/Accounts/Phase.antt =====
-- The records of one IMSI as a machine: "created" opens a closed session and "expired" closes an open
-- one; anything else out of turn is the phase `broken`.
use mini_pgw.Prelude.{
  ℕ, ◌+◌, ◌≡◌, refl, Bool, true, false, not, ◌&&◌, List, [], ◌∷◌, ◌++◌, arith, if◌then◌else◌,
  count_if, Bool-cases, inl, inr,
}
use mini_pgw.Text.{Text, text_eq}
use mini_pgw.Text.Order.{text_eq_iff}
use mini_pgw.Cdr.{CdrRecord, created, expired}
use mini_pgw.Store.{StoredSession, tally, one_if}

pub data Phase : Type 0 where
  closed : Phase
  opened : Phase
  broken : Phase

abbrev pub phase_of : Bool → Phase
phase_of true = opened
phase_of false = closed

abbrev pub on_created : Phase → Phase
on_created closed = opened
on_created opened = broken
on_created broken = broken

abbrev pub on_expired : Phase → Phase
on_expired opened = closed
on_expired closed = broken
on_expired broken = broken

unfoldable pub note : Text → Phase → CdrRecord → Phase
note k ph rec =
    if text_eq k rec.imsi
    then if text_eq rec.action created
      then on_created ph
      else if text_eq rec.action expired
      then on_expired ph
      else ph
    else ph

unfoldable pub phase_from : Text → Phase → List CdrRecord → Phase
phase_from k ph [] = ph
phase_from k ph (rec ∷ log) = phase_from k (note k ph rec) log

abbrev pub phase : Text → List CdrRecord → Phase
phase k log = phase_from k closed log

pub phase_from-append :
    (k : Text) (ph : Phase) (xs ys : List CdrRecord)
    → phase_from k ph (xs ++ ys) ≡ phase_from k (phase_from k ph xs) ys
unfolding phase_from
phase_from-append k ph [] ys = refl
phase_from-append k ph (x ∷ xs) ys = phase_from-append k (note k ph x) xs ys

abbrev pub record_of : Text → Text → Text → CdrRecord
record_of now k action = record { timestamp = now; imsi = k; action = action }

pub phase_from-cons :
    (k : Text) (ph : Phase) (rec : CdrRecord) (log : List CdrRecord)
    → phase_from k ph (rec ∷ log) ≡ phase_from k (note k ph rec) log
unfolding phase_from
phase_from-cons k ph rec log = refl

phase_from-broken : (k : Text) (log : List CdrRecord) → phase_from k broken log ≡ broken
unfolding phase_from note
phase_from-broken k [] = refl
phase_from-broken k (rec ∷ log) = ground (arith, phase_from-broken k log)

-- A record about one IMSI, seen by another.
pub note-created :
    (k now imsi : Text) (ph : Phase)
    → note k ph (record_of now imsi created) ≡ (if text_eq k imsi then on_created ph else ph)
unfolding note text_eq
note-created k now imsi ph = refl

pub note-expired :
    (k now imsi : Text) (ph : Phase)
    → note k ph (record_of now imsi expired) ≡ (if text_eq k imsi then on_expired ph else ph)
unfolding note text_eq
note-expired k now imsi ph = refl

abbrev pub expired_records : Text → List StoredSession → List CdrRecord
expired_records now [] = []
expired_records now (s ∷ sessions) = record_of now s.imsi expired ∷ expired_records now sessions

-- Records of expiry for a list that names an IMSI once (if `gone`) or never.
pub phase_from-expired_records :
    (k now : Text) (sessions : List StoredSession) (b gone : Bool)
    → tally k sessions ≡ one_if gone
    → (gone ≡ true → b ≡ true)
    → phase_from k (phase_of b) (expired_records now sessions) ≡ phase_of (b && not gone)
unfolding phase_from
phase_from-expired_records k now [] b true t h = absurd (omega arith)
phase_from-expired_records k now [] true false t h = refl
phase_from-expired_records k now [] false false t h = refl
phase_from-expired_records k now (s ∷ sessions) b gone t h = elim (Bool-cases (text_eq k s.imsi)) [
  | inl here ↦
      rw (phase_from-cons, note-expired, here)
        (ground (arith, h, phase_from-expired_records k now sessions false false))
  | inr other ↦
      rw (phase_from-cons, note-expired, other)
        (phase_from-expired_records k now sessions b gone (ground arith) h)
]

abbrev pub events : Text → Text → List CdrRecord → ℕ
events action k = count_if (λ rec. text_eq k rec.imsi && text_eq rec.action action)

not_both : (action : Text) → text_eq action created ≡ true → text_eq action expired ≡ false
unfolding text_eq
not_both action h = rw ((text_eq_iff action created).0 h)

-- A log that never breaks has one "created" for each "expired", and one more while it is open.
pub phase-balance :
    (k : Text) (log : List CdrRecord) (a b : Bool)
    → phase_from k (phase_of a) log ≡ phase_of b
    → events created k log + one_if a ≡ events expired k log + one_if b
unfolding phase_from note
phase-balance k [] a b e = ground arith
phase-balance k (rec ∷ log) a b e = ground (
  arith,
  not_both rec.action,
  phase_from-broken k log,
  phase-balance k log true b,
  phase-balance k log false b,
)
