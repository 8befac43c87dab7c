-- ===== src/Race/Events.antt =====
-- The count of one more record.
use mini_pgw.Prelude.{◌+◌, ◌≡◌, ◌∙◌, List, [], ◌∷◌, ◌++◌, arith, if◌then◌else◌, count_if-append}
use mini_pgw.Text.{Text, text_eq}
use mini_pgw.Cdr.{CdrRecord, created, expired}
use mini_pgw.Manager.Accounts.Phase.{events, record_of}

module _ (k now imsi : Text) (log : List CdrRecord) where
  pub created-snoc_created :
      events created k (log ++ record_of now imsi created ∷ [])
      ≡ events created k log + (if text_eq k imsi then 1 else 0)
  unfolding text_eq
  created-snoc_created = count_if-append _ log _ ∙ ground arith

  pub expired-snoc_created :
      events expired k (log ++ record_of now imsi created ∷ []) ≡ events expired k log
  unfolding text_eq
  expired-snoc_created = count_if-append _ log _ ∙ ground arith

  pub created-snoc_expired :
      events created k (log ++ record_of now imsi expired ∷ []) ≡ events created k log
  unfolding text_eq
  created-snoc_expired = count_if-append _ log _ ∙ ground arith

  pub expired-snoc_expired :
      events expired k (log ++ record_of now imsi expired ∷ [])
      ≡ events expired k log + (if text_eq k imsi then 1 else 0)
  unfolding text_eq
  expired-snoc_expired = count_if-append _ log _ ∙ ground arith
