-- ===== src/Store.antt =====
-- include/pgw/session_store.hpp: a stored session, and the interface `ISessionStore` by which the
-- session manager sees its store. `StoreLaws` is what an implementation promises: the map from IMSI to
-- session that its operations read and change.
use mini_pgw.Prelude.{
  ℕ, suc, ◌<◌, ◌≤◌, ◌≡◌, Bool, true, false, not, List, Option, none, some, if◌then◌else◌, is_some,
  count_if, All,
}
use mini_pgw.Text.{Text, text_eq, text_lt}

pub record StoredSession : Type 0 where
  pub imsi : Text
  pub created_at : Text
  pub expires_at : Text

-- `virtual` methods; one that changes the store returns it. A load changes nothing.
pub record SessionStore : Type 1 where
  pub State : Type 0
  pub load_sessions : State → Text → List StoredSession
  pub save_session : State → StoredSession → State × Bool
  pub delete_session : State → Text → State × Bool
  pub session_exists : State → Text → Bool
  pub cleanup_expired_sessions : State → Text → State
  pub load_expired_sessions : State → Text → List StoredSession

-- How many sessions of a list belong to an IMSI.
abbrev pub tally : Text → List StoredSession → ℕ
tally k = count_if (λ s. text_eq k s.imsi)

-- A session that passes a test, where there is one.
abbrev pub passes : (StoredSession → Bool) → Option StoredSession → Bool
passes p none = false
passes p (some s) = p s

abbrev pub restrict : (StoredSession → Bool) → Option StoredSession → Option StoredSession
restrict p none = none
restrict p (some s) = if p s then some s else none

abbrev pub one_if : Bool → ℕ
one_if true = 1
one_if false = 0

-- `expires_at > now`
abbrev pub is_live : Text → StoredSession → Bool
is_live now s = text_lt now s.expires_at

pub record StoreLaws (S : SessionStore) : Type 1 where
  pub IsValid : S.State → Type 0
  pub find : S.State → Text → Option StoredSession
  pub size : S.State → ℕ
  -- Which sessions the store counts as expired at a time: never a live one.
  pub overdue : Text → StoredSession → Bool
  pub overdue-live : (now : Text) (s : StoredSession) → overdue now s ≡ true → is_live now s ≡ false
  pub save-IsValid :
      (st : S.State) (s : StoredSession) → IsValid st → IsValid (S.save_session st s).0
  pub delete-IsValid : (st : S.State) (k : Text) → IsValid st → IsValid (S.delete_session st k).0
  pub cleanup-IsValid :
      (st : S.State) (now : Text) → IsValid st → IsValid (S.cleanup_expired_sessions st now)
  pub find-imsi :
      (st : S.State) (k : Text) (s : StoredSession) → IsValid st → find st k ≡ some s → s.imsi ≡ k
  pub exists_lem : (st : S.State) (k : Text) → S.session_exists st k ≡ is_some (find st k)
  pub find-save :
      (st : S.State) (s : StoredSession) (k : Text)
      → IsValid st
      → find (S.save_session st s).0 k ≡ (if text_eq s.imsi k then some s else find st k)
  pub find-delete :
      (st : S.State) (i k : Text)
      → IsValid st
      → find (S.delete_session st i).0 k ≡ (if text_eq i k then none else find st k)
  pub find-cleanup :
      (st : S.State) (now k : Text)
      → IsValid st
      → find (S.cleanup_expired_sessions st now) k ≡ restrict (λ s. not (overdue now s)) (find st k)
  pub load-found :
      (st : S.State) (now : Text)
      → IsValid st
      → All (λ s. find st s.imsi ≡ some s) (S.load_sessions st now)
  pub load-tally :
      (st : S.State) (now k : Text)
      → IsValid st
      → tally k (S.load_sessions st now) ≡ one_if (passes (is_live now) (find st k))
  pub expired-tally :
      (st : S.State) (now k : Text)
      → IsValid st
      → tally k (S.load_expired_sessions st now) ≡ one_if (passes (overdue now) (find st k))
  pub size-delete :
      (st : S.State) (k : Text)
      → IsValid st
      → is_some (find st k) ≡ true
      → size (S.delete_session st k).0 < size st
  pub size-save :
      (st : S.State) (s : StoredSession) → IsValid st → size (S.save_session st s).0 ≤ suc (size st)
  pub size-cleanup :
      (st : S.State) (now : Text) → IsValid st → size (S.cleanup_expired_sessions st now) ≤ size st
