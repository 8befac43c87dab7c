-- ===== src/InMemory/Laws.antt =====
-- The in-memory store and the promises of `StoreLaws`.
use mathlib.Core.HLevel.{hedberg}
use native.Mathlib.Decide.{ℕ_discrete}
use mini_pgw.Prelude.{◌≡◌, refl, Bool, not, [], ◌∷◌, none, some, arith, if◌then◌else◌, length, All}
use mini_pgw.Text.{Text, text_eq, text_lt}
use mini_pgw.Text.Order.{text_eq_iff, text_lt_asymm}
use mini_pgw.Store.{StoredSession, StoreLaws, tally, passes, restrict, one_if}
use mini_pgw.UnorderedMap.{Map, Layout, find, values_if}
use mini_pgw.UnorderedMap.Laws.{
  Distinct, find-erase, erase-Distinct, length-erase, find-erase_if, erase_if-Distinct,
}
use mini_pgw.UnorderedMap.Size.{length-insert_or_assign, length-erase_if}
use mini_pgw.UnorderedMap.Order.{insert_or_assign-Distinct, find-insert_or_assign}
use mini_pgw.InMemory.{
  is_before, load_sessions, save_session, delete_session, session_exists, cleanup_expired_sessions,
  load_expired_sessions, in_memory,
}

pub StoredSession-set : IsSet StoredSession
StoredSession-set = hedberg (hlevel ℕ_discrete)

-- Every session stands under its own IMSI.
abbrev pub Keyed : Map StoredSession → Type 0
Keyed m = (k : Text) (s : StoredSession) → find k m ≡ some s → s.imsi ≡ k

pub record IsValid (m : Map StoredSession) : Type 0 where
  pub distinct : Distinct m
  pub keyed : Keyed m

pub Keyed-tail :
    (j : Text) (v : StoredSession) (m : Map StoredSession) → IsValid ((j, v) ∷ m) → IsValid m
unfolding find
Keyed-tail j v m h = record {
  distinct = h.distinct.1;
  keyed = λ k s e. ground (arith, h.keyed k s, h.distinct.0, text_eq_iff j k);
}

-- The entries that pass a test, counted by IMSI.
pub values_if-tally :
    (p : StoredSession → Bool) (k : Text) (m : Map StoredSession)
    → IsValid m
    → tally k (values_if p m) ≡ one_if (passes p (find k m))
unfolding find values_if
values_if-tally p k [] h = refl
values_if-tally p k ((j, v) ∷ m) h = ground (
  arith,
  values_if-tally p k m (Keyed-tail j v m h),
  h.keyed j v,
  h.distinct.0,
  text_eq_iff k v.imsi,
  text_eq_iff j k,
  text_eq_iff j j,
)

-- The values of the loop, each of which the map holds.
pub values_if-found :
    (p : StoredSession → Bool) (m : Map StoredSession)
    → IsValid m
    → (n : Map StoredSession)
    → ((k : Text) (s : StoredSession) → find k m ≡ some s → find k n ≡ some s)
    → All (λ s. find s.imsi n ≡ some s) (values_if p m)
unfolding find values_if
values_if-found p [] h n sub = tt
values_if-found p ((j, v) ∷ m) h n sub =
    let rest =
      values_if-found p m (Keyed-tail j v m h) n
        (λ k s e. sub k s (ground (arith, h.distinct.0, text_eq_iff j k))) in
    let here : v.imsi ≡ j = h.keyed j v (ground (arith, text_eq_iff j j)) in
    let held : find v.imsi n ≡ some v = sub v.imsi v (ground (arith, here, text_eq_iff j v.imsi)) in
    ground arith

pub delete_session-IsValid :
    (m : Map StoredSession) (k : Text) → IsValid m → IsValid (delete_session m k).0
unfolding delete_session
delete_session-IsValid m i h = record {
  distinct = erase-Distinct i m h.distinct;
  keyed = λ k t e. ground (arith, find-erase i k m h.distinct, h.keyed k t);
}

pub cleanup-IsValid :
    (m : Map StoredSession) (now : Text) → IsValid m → IsValid (cleanup_expired_sessions m now)
unfolding cleanup_expired_sessions
cleanup-IsValid m now h = record {
  distinct = erase_if-Distinct (λ s. is_before s.expires_at now) m h.distinct;
  keyed = λ k t e.
      ground (arith, find-erase_if (λ s. is_before s.expires_at now) k m h.distinct, h.keyed k t);
}

-- For a valid store, a cleanup takes away the sessions whose time of expiry is before now, and
-- keeps all others.
pub find-cleanup :
    (m : Map StoredSession) (now k : Text)
    → IsValid m
    → find k (cleanup_expired_sessions m now)
      ≡ restrict (λ s. not (text_lt s.expires_at now)) (find k m)
unfolding cleanup_expired_sessions is_before
find-cleanup m now k h =
    ground (arith, find-erase_if (λ s. text_lt s.expires_at now) k m h.distinct)

-- For a valid store, a delete takes away the session of its IMSI, and leaves all others.
pub find-delete_session :
    (m : Map StoredSession) (i k : Text)
    → IsValid m
    → find k (delete_session m i).0 ≡ (if text_eq i k then none else find k m)
unfolding delete_session
find-delete_session m i k h = find-erase i k m h.distinct

module _ (layout : Layout StoredSession) where
  -- For any layout of the map, a save keeps a store valid: its keys are distinct, and every
  -- session stands under its own IMSI.
  pub save_session-IsValid :
      (m : Map StoredSession) (s : StoredSession) → IsValid m → IsValid (save_session layout m s).0
  unfolding save_session
  save_session-IsValid m s h = record {
    distinct = insert_or_assign-Distinct StoredSession-set layout s.imsi s m h.distinct;
    keyed = λ k t e. ground (
      arith,
      find-insert_or_assign StoredSession-set layout s.imsi s m h.distinct k,
      text_eq_iff s.imsi k,
      h.keyed k t,
    );
  }

  -- For any layout of the map and a valid store, a save makes the store hold the session under its
  -- IMSI and changes what it holds under no other.
  pub find-save_session :
      (m : Map StoredSession) (s : StoredSession) (k : Text)
      → IsValid m
      → find k (save_session layout m s).0 ≡ (if text_eq s.imsi k then some s else find k m)
  unfolding save_session
  find-save_session m s k h = find-insert_or_assign StoredSession-set layout s.imsi s m h.distinct k

  -- The interface, filled by the in-memory store. It counts a session as expired only when its time
  -- is strictly before now.
  unfoldable pub in_memory_laws : StoreLaws (in_memory layout)
  unfolding load_sessions save_session delete_session session_exists cleanup_expired_sessions
      load_expired_sessions is_before
  in_memory_laws = record {
    IsValid = IsValid;
    find = λ m k. find k m;
    size = length;
    overdue = λ now s. text_lt s.expires_at now;
    overdue-live = λ now s h. text_lt_asymm s.expires_at now h;
    save-IsValid = save_session-IsValid;
    delete-IsValid = delete_session-IsValid;
    cleanup-IsValid = cleanup-IsValid;
    find-imsi = λ m k s h e. h.keyed k s e;
    exists_lem = λ m k. refl;
    find-save = find-save_session;
    find-delete = find-delete_session;
    find-cleanup = find-cleanup;
    load-found = λ m now h. values_if-found (λ s. text_lt now s.expires_at) m h m (λ k s e. e);
    load-tally = λ m now k h. values_if-tally (λ s. text_lt now s.expires_at) k m h;
    expired-tally = λ m now k h. values_if-tally (λ s. text_lt s.expires_at now) k m h;
    size-delete = λ m k h e. length-erase k m e;
    size-save = λ m s h. length-insert_or_assign layout s.imsi s m;
    size-cleanup = λ m now h. length-erase_if (λ s. text_lt s.expires_at now) m;
  }
