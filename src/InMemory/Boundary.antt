-- ===== src/InMemory/Boundary.antt =====
-- The moment of expiry. The interface in include/pgw/session_store.hpp calls a session expired when
-- `expires_at <= now`; the in-memory store tests `expires_at < now`.
use mini_pgw.Prelude.{◌+◌, ◌≡◌, ◌∙◌, true, false, some, arith}
use mini_pgw.Text.{Text, text_eq, text_lt}
use mini_pgw.Text.Order.{text_eq_iff, text_lt_irrefl, text_lt_asymm, text_lt_connected}
use mini_pgw.Store.{StoredSession, tally, one_if}
use mini_pgw.UnorderedMap.{Map, find}
use mini_pgw.InMemory.{
  load_sessions, session_exists, cleanup_expired_sessions, load_expired_sessions, is_before,
}
use mini_pgw.InMemory.Laws.{IsValid, values_if-tally, find-cleanup}

-- Two texts are in order one way, in order the other way, or the same.
trichotomy : (a b : Text) → one_if (text_lt a b) + one_if (text_lt b a) + one_if (text_eq b a) ≡ 1
trichotomy a b =
    ground (arith, text_eq_iff b a, text_lt_irrefl a, text_lt_asymm a b, text_lt_connected a b)

module _ (m : Map StoredSession) (now : Text) (v : IsValid m) where
  -- For a valid in-memory store and a session that it holds, the IMSI stands exactly once in all:
  -- in the list of live sessions, in the list of expired sessions, or as a session that expires at
  -- this very moment.
  pub load-partition :
      (k : Text) (s : StoredSession)
      → find k m ≡ some s
      → tally k (load_sessions m now)
          + tally k (load_expired_sessions m now)
          + one_if (text_eq s.expires_at now)
        ≡ 1
  unfolding load_sessions load_expired_sessions is_before
  load-partition k s e = ground (
    arith,
    trichotomy now s.expires_at,
    values_if-tally (λ t. text_lt now t.expires_at) k m v,
    values_if-tally (λ t. text_lt t.expires_at now) k m v,
  )

  -- In a valid in-memory store, a session whose time of expiry is the present moment is listed
  -- neither as live nor as expired, is left by the cleanup, and still exists.
  pub boundary_limbo :
      (k : Text) (s : StoredSession)
      → find k m ≡ some s
      → s.expires_at ≡ now
      → (tally k (load_sessions m now) ≡ 0)
        × (tally k (load_expired_sessions m now) ≡ 0)
        × (find k (cleanup_expired_sessions m now) ≡ some s)
        × (session_exists m k ≡ true)
  unfolding session_exists load_sessions load_expired_sessions is_before
  boundary_limbo k s e at =
      let same : text_lt now now ≡ false = text_lt_irrefl now in
      (
        values_if-tally (λ t. text_lt now t.expires_at) k m v ∙ ground arith,
        values_if-tally (λ t. text_lt t.expires_at now) k m v ∙ ground arith,
        find-cleanup m now k v ∙ ground arith,
        ground arith,
      )
