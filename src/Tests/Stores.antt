-- ===== src/Tests/Stores.antt =====
-- The call record writer and the in-memory store.
use mini_pgw.Prelude.{◌+◌, ◌≡◌, refl, true, [], ◌∷◌, ◌++◌, some, arith}
use mini_pgw.Text.{bytes, text_eq}
use mini_pgw.Cdr.{CdrRecord, CdrWriter, line, writer_loop, created}
use mini_pgw.Cdr.Format.{contents-injective}
use mini_pgw.Cdr.Drain.{Logged, contents, writer_loop-drains}
use mini_pgw.Store.{tally, one_if}
use mini_pgw.UnorderedMap.{find}
use mini_pgw.InMemory.{
  load_sessions, load_expired_sessions, cleanup_expired_sessions, session_exists,
}
use mini_pgw.InMemory.Boundary.{load-partition, boundary_limbo}
use mini_pgw.Tests.Fixtures.{cdr, alice, session, one_session, one_session-IsValid}

abbrev row : CdrRecord
row = record {
  timestamp = bytes "2025-07-27 12:00:00";
  imsi = bytes "1234567890";
  action = created;
}

-- The line that the repository's own test expects.
line-row : line row ≡ bytes "2025-07-27 12:00:00,1234567890,created" ++ 10 ∷ []
unfolding line
line-row = refl

abbrev queued : CdrWriter
queued = record cdr { queue = row ∷ row ∷ [] }

queued-Logged : Logged queued (row ∷ row ∷ [])
unfolding contents
queued-Logged = record { done = []; split = refl; kept = refl }

abbrev popped : CdrWriter
popped = record cdr { queue = row ∷ []; file = line row }

writer_loop-drains_example :
    writer_loop 3 queued ≡ some (record queued { queue = []; file = contents (row ∷ row ∷ []) })
writer_loop-drains_example = writer_loop-drains 3 queued refl (omega arith)

contents-injective_example : row ∷ [] ≡ row ∷ []
contents-injective_example =
    contents-injective (row ∷ []) (row ∷ []) (omega arith) (omega arith) refl

load-partition_example :
    tally alice (load_sessions one_session (20 ∷ []))
      + tally alice (load_expired_sessions one_session (20 ∷ []))
      + one_if (text_eq session.expires_at (20 ∷ []))
    ≡ 1
unfolding find text_eq
load-partition_example = load-partition one_session (20 ∷ []) one_session-IsValid alice session refl

boundary_limbo_example :
    (tally alice (load_sessions one_session (7 ∷ [])) ≡ 0)
    × (tally alice (load_expired_sessions one_session (7 ∷ [])) ≡ 0)
    × (find alice (cleanup_expired_sessions one_session (7 ∷ [])) ≡ some session)
    × (session_exists one_session alice ≡ true)
unfolding find text_eq
boundary_limbo_example =
    boundary_limbo one_session (7 ∷ []) one_session-IsValid alice session refl refl
