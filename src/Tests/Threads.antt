-- ===== src/Tests/Threads.antt =====
-- The threads over one manager.
use mini_pgw.Prelude.{◌≡◌, refl, true, false, List, [], ◌∷◌, ◌++◌, arith, is_some}
use mini_pgw.Text.{text_eq, text_lt}
use mini_pgw.Cdr.{created}
use mini_pgw.Store.{StoredSession}
use mini_pgw.Cdr.Drain.{Logged}
use mini_pgw.UnorderedMap.{find}
use mini_pgw.InMemory.Laws.{in_memory_laws}
use mini_pgw.Manager.{now_at}
use mini_pgw.Manager.Accounts.Phase.{closed, opened, phase, expired_records, record_of}
use mini_pgw.Race.{System, Move, waiting, between, touches, cleans, offloads, run}
use mini_pgw.Race.Covered.{Covered, Extends}
use mini_pgw.Race.Completeness.{run-Covered}
use mini_pgw.Race.Stale.{stale_touch, stale_touch_unrecorded}
use mini_pgw.Race.Spurious.{listed, late_touch, late_touch_spurious}
use mini_pgw.Tests.Fixtures.{
  ticking, ticking-IsSteady, store, laws, alice, bob, fresh, fresh-Accounts, overdue,
  overdue-Accounts, opening,
}

abbrev quiet : System store
quiet = record { sessions = fresh; cleaner = waiting; offloader = between }

quiet-Covered : Covered laws ticking quiet []
unfolding in_memory_laws find
quiet-Covered = record {
  valid = fresh-Accounts.valid;
  logged = fresh-Accounts.logged;
  lasting = omega arith;
  behind = tt;
  covered = λ k. omega arith;
}

abbrev moves : List Move
moves = touches alice ∷ cleans ∷ offloads ∷ touches bob ∷ offloads ∷ cleans ∷ touches alice ∷ []

run-Covered_example : Extends laws ticking [] (run ticking quiet moves)
run-Covered_example = run-Covered laws ticking quiet moves ticking-IsSteady quiet-Covered

late_touch_spurious_example :
    let y =
      run ticking
        (record { sessions = overdue; cleaner = waiting; offloader = between })
        (late_touch ticking between overdue alice) in
    let log' = opening ++ expired_records (now_at ticking 20) (listed ticking overdue) in
    Logged y.sessions.cdr log'
    × (phase alice log' ≡ closed)
    × (is_some (laws.find y.sessions.store alice) ≡ true)
unfolding in_memory_laws find text_eq text_lt
late_touch_spurious_example =
    late_touch_spurious laws ticking between overdue alice opening ticking-IsSteady (omega arith)
      overdue-Accounts refl

-- Bob's datagram came at 2, and its thread took the lock at 20.
abbrev stale : StoredSession
stale = record { imsi = bob; created_at = 2 ∷ []; expires_at = 7 ∷ [] }

stale_touch_unrecorded_example :
    let y = stale_touch ticking between overdue stale in
    let log' =
      (opening ++ record_of (2 ∷ []) bob created ∷ [])
      ++ expired_records (now_at ticking 20) (listed ticking overdue) in
    Logged y.sessions.cdr log'
    × (phase bob log' ≡ opened)
    × (is_some (find bob y.sessions.store) ≡ false)
unfolding in_memory_laws text_lt find text_eq
stale_touch_unrecorded_example =
    stale_touch_unrecorded laws ticking between overdue stale opening overdue-Accounts refl refl
