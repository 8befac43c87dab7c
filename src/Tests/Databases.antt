-- ===== src/Tests/Databases.antt =====
-- Whole runs over the database of Tests.Database, and over none.
use mini_pgw.Prelude.{◌≡◌, refl, true, false, List, [], ◌∷◌, none, some, map, All}
use mini_pgw.Text.{Text, c_string}
use mini_pgw.Cdr.{CdrRecord, created}
use mini_pgw.Cdr.Drain.{Logged}
use mini_pgw.Store.{StoredSession}
use mini_pgw.Manager.{Manager, touch_session, is_active}
use mini_pgw.Manager.Accounts.Run.{Call, touches, checks, cleans, offloads, writes_out, run}
use mini_pgw.Sqlite.{sqlite}
use mini_pgw.Sqlite.Closed.{sqlite_closed-creations, entry}
use mini_pgw.Sqlite.Simulation.{
  Op, saves, deletes, looks, lists, IsPlain, sqlite_run, memory_run, Simulates,
  sqlite_run-memory_run,
}
use mini_pgw.Sqlite.Accounts.{TableAccounts, sqlite_run-Accounts}
use mini_pgw.Tests.Fixtures.{ticking, newest_first, alice, bob, session, cdr, cdr-Logged}
use mini_pgw.Tests.Database.{
  opened, opened-TableAccounts, lib, documented, reliable, empty-Simulates,
}

-- A server whose database did not open.
abbrev closed : Manager (sqlite lib)
closed = record { timeout = 5; store = none; cdr = cdr; reads = 1; stop = false }

abbrev calls : List Call
calls = touches alice ∷ checks alice ∷ touches alice ∷ cleans ∷ writes_out ∷ offloads 3 ∷ []

sqlite_closed-creations_example :
    let m = run ticking closed calls in
    (new : List CdrRecord) × Logged m.cdr new
    × (map entry new ≡ (alice, created) ∷ (alice, created) ∷ [])
    × ((imsi : Text)
        → ((touch_session ticking m imsi).1 ≡ true) × ((is_active ticking m imsi).1 ≡ false))
sqlite_closed-creations_example = sqlite_closed-creations lib ticking closed calls refl cdr-Logged

abbrev ops : List Op
ops = saves session ∷ looks alice ∷ lists (3 ∷ []) ∷ deletes alice ∷ deletes bob ∷ looks alice ∷ []

ops-IsPlain : All IsPlain ops
unfolding c_string
ops-IsPlain = (refl, (refl, (refl, (refl, (refl, (refl, tt))))))

sqlite_run-memory_run_example :
    ((sqlite_run lib (some []) ops).1 ≡ (memory_run newest_first [] ops).1)
    × ((db : List StoredSession) × ((sqlite_run lib (some []) ops).0 ≡ some db)
        × Simulates lib documented reliable newest_first db (memory_run newest_first [] ops).0)
sqlite_run-memory_run_example =
    sqlite_run-memory_run lib documented reliable newest_first [] [] ops ops-IsPlain empty-Simulates

sqlite_run-Accounts_example :
    (new : List CdrRecord) × TableAccounts lib documented reliable (run ticking opened calls) new
unfolding c_string
sqlite_run-Accounts_example =
    sqlite_run-Accounts lib documented reliable ticking opened calls
      (refl, (tt, (refl, (tt, (tt, (tt, tt)))))) opened-TableAccounts
