-- ===== src/Tests/Processes.antt =====
-- The process of the server at concrete moves.
use mini_pgw.Prelude.{ℕ, ◌≡◌, refl, ◌++◌, true, false, List, [], ◌∷◌, none, some, arith, All}
use mini_pgw.Text.{bytes, text_eq, text_lt}
use mini_pgw.Bcd.{imsi_to_bcd}
use mini_pgw.Blacklist.{Blacklist}
use mini_pgw.Cdr.{CdrRecord, write, expired}
use mini_pgw.Cdr.Drain.{Logged}
use mini_pgw.InMemory.{load_sessions, delete_session}
use mini_pgw.InMemory.Laws.{in_memory_laws}
use mini_pgw.UnorderedMap.{values_if, erase}
use mini_pgw.Manager
use mini_pgw.Manager.{touch_session, graceful_stop}
use mini_pgw.Manager.Accounts.Steps.{Extends}
use mini_pgw.Udp
use mini_pgw.Http
use mini_pgw.Http.{Node, Request, stop_api, param_value}
use mini_pgw.Process.{
  Process, in_listen, after_loop, joins_http, Move, udp, http_tests, requests, http_exits, cleans,
  main_goes, started, run,
}
use mini_pgw.Threads.Reaches.{Reaches}
use mini_pgw.Process.Accounts.{process-Accounts}
use mini_pgw.Process.Exit.{process_exit, is_throw}
use mini_pgw.Process.Loss.{process_stop-loses}
use mini_pgw.Process.Total.{process-GoesOn, Serves}
use mini_pgw.Process.Listening.{process_spins, handle-stop_api, refusals}
use mini_pgw.Tests.Fixtures.{
  ticking, ticking-IsSteady, store, laws, alice, session, touched_once, touched_once-Accounts,
  opening, one_session-IsValid,
}

abbrev no_bans : Blacklist
no_bans = record { blocked = [] }

abbrev node : Node store
node = Http.init touched_once (record { running = true; place = Udp.in_recvfrom }) 10

abbrev process : Process store
process = started node

-- A touch of Alice, and an orderly stop with the main thread trying to go on.
abbrev moves : List Move
moves =
    http_tests
    ∷ main_goes
    ∷ udp (Udp.arrives (imsi_to_bcd alice))
    ∷ requests (Request.check_subscriber (some alice))
    ∷ requests Request.stop
    ∷ http_tests
    ∷ http_exits
    ∷ cleans
    ∷ []

moves_calm : All (λ move. is_throw move ≡ false) moves
moves_calm = (refl, (refl, (refl, (refl, (refl, (refl, (refl, (refl, tt))))))))

process-Serves : Serves laws ticking no_bans 1 9 process
unfolding in_memory_laws Http.init
process-Serves = record {
  fits = record { valid = one_session-IsValid; small = omega arith };
  rated = refl;
}

process-GoesOn_example :
    (q : Process store) × (run ticking no_bans 11 process moves ≡ some q)
    × Serves laws ticking no_bans 9 9 q
process-GoesOn_example =
    process-GoesOn laws ticking no_bans 11 9 1 process moves ticking-IsSteady (omega arith)
      process-Serves

abbrev final : Process store
final = process-GoesOn_example.0

account_kept : Extends laws ticking opening final.node.sessions
unfolding Http.init
account_kept =
    process-Accounts laws ticking no_bans 11 process final moves process-GoesOn_example.1
      touched_once-Accounts

abbrev stop_moves : List Move
stop_moves = http_tests ∷ requests Request.stop ∷ http_tests ∷ http_exits ∷ []

-- Alice's session is offloaded at the fifth reading of the clock.
abbrev stopped : Process store
stopped = record {
  node = record node {
    sessions = record touched_once {
      store = [];
      cdr = record touched_once.cdr {
        queue = opening ++ record { timestamp = 5 ∷ []; imsi = alice; action = expired } ∷ [];
      };
      reads = 8;
    };
    udp = record { running = false; place = Udp.in_recvfrom };
    stop_requested = true;
  };
  http_at = after_loop;
  main_at = joins_http;
  exit_code = some 0;
}

run-stopped : run ticking no_bans 3 process stop_moves ≡ some stopped
unfolding run Http.init Http.handle graceful_stop load_sessions delete_session values_if text_lt
    erase text_eq write Udp.stop
run-stopped = refl

stop_calm : All (λ move. is_throw move ≡ false) stop_moves
stop_calm = (refl, (refl, (refl, (refl, tt))))

process_exit_example :
    (◌≡◌ {A = ℕ} 0 0)
    × (stopped.node.stop_requested ≡ true)
    × (stopped.node.udp.running ≡ false)
    × (stopped.main_at ≡ joins_http)
unfolding Http.init
process_exit_example =
    process_exit ticking no_bans 3 node stopped stop_moves 0 refl stop_calm run-stopped refl

abbrev listening : Process store
listening = record process { http_at = in_listen; node = record node { listening = true } }

process_stop-loses_example :
    (q : Process store) × (rec : CdrRecord) × (more : List CdrRecord) × (run ticking no_bans 3
        listening
        (requests Request.stop ∷ http_tests ∷ http_exits ∷ [])
      ≡ some q)
    × (q.exit_code ≡ some 0)
    × Logged q.node.sessions.cdr (opening ++ rec ∷ more)
    × (q.node.sessions.cdr.file ≡ listening.node.sessions.cdr.file)
unfolding Http.init in_memory_laws load_sessions values_if text_lt
process_stop-loses_example =
    process_stop-loses laws ticking no_bans 3 9 listening session [] refl refl refl ticking-IsSteady
      one_session-IsValid (omega arith) touched_once-Accounts.logged refl

process_spins_example : run ticking no_bans 3 process (refusals 1000) ≡ some process
unfolding Http.init
process_spins_example = process_spins ticking no_bans 3 1000 process refl refl refl refl

checked :
    Http.handle ticking 3 node (Request.check_subscriber none)
    ≡ some (record node { sessions = record touched_once { reads = 4 } }, bytes "not active")
unfolding Http.handle Http.init Manager.is_active load_sessions values_if text_lt text_eq
    param_value
checked = refl

handle-stop_api_example :
    Http.handle ticking 3 (stop_api node) (Request.check_subscriber none)
    ≡ some (
      stop_api (record node { sessions = record touched_once { reads = 4 } }),
      bytes "not active",
    )
handle-stop_api_example =
    handle-stop_api ticking 3 node (record node { sessions = record touched_once { reads = 4 } })
      (Request.check_subscriber none) (bytes "not active") checked
