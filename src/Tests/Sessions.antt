-- ===== src/Tests/Sessions.antt =====
-- The session manager and the HTTP handlers.
use mini_pgw.Prelude.{ℕ, ◌+◌, ◌<◌, ◌≡◌, ◌≢◌, refl, true, false, List, [], ◌∷◌, ◌++◌, some, arith}
use mini_pgw.Text.{bytes, text_eq, text_lt}
use mini_pgw.Cdr.{expired, write}
use mini_pgw.Bcd.{imsi_to_bcd}
use mini_pgw.Blacklist.{Blacklist, is_blocked, contains}
use mini_pgw.UnorderedMap.{find, values_if, erase}
use mini_pgw.InMemory.{load_sessions, delete_session}
use mini_pgw.InMemory.Laws.{in_memory_laws}
use mini_pgw.Manager.{Manager, touched, touch_session, is_active, graceful_stop, now_at}
use mini_pgw.Manager.Activity.{is_active_lem, find-touch_session}
use mini_pgw.Manager.Shutdown.{Stopped, graceful_stop-ends, graceful_stop_rate_zero}
use mini_pgw.Manager.Accounts.Steps.{Extends}
use mini_pgw.Manager.Accounts.Run.{Call, touches, cleans, offloads, writes_out, run, run-Accounts}
use mini_pgw.Udp
use mini_pgw.Http.{Node, Request, handle_check, handle}
use mini_pgw.Http.Stop.{IsDown, handle-stop}
use mini_pgw.Http.Check.{check_after_datagram}
use mini_pgw.Tests.Fixtures.{
  ticking, ticking-IsSteady, store, laws, alice, bob, fresh, fresh-IsValid, fresh-Accounts,
  one_session-IsValid, touched_once, opening,
}

abbrev calls : List Call
calls = touches alice ∷ touches bob ∷ writes_out ∷ cleans ∷ offloads 2 ∷ touches alice ∷ []

run-Accounts_example : Extends laws ticking [] (run ticking fresh calls)
run-Accounts_example = run-Accounts laws ticking fresh calls fresh-Accounts

is_active_lem_example : (is_active ticking touched_once alice).1 ≡ true
unfolding in_memory_laws find text_eq text_lt
is_active_lem_example = is_active_lem laws ticking touched_once alice one_session-IsValid

find-touch_session_example :
    laws.find (touch_session ticking fresh alice).0.store alice ≡ some (touched ticking fresh alice)
unfolding in_memory_laws text_eq
find-touch_session_example = find-touch_session laws ticking fresh alice alice fresh-IsValid

touched_once-IsValid : laws.IsValid touched_once.store
unfolding in_memory_laws
touched_once-IsValid = one_session-IsValid

graceful_stop-ends_example :
    (m : Manager store) × (graceful_stop ticking 3 10 touched_once ≡ some m)
    × Stopped laws ticking m
unfolding in_memory_laws
graceful_stop-ends_example =
    graceful_stop-ends laws ticking 3 9 touched_once ticking-IsSteady touched_once-IsValid
      (omega arith)

live_before :
    (j : ℕ)
    → j < 4
    → load_sessions touched_once.store (now_at ticking (touched_once.reads + j)) ≢ []
unfolding load_sessions values_if text_lt
live_before j h e = ground arith

idle_at_seven : load_sessions touched_once.store (now_at ticking (touched_once.reads + 4)) ≡ []
unfolding load_sessions values_if text_lt
idle_at_seven = refl

graceful_stop_rate_zero_example :
    graceful_stop ticking 9 0 touched_once ≡ some (record touched_once { reads = 8 })
graceful_stop_rate_zero_example =
    graceful_stop_rate_zero laws ticking 9 4 touched_once live_before idle_at_seven

abbrev emptied : Manager store
emptied = record touched_once {
  store = [];
  cdr = record touched_once.cdr {
    queue = opening ++ record { timestamp = 5 ∷ []; imsi = alice; action = expired } ∷ [];
  };
  reads = 8;
}

emptied_by_stop : graceful_stop ticking 3 10 touched_once ≡ some emptied
unfolding graceful_stop load_sessions delete_session values_if text_lt erase text_eq write
emptied_by_stop = refl

abbrev node : Node store
node = record {
  sessions = touched_once;
  udp = record { running = true; place = Udp.in_recvfrom };
  graceful_rate = 10;
  running = true;
  stop_requested = false;
  listening = true;
}

handle-stop_example :
    (n : Node store) × (handle ticking 3 node Request.stop ≡ some (n, bytes "shutting down"))
    × IsDown laws ticking n
unfolding in_memory_laws
handle-stop_example =
    handle-stop laws ticking 3 9 node refl ticking-IsSteady touched_once-IsValid (omega arith)

abbrev blacklist : Blacklist
blacklist = record { blocked = bob ∷ [] }

check_after_datagram_example :
    (handle_check ticking
      (record node {
        sessions = record (Udp.handle ticking blacklist touched_once (imsi_to_bcd alice)).0 {
          reads = 9;
        };
      })
      alice).1
    ≡ bytes "not active"
unfolding is_blocked contains text_eq
check_after_datagram_example =
    check_after_datagram laws ticking blacklist node alice 9 ticking-IsSteady touched_once-IsValid
      (omega arith) (λ e. cc) (omega arith) refl
