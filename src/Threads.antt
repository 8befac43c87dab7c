-- ===== src/Threads.antt =====
-- The threads of the server (src/server/main.cpp, session_manager.cpp, http_api.cpp, udp_server.cpp,
-- cdr_writer.cpp), interleaved where the code lets go of its locks: a pass of the cleaner is a step for
-- the listing, one for each record and one for the removal, and a handler of /stop is a step for each
-- reading of the live sessions, for each expiry, and for `server.stop()`. A datagram is one step, with
-- its readings of the clock, and so is any other request. The waits, which only delay a thread, are left out.
pub mod Covering
pub mod Reaches
pub mod Serial
use mini_pgw.Prelude.{ℕ, zero, suc, true, false, List, [], ◌∷◌, Option, none, some, if◌then◌else◌}
use mini_pgw.Text.{Text}
use mini_pgw.Blacklist.{Blacklist}
use mini_pgw.Store.{StoredSession, SessionStore}
use mini_pgw.Cdr.{writer_round}
use mini_pgw.Udp
use mini_pgw.Manager.{Clock, Manager, now_str, expire_session_locked}
use mini_pgw.Manager.Accounts.Run.{after_round}
use mini_pgw.Race
use mini_pgw.Race.{Cleaner, waiting, System, between, clean_step}
use mini_pgw.Http
use mini_pgw.Http.{Node, Request, handle_check, param_value}
use mini_pgw.Process.{
  HttpPlace, at_test, in_listen, after_loop, finished, MainPlace, joins_http, joins_udp, returned,
  joined, udp_step,
}

-- A handler of /stop: at the test of `graceful_stop`, at the test of `offload_rate` with the rounds
-- left, with a session chosen there and the rounds left after it, or before `server.stop()`.
pub data Handler : Type 0 where
  looks : Handler
  offloads : ℕ → Handler
  chosen : ℕ → Text → Handler
  closes : Handler

pub record Threads (S : SessionStore) : Type 0 where
  pub node : Node S
  pub http_at : HttpPlace
  pub main_at : MainPlace
  pub exit_code : Option ℕ
  pub cleaner : Cleaner
  pub handlers : List Handler

-- The next step: of the UDP thread, of the HTTP thread, a request, of a handler of /stop by its place
-- among them, of the cleaner, of the writer, or of `main`. `server.listen` returns after a
-- `server.stop()`, or because the port is in use.
pub data Move : Type 0 where
  udp : Udp.Event → Move
  http_tests : Move
  listen_returns : Move
  listen_throws : Move
  requests : Request → Move
  handler_goes : ℕ → Move
  http_exits : Move
  cleans : Move
  writes_out : Move
  main_goes : Move

abbrev pub keep_handler : Option Handler → List Handler → List Handler
keep_handler none handlers = handlers
keep_handler (some h) handlers = h ∷ handlers

module _ {S : SessionStore} (clock : Clock) where
  -- A handler's next step; one that is through is gone.
  unfoldable pub handler_step : Node S → Handler → Node S × Option Handler
  handler_step n looks =
      let (now, m) = now_str clock n.sessions in
      (
        record n { sessions = m },
        some
            (elim (S.load_sessions m.store now) [ [] ↦ closes | s ∷ _ ↦ offloads n.graceful_rate ]),
      )
  handler_step n (offloads zero) = (n, some looks)
  handler_step n (offloads (suc left)) =
      let (now, m) = now_str clock n.sessions in
      (
        record n { sessions = m },
        some (elim (S.load_sessions m.store now) [ [] ↦ looks | s ∷ _ ↦ chosen left s.imsi ]),
      )
  handler_step n (chosen left imsi) =
      (record n { sessions = expire_session_locked clock n.sessions imsi }, some (offloads left))
  handler_step n closes =
      (record n { listening = if n.stop_requested then false else n.listening }, none)

  -- The `i`-th of the handlers goes on.
  unfoldable pub handlers_step : Node S → List Handler → ℕ → Node S × List Handler
  unfolding handler_step
  handlers_step n [] i = (n, [])
  handlers_step n (h ∷ handlers) zero =
      let (n', h') = handler_step n h in (n', keep_handler h' handlers)
  handlers_step n (h ∷ handlers) (suc i) =
      let (n', handlers') = handlers_step n handlers i in (n', h ∷ handlers')

  -- A request: of /stop only the first two steps of its handler.
  unfoldable pub accept : Threads S → Request → Threads S
  accept t (Request.check_subscriber imsi) = record t {
    node = (handle_check clock t.node (param_value imsi)).0;
  }
  accept t Request.stop = record t {
    node = record t.node { udp = Udp.stop t.node.udp; stop_requested = true };
    handlers = looks ∷ t.handlers;
  }
  accept t Request.test = t
  accept t Request.other = t

  -- The thread of `run_server`. A step that does not fit its place changes nothing.
  unfoldable pub server_step : HttpPlace → Threads S → Move → Threads S
  unfolding accept
  server_step at_test t http_tests =
      if t.node.stop_requested
      then record t { http_at = after_loop }
      else record t { http_at = in_listen; node = record t.node { listening = true } }
  server_step in_listen t listen_returns = record t {
    http_at = at_test;
    node = record t.node { listening = false };
  }
  server_step in_listen t listen_throws = record t { http_at = after_loop }
  server_step in_listen t (requests r) = accept t r
  server_step after_loop t http_exits = record t { exit_code = some 0 }
  server_step _ t _ = t

  -- The end of `main`: the two calls of `join`, and its return.
  unfoldable pub join_step : MainPlace → Threads S → Threads S
  join_step joins_http t = if joined t.http_at then record t { main_at = joins_udp } else t
  join_step joins_udp t =
      if Udp.joined t.node.udp.place then record t { main_at = returned; exit_code = some 0 } else t
  join_step returned t = t

  -- The cleaner's next step.
  unfoldable pub cleaner_step : Threads S → Threads S
  cleaner_step t =
      let y =
        clean_step clock
          (record { sessions = t.node.sessions; cleaner = t.cleaner; offloader = between })
          t.cleaner in
      record t { node = record t.node { sessions = y.sessions }; cleaner = y.cleaner }

  module _ (blacklist : Blacklist) where
    unfoldable pub thread_step : Threads S → Move → Threads S
    unfolding handlers_step server_step join_step cleaner_step
    thread_step t (udp e) = record t { node = udp_step clock blacklist t.node e }
    thread_step t cleans = cleaner_step t
    thread_step t writes_out =
        let m = t.node.sessions in
        record t { node = record t.node { sessions = after_round clock m (writer_round m.cdr) } }
    thread_step t main_goes = join_step t.main_at t
    thread_step t (handler_goes i) =
        let (n, handlers) = handlers_step t.node t.handlers i in
        record t { node = n; handlers = handlers }
    thread_step t move = server_step t.http_at t move

    -- A process that has exited does nothing more.
    unfoldable pub step : Threads S → Move → Threads S
    unfolding thread_step
    step t move = elim t.exit_code [ none ↦ thread_step t move | some code ↦ t ]

    unfoldable pub run : Threads S → List Move → Threads S
    unfolding step
    run t [] = t
    run t (move ∷ moves) = run (step t move) moves
