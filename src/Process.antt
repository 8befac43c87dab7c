-- ===== src/Process.antt =====
-- The server as a process whose steps go through at once: the end of `main` (src/server/main.cpp), the
-- thread of `HttpApi::run_server` (src/server/http_api.cpp) with its loop, and the threads of the UDP server,
-- of the cleaner and of the call records, in any order of their steps. A request, /stop included, is one
-- step here, and so is a pass of the cleaner: these are the schedules in which no thread comes between
-- their parts. Threads.antt has all schedules, and Threads/Serial.antt finds these among them.
pub mod Books
pub mod Accounts
pub mod Exit
pub mod Loss
pub mod Listening
pub mod Fits
pub mod Total
use mini_pgw.Prelude.{ℕ, Bool, true, false, List, [], ◌∷◌, Option, none, some, if◌then◌else◌}
use mini_pgw.Blacklist.{Blacklist}
use mini_pgw.Store.{SessionStore}
use mini_pgw.Cdr.{writer_round}
use mini_pgw.Udp
use mini_pgw.Manager.{Clock, Manager, cleaner_pass}
use mini_pgw.Manager.Accounts.Run.{after_round}
use mini_pgw.Http
use mini_pgw.Http.{Node, Request}

-- The thread of `run_server`: at the test of its loop, in `server.listen`, behind the loop, or at its
-- end, which `std::exit` does not let it reach.
pub data HttpPlace : Type 0 where
  at_test : HttpPlace
  in_listen : HttpPlace
  after_loop : HttpPlace
  finished : HttpPlace

-- The main thread: in `http.join()`, in `udp.join()`, or returned.
pub data MainPlace : Type 0 where
  joins_http : MainPlace
  joins_udp : MainPlace
  returned : MainPlace

pub record Process (S : SessionStore) : Type 0 where
  pub node : Node S
  pub http_at : HttpPlace
  pub main_at : MainPlace
  pub exit_code : Option ℕ

-- The next step: of the UDP thread, of the HTTP thread, of the cleaner, of the writer, or of `main`.
-- `listen_fails` is `server.listen` when it returns false, as it does if the port is in use.
pub data Move : Type 0 where
  udp : Udp.Event → Move
  http_tests : Move
  listen_fails : Move
  listen_throws : Move
  requests : Request → Move
  http_exits : Move
  cleans : Move
  writes_out : Move
  main_goes : Move

-- What `main` leaves when both servers have started.
abbrev pub started : {S : SessionStore} → Node S → Process S
started n = record { node = n; http_at = at_test; main_at = joins_http; exit_code = none }

-- Whether `http.join()` returns.
abbrev pub joined : HttpPlace → Bool
joined finished = true
joined at_test = false
joined in_listen = false
joined after_loop = false

-- The end of `main`: the two calls of `join`, and its return.
unfoldable pub main_step : {S : SessionStore} → MainPlace → Process S → Process S
main_step joins_http p = if joined p.http_at then record p { main_at = joins_udp } else p
main_step joins_udp p =
    if Udp.joined p.node.udp.place then record p { main_at = returned; exit_code = some 0 } else p
main_step returned p = p

module _ {S : SessionStore} (clock : Clock) (blacklist : Blacklist) where
  -- A round of the UDP thread. Only the HTTP thread calls its `stop`, in a request.
  unfoldable pub udp_step : Node S → Udp.Event → Node S
  udp_step n Udp.stops = n
  udp_step n e =
      let (u, sessions, text) = Udp.step_at clock blacklist n.udp.place n.udp n.sessions e in
      record n { udp = u; sessions = sessions }

  -- A request that came to `server.listen`; `none` if a graceful stop runs out of fuel.
  unfoldable pub request_step : ℕ → Process S → Request → Option (Process S)
  request_step fuel p r = elim (Http.handle clock fuel p.node r) [
    | none ↦ none
    | some (n, text) ↦
        some (record p { node = n; http_at = if n.listening then in_listen else at_test })
  ]

  -- The thread of `run_server`. A step that does not fit its place changes nothing.
  unfoldable pub http_step : ℕ → HttpPlace → Process S → Move → Option (Process S)
  unfolding request_step
  http_step fuel at_test p http_tests = some (
      if p.node.stop_requested
      then record p { http_at = after_loop }
      else record p { http_at = in_listen; node = record p.node { listening = true } })
  http_step fuel in_listen p listen_fails =
      some (record p { http_at = at_test; node = record p.node { listening = false } })
  http_step fuel in_listen p listen_throws = some (record p { http_at = after_loop })
  http_step fuel in_listen p (requests r) = request_step fuel p r
  http_step fuel after_loop p http_exits = some (record p { exit_code = some 0 })
  http_step fuel _ p _ = some p

  unfoldable pub live_step : ℕ → Process S → Move → Option (Process S)
  unfolding main_step udp_step http_step
  live_step fuel p (udp e) = some (record p { node = udp_step p.node e })
  live_step fuel p cleans =
      some (record p { node = record p.node { sessions = cleaner_pass clock p.node.sessions } })
  live_step fuel p writes_out =
      let m = p.node.sessions in
      some
        (record p { node = record p.node { sessions = after_round clock m (writer_round m.cdr) } })
  live_step fuel p main_goes = some (main_step p.main_at p)
  live_step fuel p move = http_step fuel p.http_at p move

  -- A process that has exited does nothing more.
  unfoldable pub step : ℕ → Process S → Move → Option (Process S)
  unfolding live_step
  step fuel p move = elim p.exit_code [ none ↦ live_step fuel p move | some code ↦ some p ]

  unfoldable pub run : ℕ → Process S → List Move → Option (Process S)
  unfolding step
  run fuel p [] = some p
  run fuel p (move ∷ moves) = elim (step fuel p move) [ none ↦ none | some q ↦ run fuel q moves ]
