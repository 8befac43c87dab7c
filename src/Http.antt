-- ===== src/Http.antt =====
-- src/server/http_api.cpp and include/pgw/http_api.hpp: the constructor, `start` and `stop`, the three
-- routes of `run_server` and the error handler. The HTTP library is left out: a request is what a handler
-- reads of it, and `listening` says that `server.listen` runs, which `server.stop()` ends. The callback
-- that `main` passes stops the UDP server. The loop of `run_server` is a thread of Threads.antt, which
-- takes the handler of /stop apart, and of Process.antt.
pub mod Stop
pub mod Check
use mini_pgw.Prelude.{ℕ, Bool, true, false, [], Option, none, some, if◌then◌else◌}
use mini_pgw.Text.{Text, bytes}
use mini_pgw.Udp.{UdpServer}
use mini_pgw.Udp
use mini_pgw.Store.{SessionStore}
use mini_pgw.Manager.{Clock, Manager, is_active, graceful_stop}

-- A query without the parameter gives the empty text.
pub data Request : Type 0 where
  check_subscriber : Option Text → Request
  stop : Request
  test : Request
  other : Request

-- The HTTP server, the UDP server and the manager that both share. `stop_requested` is the local
-- variable of `run_server`.
pub record Node (S : SessionStore) : Type 0 where
  pub sessions : Manager S
  pub udp : UdpServer
  pub graceful_rate : ℕ
  pub running : Bool
  pub stop_requested : Bool
  pub listening : Bool

-- The constructor, with the servers that its references name.
unfoldable pub init : {S : SessionStore} → Manager S → UdpServer → ℕ → Node S
init sessions udp graceful_rate = record {
  sessions = sessions;
  udp = udp;
  graceful_rate = graceful_rate;
  running = false;
  stop_requested = false;
  listening = false;
}

-- `start`, which also starts the thread of `run_server`.
unfoldable pub start : {S : SessionStore} → Node S → Node S
start n = record n { running = true; stop_requested = false }

-- `HttpApi::stop`
unfoldable pub stop_api : {S : SessionStore} → Node S → Node S
stop_api n = record n { running = false; udp = Udp.stop n.udp }

unfoldable pub param_value : Option Text → Text
param_value none = []
param_value (some imsi) = imsi

module _ {S : SessionStore} (clock : Clock) where
  unfoldable pub handle_check : Node S → Text → Node S × Text
  handle_check n imsi =
      let (sessions, active) = is_active clock n.sessions imsi in
      (record n { sessions = sessions }, if active then bytes "active" else bytes "not active")

  -- Steps 1 to 4 of the handler; `none` if the graceful stop runs out of fuel.
  unfoldable pub handle_stop : ℕ → Node S → Option (Node S × Text)
  handle_stop fuel n =
      let n1 = record n { udp = Udp.stop n.udp; stop_requested = true } in
      elim (graceful_stop clock fuel n1.graceful_rate n1.sessions) [
        | none ↦ none
        | some sessions ↦ some (
          record n1 {
            sessions = sessions;
            listening = if n1.stop_requested then false else n1.listening;
          },
          bytes "shutting down",
        )
      ]

  unfoldable pub handle : ℕ → Node S → Request → Option (Node S × Text)
  unfolding handle_check handle_stop
  handle fuel n (check_subscriber imsi) = some (handle_check n (param_value imsi))
  handle fuel n stop = handle_stop fuel n
  handle fuel n test = some (n, bytes "Test GET request successful")
  handle fuel n other = some (n, bytes "Internal Server Error")
