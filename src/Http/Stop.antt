-- ===== src/Http/Stop.antt =====
-- What GET /stop does.
use mini_pgw.Prelude.{
  ℕ, suc, ◌+◌, ◌≤◌, ◌<◌, ◌≡◌, ◌≢◌, refl, true, false, [], none, some, arith, Option-cases, inl, inr,
}
use mini_pgw.Text.{Text, bytes}
use mini_pgw.Store.{SessionStore, StoreLaws}
use mini_pgw.Udp.{UdpServer}
use mini_pgw.Udp
use mini_pgw.Manager.{Clock, now_at, graceful_stop}
use mini_pgw.Manager.Activity.{IsSteady}
use mini_pgw.Manager.Shutdown.{Stopped, graceful_stop-ends, graceful_stop_rate_zero}
use mini_pgw.Http.{Node, handle, Request}

module _ {S : SessionStore} (L : StoreLaws S) (clock : Clock) where
  -- What the node is like when the handler of /stop returns.
  pub record IsDown (n : Node S) : Type 0 where
    pub udp_stopped : n.udp.running ≡ false
    pub requested : n.stop_requested ≡ true
    pub deaf : n.listening ≡ false
    pub offloaded : Stopped L clock n.sessions

  -- For a valid store, a steady clock, a positive rate and fuel for two rounds more than the store
  -- has sessions, GET /stop answers "shutting down" and leaves the UDP server told to stop, the
  -- stop flag set, the HTTP server stopped, and no live session at the last clock reading.
  pub handle-stop :
      (fuel rate : ℕ) (n : Node S)
      → n.graceful_rate ≡ suc rate
      → IsSteady clock
      → L.IsValid n.sessions.store
      → L.size n.sessions.store + 2 ≤ fuel
      → (n' : Node S) × (handle clock fuel n Request.stop ≡ some (n', bytes "shutting down"))
        × IsDown n'
  unfolding handle Udp.stop
  handle-stop fuel rate n r steady v h =
      let (m', e, down) = graceful_stop-ends L clock fuel rate n.sessions steady v h in
      (
        record n { udp = Udp.stop n.udp; stop_requested = true; sessions = m'; listening = false },
        ground arith,
        record { udp_stopped = refl; requested = refl; deaf = refl; offloaded = down },
      )

  -- The sessions that /stop leaves are those of the graceful stop, at the same rate.
  pub handle-stop_sessions :
      (fuel : ℕ) (n n' : Node S) (text : Text)
      → handle clock fuel n Request.stop ≡ some (n', text)
      → (graceful_stop clock fuel n.graceful_rate n.sessions ≡ some n'.sessions)
        × (n'.graceful_rate ≡ n.graceful_rate)
  unfolding handle
  handle-stop_sessions fuel n n' text h =
      elim (Option-cases (graceful_stop clock fuel n.graceful_rate n.sessions)) [
        | inl out ↦ absurd (ground arith)
        | inr (m', e) ↦ ground arith
      ]

  -- With the rate 0 in the configuration, /stop returns only after a reading of the clock at which
  -- no session is live.
  pub handle-stop_rate_zero :
      (fuel i : ℕ) (n : Node S)
      → n.graceful_rate ≡ 0
      → ((j : ℕ)
          → j < i
          → S.load_sessions n.sessions.store (now_at clock (n.sessions.reads + j)) ≢ [])
      → S.load_sessions n.sessions.store (now_at clock (n.sessions.reads + i)) ≡ []
      → fuel ≤ i
      → handle clock fuel n Request.stop ≡ none
  unfolding handle
  handle-stop_rate_zero fuel i n r live idle short =
      ground (arith, graceful_stop_rate_zero L clock fuel i n.sessions live idle)
