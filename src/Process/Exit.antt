-- ===== src/Process/Exit.antt =====
-- How the process ends.
use mini_pgw.Prelude.{
  ℕ, ◌≡◌, ◌≢◌, ◌⊎◌, refl, subst, Bool, true, false, List, [], ◌∷◌, none, some, arith, if◌then◌else◌,
  All, Option-cases, Bool-cases, inl, inr,
}
use mini_pgw.Blacklist.{Blacklist}
use mini_pgw.Store.{SessionStore}
use mini_pgw.Udp
use mini_pgw.Manager.{Clock, Manager, is_active, graceful_stop, cleaner_pass}
use mini_pgw.Manager.Accounts.Run.{after_round}
use mini_pgw.Cdr.{writer_round}
use mini_pgw.Http
use mini_pgw.Http.{Node, Request}
use mini_pgw.Process.{
  Process, HttpPlace, at_test, in_listen, after_loop, finished, joins_http, Move, udp, http_tests,
  listen_fails, listen_throws, requests, http_exits, cleans, writes_out, main_goes, main_step,
  udp_step, request_step, http_step, live_step, step, run, started,
}

abbrev pub is_throw : Move → Bool
is_throw listen_throws = true
is_throw (udp e) = false
is_throw http_tests = false
is_throw listen_fails = false
is_throw (requests r) = false
is_throw http_exits = false
is_throw cleans = false
is_throw writes_out = false
is_throw main_goes = false

-- While no listening has thrown: the main thread waits for the HTTP thread, which is behind its loop
-- only after /stop; and then the UDP server was told to stop.
pub record IsOrderly {S : SessionStore} (p : Process S) : Type 0 where
  pub waits : p.main_at ≡ joins_http
  pub unfinished : p.http_at ≢ finished
  pub asked : p.http_at ≡ after_loop → p.node.stop_requested ≡ true
  pub told : p.node.stop_requested ≡ true → p.node.udp.running ≡ false
  pub code : p.exit_code ≢ none → (p.exit_code ≡ some 0) × (p.http_at ≡ after_loop)

module _ {S : SessionStore} (clock : Clock) (blacklist : Blacklist) where
  udp_at-running :
      (place : Udp.Place) (u : Udp.UdpServer) (m : Manager S) (e : Udp.Event)
      → u.running ≡ false
      → (Udp.step_at clock blacklist place u m e).0.running ≡ false
  unfolding Udp.step_at Udp.stop
  udp_at-running Udp.in_recvfrom u m (Udp.arrives packet) h = ground arith
  udp_at-running place u m Udp.stops h = refl
  udp_at-running Udp.at_test u m Udp.tests h = ground arith
  udp_at-running Udp.in_recvfrom u m Udp.fails h = ground arith
  udp_at-running _ u m _ h = ground arith

  udp_step-flags :
      (n : Node S) (e : Udp.Event)
      → let n' = udp_step clock blacklist n e in
        (n'.stop_requested ≡ n.stop_requested) × (n.udp.running ≡ false → n'.udp.running ≡ false)
  unfolding udp_step
  udp_step-flags n Udp.stops = (refl, λ h. h)
  udp_step-flags n Udp.tests = (refl, udp_at-running n.udp.place n.udp n.sessions Udp.tests)
  udp_step-flags n Udp.fails = (refl, udp_at-running n.udp.place n.udp n.sessions Udp.fails)
  udp_step-flags n (Udp.arrives packet) =
      (refl, udp_at-running n.udp.place n.udp n.sessions (Udp.arrives packet))

  -- A request leaves both flags alone, or sets both.
  handle-flags :
      (fuel : ℕ) (n n' : Node S) (r : Request) (text : List ℕ)
      → Http.handle clock fuel n r ≡ some (n', text)
      → ((n'.stop_requested ≡ n.stop_requested) × (n'.udp ≡ n.udp) × (n'.listening ≡ n.listening))
        ⊎ ((n'.stop_requested ≡ true) × (n'.udp.running ≡ false) × (n'.listening ≡ false))
  unfolding Http.handle is_active Udp.stop
  handle-flags fuel n n' (Request.check_subscriber imsi) text h = inl (ground arith)
  handle-flags fuel n n' Request.test text h = inl (ground arith)
  handle-flags fuel n n' Request.other text h = inl (ground arith)
  handle-flags fuel n n' Request.stop text h =
      elim (Option-cases (graceful_stop clock fuel n.graceful_rate n.sessions)) [
        | inl out ↦ absurd (ground arith)
        | inr (m', e) ↦ inr (ground arith)
      ]

  -- The HTTP thread goes to another place.
  placed :
      (p : Process S) (place : HttpPlace) (n : Node S)
      → p.exit_code ≡ none
      → IsOrderly p
      → place ≢ finished
      → (place ≡ after_loop → n.stop_requested ≡ true)
      → (n.stop_requested ≡ true → n.udp.running ≡ false)
      → IsOrderly (record p { node = n; http_at = place })
  placed p place n live o open_end asked told = record {
    waits = o.waits;
    unfinished = open_end;
    asked = asked;
    told = told;
    code = λ c. absurd (c live);
  }

  request_step-IsOrderly :
      (fuel : ℕ) (p q : Process S) (r : Request)
      → p.exit_code ≡ none
      → request_step clock blacklist fuel p r ≡ some q
      → IsOrderly p
      → IsOrderly q
  unfolding request_step
  request_step-IsOrderly fuel p q r live h o =
      elim (Option-cases (Http.handle clock fuel p.node r)) [
        | inl out ↦ absurd (ground arith)
        | inr ((n, text), e) ↦ subst IsOrderly (ground arith) (
            placed p (if n.listening then in_listen else at_test) n live o (ground arith)
              (λ behind. ground arith)
              (λ asked. ground (arith, handle-flags fuel p.node n r text e, o.told)))
      ]

  http_step-IsOrderly :
      (fuel : ℕ) (place : HttpPlace) (p q : Process S) (move : Move)
      → p.http_at ≡ place
      → is_throw move ≡ false
      → p.exit_code ≡ none
      → http_step clock blacklist fuel place p move ≡ some q
      → IsOrderly p
      → IsOrderly q
  unfolding http_step
  http_step-IsOrderly fuel in_listen p q (requests r) at calm live h o =
      request_step-IsOrderly fuel p q r live h o
  http_step-IsOrderly fuel at_test p q http_tests at calm live h o =
      elim (Bool-cases p.node.stop_requested) [
        | inl asked ↦
            subst IsOrderly (ground arith)
              (placed p after_loop p.node live o (λ f. cc) (λ f. asked) o.told)
        | inr not_asked ↦
            let n : Node S = record p.node { listening = true } in
            subst IsOrderly {x = record p { node = n; http_at = in_listen }} (ground arith)
              (placed p in_listen n live o (λ f. cc) (λ f. cc) o.told)
      ]
  http_step-IsOrderly fuel in_listen p q listen_fails at calm live h o =
      let n : Node S = record p.node { listening = false } in
      subst IsOrderly {x = record p { node = n; http_at = at_test }} (ground arith)
        (placed p at_test n live o (λ f. cc) (λ f. cc) o.told)
  http_step-IsOrderly fuel in_listen p q listen_throws at calm live h o = cc
  http_step-IsOrderly fuel after_loop p q http_exits at calm live h o =
      subst IsOrderly {x = record p { exit_code = some 0 }} (ground arith) (record {
        waits = o.waits;
        unfinished = o.unfinished;
        asked = o.asked;
        told = o.told;
        code = λ c. (refl, at);
      })
  http_step-IsOrderly fuel place p q move at calm live h o = subst IsOrderly (ground arith) o

  sessions-IsOrderly :
      (p : Process S) (m : Manager S)
      → IsOrderly p
      → IsOrderly (record p { node = record p.node { sessions = m } })
  sessions-IsOrderly p m o = record {
    waits = o.waits;
    unfinished = o.unfinished;
    asked = o.asked;
    told = o.told;
    code = o.code;
  }

  main_step-waits : (p : Process S) → p.http_at ≢ finished → main_step joins_http p ≡ p
  unfolding main_step
  main_step-waits p h = ground arith

  live_step-IsOrderly :
      (fuel : ℕ) (p q : Process S) (move : Move)
      → is_throw move ≡ false
      → p.exit_code ≡ none
      → live_step clock blacklist fuel p move ≡ some q
      → IsOrderly p
      → IsOrderly q
  unfolding live_step
  live_step-IsOrderly fuel p q (udp e) calm live h o = subst IsOrderly (ground arith) (
      placed p p.http_at (udp_step clock blacklist p.node e) live o o.unfinished
        (λ behind. ground (arith, udp_step-flags p.node e, o.asked))
        (λ asked. ground (arith, udp_step-flags p.node e, o.told)))
  live_step-IsOrderly fuel p q cleans calm live h o =
      subst IsOrderly (ground arith) (sessions-IsOrderly p (cleaner_pass clock p.node.sessions) o)
  live_step-IsOrderly fuel p q writes_out calm live h o =
      let m = p.node.sessions in
      subst IsOrderly (ground arith)
        (sessions-IsOrderly p (after_round clock m (writer_round m.cdr)) o)
  live_step-IsOrderly fuel p q main_goes calm live h o =
      subst IsOrderly (ground (arith, main_step-waits p o.unfinished)) o
  live_step-IsOrderly fuel p q http_tests calm live h o =
      http_step-IsOrderly fuel p.http_at p q http_tests refl calm live h o
  live_step-IsOrderly fuel p q listen_fails calm live h o =
      http_step-IsOrderly fuel p.http_at p q listen_fails refl calm live h o
  live_step-IsOrderly fuel p q listen_throws calm live h o = cc
  live_step-IsOrderly fuel p q (requests r) calm live h o =
      http_step-IsOrderly fuel p.http_at p q (requests r) refl calm live h o
  live_step-IsOrderly fuel p q http_exits calm live h o =
      http_step-IsOrderly fuel p.http_at p q http_exits refl calm live h o

  run-IsOrderly :
      (fuel : ℕ) (p q : Process S) (moves : List Move)
      → All (λ move. is_throw move ≡ false) moves
      → run clock blacklist fuel p moves ≡ some q
      → IsOrderly p
      → IsOrderly q
  unfolding run step
  run-IsOrderly fuel p q [] calm h o = subst IsOrderly (ground arith) o
  run-IsOrderly fuel p q (move ∷ moves) (calm, rest) h o = elim (Option-cases p.exit_code) [
    | inl live ↦ elim (Option-cases (live_step clock blacklist fuel p move)) [
      | inl out ↦ absurd (ground arith)
      | inr (p', e) ↦
          run-IsOrderly fuel p' q moves rest (ground arith)
            (live_step-IsOrderly fuel p p' move calm live e o)
    ]
    | inr (code, e) ↦ run-IsOrderly fuel p q moves rest (ground arith) o
  ]

  -- From the start, on every run in which requests and passes of the cleaner go through at once
  -- and no listening throws, if the process has exited, then with code 0, after /stop was handled
  -- and the UDP server was told to stop, and with the main thread still waiting for the HTTP
  -- thread.
  pub process_exit :
      (fuel : ℕ) (n : Node S) (q : Process S) (moves : List Move) (code : ℕ)
      → n.stop_requested ≡ false
      → All (λ move. is_throw move ≡ false) moves
      → run clock blacklist fuel (started n) moves ≡ some q
      → q.exit_code ≡ some code
      → (code ≡ 0)
        × (q.node.stop_requested ≡ true)
        × (q.node.udp.running ≡ false)
        × (q.main_at ≡ joins_http)
  process_exit fuel n q moves code fresh calm h e =
      let o = run-IsOrderly fuel (started n) q moves calm h (record {
        waits = refl;
        unfinished = λ f. cc;
        asked = λ f. cc;
        told = λ s. cc;
        code = λ c. absurd (c refl);
      }) in
      let (zero_code, behind) = o.code (λ f. cc) in
      (ground arith, o.asked behind, o.told (o.asked behind), o.waits)
