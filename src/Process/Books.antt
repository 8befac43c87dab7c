-- ===== src/Process/Books.antt =====
-- An account of the call records along a run of the process.
use mini_pgw.Prelude.{
  ℕ, suc, ◌≡◌, refl, subst, sym, List, [], ◌∷◌, some, arith, append-nil, Bool-cases, Option-cases,
  inl, inr,
}
use mini_pgw.Cdr.{CdrRecord, Round, waits, ends, writes, writer_round}
use mini_pgw.Bcd.{decode, received}
use mini_pgw.Blacklist.{Blacklist, is_blocked}
use mini_pgw.Store.{SessionStore}
use mini_pgw.Udp
use mini_pgw.Udp.EndToEnd.{handle_lem}
use mini_pgw.Manager.{Clock, Manager, is_active, graceful_stop}
use mini_pgw.Manager.Books.{Books, Longer, after, graceful_stop-Keeps}
use mini_pgw.Manager.Accounts.Run.{after_round}
use mini_pgw.Http
use mini_pgw.Http.{Node, Request, handle_check, handle_stop}
use mini_pgw.Process.{
  Process, HttpPlace, at_test, in_listen, after_loop, MainPlace, Move, udp, http_tests,
  listen_fails, listen_throws, requests, http_exits, cleans, writes_out, main_goes, main_step,
  udp_step, request_step, http_step, live_step, step, run,
}

pub main_step-node :
    {S : SessionStore} (place : MainPlace) (p : Process S) → (main_step place p).node ≡ p.node
unfolding main_step
main_step-node place p = ground arith

module _ {S : SessionStore} (clock : Clock) (books : Books S clock) (blacklist : Blacklist) where
  open books use {Keeps}

  same : (m : Manager S) {log : List CdrRecord} → Keeps m log → Longer Keeps log m
  same m a = ([], rw append-nil a)

  round-Keeps :
      (m : Manager S) (r : Round) {log : List CdrRecord}
      → Keeps m log
      → writer_round m.cdr ≡ r
      → Keeps (after_round clock m r) log
  unfolding after_round
  round-Keeps m waits a e = a
  round-Keeps m ends a e = a
  round-Keeps m (writes w) a e = books.pass_on m w a e

  datagram-Keeps :
      (m : Manager S) (packet : List ℕ) {log : List CdrRecord}
      → Keeps m log
      → Longer Keeps log (Udp.handle clock blacklist m packet).0
  datagram-Keeps m [] a = unfold Udp.handle in same m a
  datagram-Keeps m (b ∷ packet) {log} a =
      elim (Bool-cases (is_blocked blacklist (decode (received (b ∷ packet))))) [
        | inl yes_b ↦ rw (handle_lem clock blacklist m (b ∷ packet) (λ e. cc), yes_b) (same m a)
        | inr no_b ↦
            rw (handle_lem clock blacklist m (b ∷ packet) (λ e. cc), no_b)
              (books.touch m (received (b ∷ packet)) a)
      ]

  udp_at-Keeps :
      (place : Udp.Place) (u : Udp.UdpServer) (m : Manager S) (e : Udp.Event) {log : List CdrRecord}
      → Keeps m log
      → Longer Keeps log (Udp.step_at clock blacklist place u m e).1
  unfolding Udp.step_at
  udp_at-Keeps Udp.in_recvfrom u m (Udp.arrives packet) a = datagram-Keeps m packet a
  udp_at-Keeps place u m Udp.stops a = same m a
  udp_at-Keeps Udp.at_test u m Udp.tests a = same m a
  udp_at-Keeps Udp.in_recvfrom u m Udp.fails a = same m a
  udp_at-Keeps _ u m _ a = same m a

  udp_step-Keeps :
      (n : Node S) (e : Udp.Event) {log : List CdrRecord}
      → Keeps n.sessions log
      → Longer Keeps log (udp_step clock blacklist n e).sessions
  unfolding udp_step
  udp_step-Keeps n Udp.stops a = same n.sessions a
  udp_step-Keeps n Udp.tests a = udp_at-Keeps n.udp.place n.udp n.sessions Udp.tests a
  udp_step-Keeps n Udp.fails a = udp_at-Keeps n.udp.place n.udp n.sessions Udp.fails a
  udp_step-Keeps n (Udp.arrives packet) a =
      udp_at-Keeps n.udp.place n.udp n.sessions (Udp.arrives packet) a

  -- Every answer of the HTTP server.
  http-Keeps :
      (fuel : ℕ) (n n' : Node S) (r : Request) (text : List ℕ) {log : List CdrRecord}
      → Http.handle clock fuel n r ≡ some (n', text)
      → Keeps n.sessions log
      → Longer Keeps log n'.sessions
  unfolding Http.handle handle_check is_active
  http-Keeps fuel n n' (Request.check_subscriber imsi) text {log} h a =
      let m : Manager S = record n.sessions { reads = suc n.sessions.reads } in
      subst (Longer Keeps log) (ground arith) (same m (books.read n.sessions m.reads a))
  http-Keeps fuel n n' Request.stop text {log} h a =
      elim (Option-cases (graceful_stop clock fuel n.graceful_rate n.sessions)) [
        | inl out ↦ absurd (ground arith)
        | inr (m', e) ↦
            subst (Longer Keeps log) (ground arith)
              (graceful_stop-Keeps clock books fuel n.graceful_rate n.sessions m' e a)
      ]
  http-Keeps fuel n n' Request.test text {log} h a =
      subst (Longer Keeps log) (ground arith) (same n.sessions a)
  http-Keeps fuel n n' Request.other text {log} h a =
      subst (Longer Keeps log) (ground arith) (same n.sessions a)

  request_step-Keeps :
      (fuel : ℕ) (p q : Process S) (r : Request) {log : List CdrRecord}
      → request_step clock blacklist fuel p r ≡ some q
      → Keeps p.node.sessions log
      → Longer Keeps log q.node.sessions
  unfolding request_step
  request_step-Keeps fuel p q r {log} h a = elim (Option-cases (Http.handle clock fuel p.node r)) [
    | inl out ↦ absurd (ground arith)
    | inr ((n, text), e) ↦
        subst (Longer Keeps log) (ground arith) (http-Keeps fuel p.node n r text e a)
  ]

  -- A step of the HTTP thread that leaves the sessions alone.
  kept :
      (p q : Process S) {log : List CdrRecord}
      → Keeps p.node.sessions log
      → q.node.sessions ≡ p.node.sessions
      → Longer Keeps log q.node.sessions
  kept p q {log} a e = subst (Longer Keeps log) (sym e) (same p.node.sessions a)

  http_step-Keeps :
      (fuel : ℕ) (place : HttpPlace) (p q : Process S) (move : Move) {log : List CdrRecord}
      → http_step clock blacklist fuel place p move ≡ some q
      → Keeps p.node.sessions log
      → Longer Keeps log q.node.sessions
  unfolding http_step
  http_step-Keeps fuel in_listen p q (requests r) h a = request_step-Keeps fuel p q r h a
  http_step-Keeps fuel at_test p q http_tests h a = kept p q a (ground arith)
  http_step-Keeps fuel in_listen p q listen_fails h a = kept p q a (ground arith)
  http_step-Keeps fuel in_listen p q listen_throws h a = kept p q a (ground arith)
  http_step-Keeps fuel after_loop p q http_exits h a = kept p q a (ground arith)
  http_step-Keeps fuel place p q move h a = kept p q a (ground arith)

  live_step-Keeps :
      (fuel : ℕ) (p q : Process S) (move : Move) {log : List CdrRecord}
      → live_step clock blacklist fuel p move ≡ some q
      → Keeps p.node.sessions log
      → Longer Keeps log q.node.sessions
  unfolding live_step
  live_step-Keeps fuel p q (udp e) {log} h a =
      subst (Longer Keeps log) (ground arith) (udp_step-Keeps p.node e a)
  live_step-Keeps fuel p q cleans {log} h a =
      subst (Longer Keeps log) (ground arith) (books.clean p.node.sessions a)
  live_step-Keeps fuel p q writes_out {log} h a =
      let m = p.node.sessions in
      subst (Longer Keeps log) (ground arith) (same _ (round-Keeps m (writer_round m.cdr) a refl))
  live_step-Keeps fuel p q main_goes {log} h a =
      kept p q a (ground (arith, main_step-node p.main_at p))
  live_step-Keeps fuel p q http_tests h a = http_step-Keeps fuel p.http_at p q http_tests h a
  live_step-Keeps fuel p q listen_fails h a = http_step-Keeps fuel p.http_at p q listen_fails h a
  live_step-Keeps fuel p q listen_throws h a = http_step-Keeps fuel p.http_at p q listen_throws h a
  live_step-Keeps fuel p q (requests r) h a = http_step-Keeps fuel p.http_at p q (requests r) h a
  live_step-Keeps fuel p q http_exits h a = http_step-Keeps fuel p.http_at p q http_exits h a

  step-Keeps :
      (fuel : ℕ) (p q : Process S) (move : Move) {log : List CdrRecord}
      → step clock blacklist fuel p move ≡ some q
      → Keeps p.node.sessions log
      → Longer Keeps log q.node.sessions
  unfolding step
  step-Keeps fuel p q move h a = elim (Option-cases p.exit_code) [
    | inl none_e ↦ live_step-Keeps fuel p q move (ground arith) a
    | inr (code, e) ↦ kept p q a (ground arith)
  ]

  pub process-Keeps :
      (fuel : ℕ) (p q : Process S) (moves : List Move) {log : List CdrRecord}
      → run clock blacklist fuel p moves ≡ some q
      → Keeps p.node.sessions log
      → Longer Keeps log q.node.sessions
  unfolding run
  process-Keeps fuel p q [] h a = kept p q a (ground arith)
  process-Keeps fuel p q (move ∷ moves) {log} h a =
      elim (Option-cases (step clock blacklist fuel p move)) [
        | inl out ↦ absurd (ground arith)
        | inr (p', e) ↦
            let (new, a') = step-Keeps fuel p p' move e a in
            after clock books log new (process-Keeps fuel p' q moves (ground arith) a')
      ]
