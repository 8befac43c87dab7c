-- ===== src/Threads/Covering.antt =====
-- The call records along an interleaving of the threads.
use mini_pgw.Prelude.{
  ℕ, zero, suc, ◌≡◌, refl, subst, List, [], ◌∷◌, ◌++◌, arith, append-nil, append_assoc, Bool-cases,
  Option-cases, inl, inr,
}
use mini_pgw.Text.{Text}
use mini_pgw.Bcd.{decode, received}
use mini_pgw.Blacklist.{Blacklist, is_blocked}
use mini_pgw.Store.{SessionStore, StoreLaws}
use mini_pgw.Cdr.{CdrRecord, Round, waits, ends, writes, writer_round}
use mini_pgw.Cdr.Drain.{writer_round-Logged}
use mini_pgw.Udp
use mini_pgw.Udp.EndToEnd.{handle_lem}
use mini_pgw.Manager.{Clock, Manager, is_active, touch_session}
use mini_pgw.Manager.Activity.{IsSteady}
use mini_pgw.Manager.Accounts.Run.{after_round}
use mini_pgw.Race
use mini_pgw.Race.{Cleaner, System, between, clean_step, offload_step}
use mini_pgw.Race.Covered.{Covered, later}
use mini_pgw.Race.Completeness.{step-Covered, clean-Covered, offload-Covered}
use mini_pgw.Http.{Node, Request, handle_check}
use mini_pgw.Process.{HttpPlace, MainPlace, at_test, in_listen, after_loop, udp_step}
use mini_pgw.Threads.{
  Threads, Handler, looks, offloads, chosen, closes, Move, udp, http_tests, listen_returns,
  listen_throws, requests, handler_goes, http_exits, cleans, writes_out, main_goes, handler_step,
  handlers_step, accept, server_step, join_step, cleaner_step, thread_step, step, run,
}

-- A manager and the cleaner, as the part of Race.
abbrev pub system : {S : SessionStore} → Manager S → Cleaner → System S
system m c = record { sessions = m; cleaner = c; offloader = between }

module _ {S : SessionStore} (L : StoreLaws S) (clock : Clock) (blacklist : Blacklist) where
  abbrev pub Longer : List CdrRecord → Manager S → Cleaner → Type 0
  Longer log m c = (new : List CdrRecord) × Covered L clock (system m c) (log ++ new)

  same :
      (m : Manager S) (c : Cleaner) {log : List CdrRecord}
      → Covered L clock (system m c) log
      → Longer log m c
  same m c v = ([], rw append-nil v)

  read-Covered :
      (m : Manager S) (c : Cleaner) {log : List CdrRecord}
      → Covered L clock (system m c) log
      → Covered L clock (system (record m { reads = suc m.reads }) c) log
  read-Covered m c v = record {
    valid = v.valid;
    logged = v.logged;
    lasting = v.lasting;
    behind = later L clock c v.behind (omega arith);
    covered = v.covered;
  }

  round-Covered :
      (m : Manager S) (c : Cleaner) (r : Round) {log : List CdrRecord}
      → Covered L clock (system m c) log
      → writer_round m.cdr ≡ r
      → Covered L clock (system (after_round clock m r) c) log
  unfolding after_round
  round-Covered m c waits v e = v
  round-Covered m c ends v e = v
  round-Covered m c (writes w) v e = record {
    valid = v.valid;
    logged = writer_round-Logged e v.logged;
    lasting = v.lasting;
    behind = v.behind;
    covered = v.covered;
  }

  touch-Covered :
      (m : Manager S) (c : Cleaner) (imsi : Text) {log : List CdrRecord}
      → IsSteady clock
      → Covered L clock (system m c) log
      → Longer log (touch_session clock m imsi).0 c
  touch-Covered m c imsi steady v =
      unfold Race.step in step-Covered L clock (system m c) (Race.touches imsi) steady v

  datagram-Covered :
      (m : Manager S) (c : Cleaner) (packet : List ℕ) {log : List CdrRecord}
      → IsSteady clock
      → Covered L clock (system m c) log
      → Longer log (Udp.handle clock blacklist m packet).0 c
  datagram-Covered m c [] steady v = unfold Udp.handle in same m c v
  datagram-Covered m c (b ∷ packet) {log} steady v =
      elim (Bool-cases (is_blocked blacklist (decode (received (b ∷ packet))))) [
        | inl yes_b ↦ rw (handle_lem clock blacklist m (b ∷ packet) (λ e. cc), yes_b) (same m c v)
        | inr no_b ↦
            rw (handle_lem clock blacklist m (b ∷ packet) (λ e. cc), no_b)
              (touch-Covered m c (decode (received (b ∷ packet))) steady v)
      ]

  udp_at-Covered :
      (place : Udp.Place) (u : Udp.UdpServer) (m : Manager S) (c : Cleaner) (e : Udp.Event)
      {log : List CdrRecord}
      → IsSteady clock
      → Covered L clock (system m c) log
      → Longer log (Udp.step_at clock blacklist place u m e).1 c
  unfolding Udp.step_at
  udp_at-Covered Udp.in_recvfrom u m c (Udp.arrives packet) steady v =
      datagram-Covered m c packet steady v
  udp_at-Covered place u m c Udp.stops steady v = same m c v
  udp_at-Covered Udp.at_test u m c Udp.tests steady v = same m c v
  udp_at-Covered Udp.in_recvfrom u m c Udp.fails steady v = same m c v
  udp_at-Covered _ u m c _ steady v = same m c v

  udp_step-Covered :
      (n : Node S) (c : Cleaner) (e : Udp.Event) {log : List CdrRecord}
      → IsSteady clock
      → Covered L clock (system n.sessions c) log
      → Longer log (udp_step clock blacklist n e).sessions c
  unfolding udp_step
  udp_step-Covered n c Udp.stops steady v = same n.sessions c v
  udp_step-Covered n c Udp.tests steady v =
      udp_at-Covered n.udp.place n.udp n.sessions c Udp.tests steady v
  udp_step-Covered n c Udp.fails steady v =
      udp_at-Covered n.udp.place n.udp n.sessions c Udp.fails steady v
  udp_step-Covered n c (Udp.arrives packet) steady v =
      udp_at-Covered n.udp.place n.udp n.sessions c (Udp.arrives packet) steady v

  handler_step-Covered :
      (n : Node S) (h : Handler) (c : Cleaner) {log : List CdrRecord}
      → Covered L clock (system n.sessions c) log
      → Longer log (handler_step clock n h).0.sessions c
  unfolding handler_step
  handler_step-Covered n looks c v = same _ c (read-Covered n.sessions c v)
  handler_step-Covered n (offloads zero) c v = same n.sessions c v
  handler_step-Covered n (offloads (suc left)) c v = same _ c (read-Covered n.sessions c v)
  handler_step-Covered n (chosen left imsi) c v =
      unfold offload_step in
      (let (new, w) = offload-Covered L clock (system n.sessions c) (Race.chosen imsi) v in
        (
          new,
          record {
            valid = w.valid;
            logged = w.logged;
            lasting = w.lasting;
            behind = w.behind;
            covered = w.covered;
          },
        ))
  handler_step-Covered n closes c v = same n.sessions c v

  handlers_step-Covered :
      (n : Node S) (handlers : List Handler) (i : ℕ) (c : Cleaner) {log : List CdrRecord}
      → Covered L clock (system n.sessions c) log
      → Longer log (handlers_step clock n handlers i).0.sessions c
  unfolding handlers_step
  handlers_step-Covered n [] i c v = same n.sessions c v
  handlers_step-Covered n (h ∷ handlers) zero c v = handler_step-Covered n h c v
  handlers_step-Covered n (h ∷ handlers) (suc i) c v = handlers_step-Covered n handlers i c v

  abbrev Kept : List CdrRecord → Threads S → Type 0
  Kept log t = Longer log t.node.sessions t.cleaner

  accept-Covered :
      (t : Threads S) (r : Request) {log : List CdrRecord}
      → Covered L clock (system t.node.sessions t.cleaner) log
      → Kept log (accept clock t r)
  unfolding accept handle_check is_active
  accept-Covered t (Request.check_subscriber imsi) v =
      same _ t.cleaner (read-Covered t.node.sessions t.cleaner v)
  accept-Covered t Request.stop v = same t.node.sessions t.cleaner v
  accept-Covered t Request.test v = same t.node.sessions t.cleaner v
  accept-Covered t Request.other v = same t.node.sessions t.cleaner v

  abbrev AsBefore : Threads S → Threads S → Type 0
  AsBefore t t' = (t'.node.sessions ≡ t.node.sessions) × (t'.cleaner ≡ t.cleaner)

  kept :
      (t t' : Threads S) {log : List CdrRecord}
      → Covered L clock (system t.node.sessions t.cleaner) log
      → AsBefore t t'
      → Kept log t'
  kept t t' v (e, f) = rw (e, f) (same t.node.sessions t.cleaner v)

  server_step-Covered :
      (place : HttpPlace) (t : Threads S) (move : Move) {log : List CdrRecord}
      → Covered L clock (system t.node.sessions t.cleaner) log
      → Kept log (server_step clock place t move)
  unfolding server_step
  server_step-Covered in_listen t (requests r) v = accept-Covered t r v
  server_step-Covered at_test t http_tests v =
      kept t (server_step clock at_test t http_tests) v (ground arith)
  server_step-Covered in_listen t listen_returns v = same t.node.sessions t.cleaner v
  server_step-Covered in_listen t listen_throws v = same t.node.sessions t.cleaner v
  server_step-Covered after_loop t http_exits v = same t.node.sessions t.cleaner v
  server_step-Covered place t move v = kept t (server_step clock place t move) v (ground arith)

  join_step-AsBefore : (place : MainPlace) (t : Threads S) → AsBefore t (join_step clock place t)
  unfolding join_step
  join_step-AsBefore place t = ground arith

  cleaner_step-Covered :
      (t : Threads S) {log : List CdrRecord}
      → Covered L clock (system t.node.sessions t.cleaner) log
      → Kept log (cleaner_step clock t)
  unfolding cleaner_step
  cleaner_step-Covered t v =
      let (new, w) = clean-Covered L clock (system t.node.sessions t.cleaner) t.cleaner refl v in
      (
        new,
        record {
          valid = w.valid;
          logged = w.logged;
          lasting = w.lasting;
          behind = w.behind;
          covered = w.covered;
        },
      )

  thread_step-Covered :
      (t : Threads S) (move : Move) {log : List CdrRecord}
      → IsSteady clock
      → Covered L clock (system t.node.sessions t.cleaner) log
      → Kept log (thread_step clock blacklist t move)
  unfolding thread_step
  thread_step-Covered t (udp e) steady v = udp_step-Covered t.node t.cleaner e steady v
  thread_step-Covered t cleans steady v = cleaner_step-Covered t v
  thread_step-Covered t writes_out steady v =
      same _ t.cleaner (round-Covered t.node.sessions t.cleaner _ v refl)
  thread_step-Covered t main_goes steady v =
      kept t (join_step clock t.main_at t) v (join_step-AsBefore t.main_at t)
  thread_step-Covered t (handler_goes i) steady v =
      handlers_step-Covered t.node t.handlers i t.cleaner v
  thread_step-Covered t http_tests steady v = server_step-Covered t.http_at t http_tests v
  thread_step-Covered t listen_returns steady v = server_step-Covered t.http_at t listen_returns v
  thread_step-Covered t listen_throws steady v = server_step-Covered t.http_at t listen_throws v
  thread_step-Covered t (requests r) steady v = server_step-Covered t.http_at t (requests r) v
  thread_step-Covered t http_exits steady v = server_step-Covered t.http_at t http_exits v

  step-Kept :
      (t : Threads S) (move : Move) {log : List CdrRecord}
      → IsSteady clock
      → Covered L clock (system t.node.sessions t.cleaner) log
      → Kept log (step clock blacklist t move)
  unfolding step
  step-Kept t move {log} steady v = elim (Option-cases t.exit_code) [
    | inl live ↦
        subst (Kept log) {x = thread_step clock blacklist t move} {y = step clock blacklist t move}
          (ground arith) (thread_step-Covered t move steady v)
    | inr (code, e) ↦ kept t (step clock blacklist t move) v (ground arith)
  ]

  pub threads-Covered :
      (t : Threads S) (moves : List Move) {log : List CdrRecord}
      → IsSteady clock
      → Covered L clock (system t.node.sessions t.cleaner) log
      → Kept log (run clock blacklist t moves)
  unfolding run
  threads-Covered t [] steady v = same t.node.sessions t.cleaner v
  threads-Covered t (move ∷ moves) {log} steady v =
      let (new, w) = step-Kept t move steady v in
      let (more, u) = threads-Covered (step clock blacklist t move) moves steady w in
      (new ++ more, subst (Covered L clock _) (append_assoc log new more) u)
