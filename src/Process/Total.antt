-- ===== src/Process/Total.antt =====
-- Fuel for the runs of the process.
use mini_pgw.Prelude.{
  ℕ, suc, ◌+◌, ◌≤◌, ◌≡◌, refl, sym, subst, true, List, [], ◌∷◌, Option, some, arith, if◌then◌else◌,
  Bool-cases, Option-cases, inl, inr, length,
}
use mini_pgw.Text.{Text, bytes}
use mini_pgw.Cdr.{writer_round}
use mini_pgw.Blacklist.{Blacklist}
use mini_pgw.Store.{SessionStore, StoreLaws}
use mini_pgw.Manager.{Clock, is_active}
use mini_pgw.Manager.Activity.{IsSteady}
use mini_pgw.Manager.Shutdown.{graceful_stop_keeps}
use mini_pgw.Http
use mini_pgw.Http.{Node, Request}
use mini_pgw.Http.Stop.{handle-stop, handle-stop_sessions}
use mini_pgw.Process.{
  Process, HttpPlace, at_test, in_listen, after_loop, Move, udp, http_tests, listen_fails,
  listen_throws, requests, http_exits, cleans, writes_out, main_goes, main_step, request_step,
  http_step, live_step, step, run,
}
use mini_pgw.Process.Books.{main_step-node}
use mini_pgw.Process.Fits.{Fits, Fits-suc, udp_step-Fits, cleaner-Fits, after_round-Fits}

module _ {S : SessionStore} (L : StoreLaws S) (clock : Clock) (blacklist : Blacklist) where
  -- Every request is answered.
  http-Fits :
      {k : ℕ} (fuel rate : ℕ) (n : Node S) (r : Request)
      → n.graceful_rate ≡ suc rate
      → IsSteady clock
      → k + 2 ≤ fuel
      → Fits L clock blacklist k n.sessions
      → (n' : Node S) × (text : Text) × (Http.handle clock fuel n r ≡ some (n', text))
        × Fits L clock blacklist k n'.sessions
        × (n'.graceful_rate ≡ suc rate)
  unfolding Http.handle Http.handle_check is_active
  http-Fits fuel rate n (Request.check_subscriber imsi) r steady enough f =
      (_, _, refl, record { valid = f.valid; small = f.small }, r)
  http-Fits fuel rate n Request.test r steady enough f = (n, _, refl, f, r)
  http-Fits fuel rate n Request.other r steady enough f = (n, _, refl, f, r)
  http-Fits {k} fuel rate n Request.stop r steady enough f =
      let (n', e, down) =
        handle-stop L clock fuel rate n r steady f.valid (omega (arith, f.small)) in
      let (stopped, same) = handle-stop_sessions L clock fuel n n' (bytes "shutting down") e in
      let (v, le) =
        graceful_stop_keeps L clock fuel n.graceful_rate n.sessions n'.sessions stopped f.valid in
      (n', bytes "shutting down", e, record { valid = v; small = omega (arith, f.small) }, cc)

  -- The process goes on with at most `k` sessions and the positive rate that it has.
  pub record Serves (k rate : ℕ) (p : Process S) : Type 0 where
    pub fits : Fits L clock blacklist k p.node.sessions
    pub rated : p.node.graceful_rate ≡ suc rate

  abbrev GoesOn : ℕ → ℕ → Option (Process S) → Type 0
  GoesOn k rate o = (q : Process S) × (o ≡ some q) × Serves k rate q

  Serves-suc : {k rate : ℕ} {p : Process S} → Serves k rate p → Serves (suc k) rate p
  Serves-suc s = record { fits = Fits-suc L clock blacklist s.fits; rated = s.rated }

  request_step-GoesOn :
      {k rate : ℕ} (fuel : ℕ) (p : Process S) (r : Request)
      → IsSteady clock
      → k + 2 ≤ fuel
      → Serves k rate p
      → GoesOn (suc k) rate (request_step clock blacklist fuel p r)
  unfolding request_step
  request_step-GoesOn {k} {rate} fuel p r steady enough s =
      let (n, text, e, f, rated) = http-Fits fuel rate p.node r s.rated steady enough s.fits in
      let q : Process S = record p {
        node = n;
        http_at = if n.listening then in_listen else at_test;
      } in
      (q, ground arith, record { fits = Fits-suc L clock blacklist f; rated = rated })

  http_step-GoesOn :
      {k rate : ℕ} (fuel : ℕ) (place : HttpPlace) (p : Process S) (move : Move)
      → IsSteady clock
      → k + 2 ≤ fuel
      → Serves k rate p
      → GoesOn (suc k) rate (http_step clock blacklist fuel place p move)
  unfolding http_step
  http_step-GoesOn fuel in_listen p (requests r) steady enough s =
      request_step-GoesOn fuel p r steady enough s
  http_step-GoesOn fuel at_test p http_tests steady enough s =
      elim (Bool-cases p.node.stop_requested) [
        | inl asked ↦ (
          record p { http_at = after_loop },
          ground arith,
          record { fits = Fits-suc L clock blacklist s.fits; rated = s.rated },
        )
        | inr not_asked ↦ (
          record p { http_at = in_listen; node = record p.node { listening = true } },
          ground arith,
          record { fits = Fits-suc L clock blacklist s.fits; rated = s.rated },
        )
      ]
  http_step-GoesOn fuel in_listen p listen_fails steady enough s =
      (_, refl, record { fits = Fits-suc L clock blacklist s.fits; rated = s.rated })
  http_step-GoesOn fuel in_listen p listen_throws steady enough s =
      (_, refl, record { fits = Fits-suc L clock blacklist s.fits; rated = s.rated })
  http_step-GoesOn fuel after_loop p http_exits steady enough s =
      (_, refl, record { fits = Fits-suc L clock blacklist s.fits; rated = s.rated })
  http_step-GoesOn fuel place p move steady enough s =
      (_, refl, record { fits = Fits-suc L clock blacklist s.fits; rated = s.rated })

  live_step-GoesOn :
      {k rate : ℕ} (fuel : ℕ) (p : Process S) (move : Move)
      → IsSteady clock
      → k + 2 ≤ fuel
      → Serves k rate p
      → GoesOn (suc k) rate (live_step clock blacklist fuel p move)
  unfolding live_step
  live_step-GoesOn {k} {rate} fuel p (udp e) steady enough s =
      let (f, same) = udp_step-Fits L clock blacklist p.node e s.fits in
      (_, refl, record { fits = f; rated = cc })
  live_step-GoesOn fuel p cleans steady enough s = (
    _,
    refl,
    record { fits = cleaner-Fits L clock blacklist p.node.sessions s.fits; rated = s.rated },
  )
  live_step-GoesOn fuel p writes_out steady enough s = (
    _,
    refl,
    record {
      fits =
          after_round-Fits L clock blacklist p.node.sessions (writer_round p.node.sessions.cdr)
            s.fits;
      rated = s.rated;
    },
  )
  live_step-GoesOn {k} {rate} fuel p main_goes steady enough s =
      let same = main_step-node p.main_at p in
      (
        main_step p.main_at p,
        refl,
        record {
          fits =
              subst (λ (n : Node S). Fits L clock blacklist (suc k) n.sessions) (sym same)
                (Fits-suc L clock blacklist s.fits);
          rated = subst (λ (n : Node S). n.graceful_rate ≡ suc rate) (sym same) s.rated;
        },
      )
  live_step-GoesOn fuel p http_tests steady enough s =
      http_step-GoesOn fuel p.http_at p http_tests steady enough s
  live_step-GoesOn fuel p listen_fails steady enough s =
      http_step-GoesOn fuel p.http_at p listen_fails steady enough s
  live_step-GoesOn fuel p listen_throws steady enough s =
      http_step-GoesOn fuel p.http_at p listen_throws steady enough s
  live_step-GoesOn fuel p (requests r) steady enough s =
      http_step-GoesOn fuel p.http_at p (requests r) steady enough s
  live_step-GoesOn fuel p http_exits steady enough s =
      http_step-GoesOn fuel p.http_at p http_exits steady enough s

  step-GoesOn :
      {k rate : ℕ} (fuel : ℕ) (p : Process S) (move : Move)
      → IsSteady clock
      → k + 2 ≤ fuel
      → Serves k rate p
      → GoesOn (suc k) rate (step clock blacklist fuel p move)
  unfolding step
  step-GoesOn fuel p move steady enough s = elim (Option-cases p.exit_code) [
    | inl live ↦
        let (q, e, s') = live_step-GoesOn fuel p move steady enough s in (q, ground arith, s')
    | inr (code, e) ↦ (p, ground arith, Serves-suc s)
  ]

  -- On a steady clock, from a valid store of at most k sessions and with a positive shutdown rate,
  -- fuel of k, two and the number of steps is enough for any run of the threads in which requests,
  -- /stop included, and passes of the cleaner go through at once: no request hangs, and at the end
  -- there are at most as many sessions more as there were steps.
  pub process-GoesOn :
      (fuel rate : ℕ) (k : ℕ) (p : Process S) (moves : List Move)
      → IsSteady clock
      → k + length moves + 2 ≤ fuel
      → Serves k rate p
      → (q : Process S) × (run clock blacklist fuel p moves ≡ some q)
        × Serves (k + length moves) rate q
  unfolding run
  process-GoesOn fuel rate k p [] steady enough s = (
    p,
    refl,
    record {
      fits = record { valid = s.fits.valid; small = omega (arith, s.fits.small) };
      rated = s.rated;
    },
  )
  process-GoesOn fuel rate k p (move ∷ moves) steady enough s =
      let (p', e, s') = step-GoesOn fuel p move steady (omega arith) s in
      let (q, e', t) = process-GoesOn fuel rate (suc k) p' moves steady (omega arith) s' in
      (
        q,
        ground arith,
        record {
          fits = record { valid = t.fits.valid; small = omega (arith, t.fits.small) };
          rated = t.rated;
        },
      )
