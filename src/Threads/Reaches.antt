-- ===== src/Threads/Reaches.antt =====
-- What steps of the threads lead to: a pass of the cleaner and a handler of /stop that no other thread
-- comes between.
use mini_pgw.Prelude.{
  ℕ, zero, suc, ◌≡◌, refl, ap, sym, ◌∙◌, List, [], ◌∷◌, ◌++◌, none, some, List-cases, inl, inr,
}
use mathlib.Core.Option.{some-injective}
use mini_pgw.Blacklist.{Blacklist}
use mini_pgw.Store.{StoredSession, SessionStore}
use mini_pgw.Manager.{
  Clock, Manager, now_at, expire_session_locked, offload_rate, graceful_stop, write_expired,
  cleaner_pass,
}
use mini_pgw.Manager.Rounds.{
  offload_rate_zero, offload_rate_done, offload_rate_more, graceful_stop_done, graceful_stop_more,
}
use mini_pgw.Race.{Cleaner, waiting, reporting, clean_step}
use mini_pgw.Http.{Node}
use mini_pgw.Process.{HttpPlace, in_listen, MainPlace}
use mini_pgw.Threads.{
  Threads, Handler, looks, offloads, chosen, closes, Move, handler_goes, cleans, handler_step,
  handlers_step, cleaner_step, thread_step, step, run,
}

abbrev pub busy :
    {S : SessionStore} → Node S → HttpPlace → MainPlace → Cleaner → List Handler → Threads S
busy n h g c handlers = record {
  node = n;
  http_at = h;
  main_at = g;
  exit_code = none;
  cleaner = c;
  handlers = handlers;
}

module _ {S : SessionStore} (clock : Clock) (blacklist : Blacklist) where
  -- Some steps of the threads lead from one state to the other.
  pub record Reaches (t u : Threads S) : Type 0 where
    pub moves : List Move
    pub leads : run clock blacklist t moves ≡ u

  pub stays : (t : Threads S) → Reaches t t
  unfolding run
  stays t = record { moves = []; leads = refl }

  pub then_on :
      {t u v : Threads S} (move : Move)
      → step clock blacklist t move ≡ u
      → Reaches u v
      → Reaches t v
  unfolding run
  then_on move e r = record {
    moves = move ∷ r.moves;
    leads = ap (λ w. run clock blacklist w r.moves) e ∙ r.leads;
  }

  pub one : {t u : Threads S} (move : Move) → step clock blacklist t move ≡ u → Reaches t u
  one {t} {u} move e = then_on move e (stays u)

  run-append :
      (t : Threads S) (xs ys : List Move)
      → run clock blacklist t (xs ++ ys) ≡ run clock blacklist (run clock blacklist t xs) ys
  unfolding run
  run-append t [] ys = refl
  run-append t (x ∷ xs) ys = run-append (step clock blacklist t x) xs ys

  pub onward : {t u v : Threads S} → Reaches t u → Reaches u v → Reaches t v
  onward {t} {u} {v} a b = record {
    moves = a.moves ++ b.moves;
    leads =
        run-append t a.moves b.moves ∙ ap (λ w. run clock blacklist w b.moves) a.leads ∙ b.leads;
  }

  module _ (n : Node S) (h : HttpPlace) (g : MainPlace) (handlers : List Handler) where
    -- The rest of a pass.
    reports :
        (i : ℕ) (sessions : List StoredSession) (m : Manager S)
        → Reaches (busy (record n { sessions = m }) h g (reporting i sessions) handlers) (
            busy
              (record n {
                sessions = record m {
                  cdr = write_expired (now_at clock i) sessions m.cdr;
                  store = S.cleanup_expired_sessions m.store (now_at clock i);
                };
              })
              h
              g
              waiting
              handlers)
    unfolding step thread_step cleaner_step clean_step write_expired
    reports i [] m = one cleans refl
    reports i (s ∷ sessions) m = then_on cleans refl (reports i sessions _)

    pub pass :
        Reaches
          (busy n h g waiting handlers)
          (busy (record n { sessions = cleaner_pass clock n.sessions }) h g waiting handlers)
    unfolding step thread_step cleaner_step clean_step cleaner_pass
    pass = then_on cleans refl (reports n.sessions.reads _ _)

  module _ (n : Node S) (g : MainPlace) (c : Cleaner) (handlers : List Handler) where
    -- In `graceful_stop`.
    abbrev stopping : Manager S → Handler → Threads S
    stopping m t = busy (record n { sessions = m }) in_listen g c (t ∷ handlers)

    goes :
        (m m' : Manager S) (t t' : Handler)
        → handler_step clock (record n { sessions = m }) t ≡ (record n { sessions = m' }, some t')
        → step clock blacklist (stopping m t) (handler_goes 0) ≡ stopping m' t'
    unfolding step thread_step handlers_step
    goes m m' t t' e = rw e refl

    offloading :
        (left : ℕ) (m : Manager S)
        → Reaches (stopping m (offloads left)) (stopping (offload_rate clock left m) looks)
    offloading zero m =
        rw (offload_rate_zero clock m)
          (one (handler_goes 0) (goes m m (offloads 0) looks (unfold handler_step in refl)))
    offloading (suc left) m =
        let m1 : Manager S = record m { reads = suc m.reads } in
        elim (List-cases (S.load_sessions m.store (now_at clock m.reads))) [
          | inl e ↦ rw (offload_rate_done clock left m e) (
              one (handler_goes 0)
                (goes m m1 (offloads (suc left)) looks (unfold handler_step in rw e refl)))
          | inr (s, rest, e) ↦ rw (offload_rate_more clock left m s rest e) (
              then_on (handler_goes 0)
                (goes m m1 (offloads (suc left)) (chosen left s.imsi)
                  (unfold handler_step in rw e refl))
                (then_on (handler_goes 0)
                  (goes m1 (expire_session_locked clock m1 s.imsi) (chosen left s.imsi)
                    (offloads left) (unfold handler_step in refl))
                  (offloading left (expire_session_locked clock m1 s.imsi))))
        ]

    pub stops :
        (fuel : ℕ) (m m' : Manager S)
        → graceful_stop clock fuel n.graceful_rate m ≡ some m'
        → Reaches (stopping m looks) (stopping m' closes)
    stops zero m m' h = unfold graceful_stop in cc
    stops (suc fuel) m m' h =
        let m1 : Manager S = record m { reads = suc m.reads } in
        elim (List-cases (S.load_sessions m.store (now_at clock m.reads))) [
          | inl e ↦ one (handler_goes 0) (
              goes m m' looks closes (
                unfold handler_step in
                rw e (
                  ap (λ (k : Manager S). (record n { sessions = k }, some closes))
                    (some-injective _ _
                      (sym (graceful_stop_done clock fuel n.graceful_rate m e) ∙ h)))))
          | inr (s, rest, e) ↦
              then_on (handler_goes 0)
                (goes m m1 looks (offloads n.graceful_rate) (unfold handler_step in rw e refl))
                (onward (offloading n.graceful_rate m1) (
                  stops fuel (offload_rate clock n.graceful_rate m1) m'
                    (sym (graceful_stop_more clock fuel n.graceful_rate m s rest e) ∙ h)))
        ]
