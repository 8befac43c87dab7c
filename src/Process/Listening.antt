-- ===== src/Process/Listening.antt =====
-- The loop of `run_server` on a port that it cannot have, and `HttpApi::stop`.
use mini_pgw.Prelude.{
  ℕ, zero, suc, ◌≡◌, refl, ◌∙◌, false, List, [], ◌∷◌, none, some, arith, Option-cases, inl, inr,
}
use mini_pgw.Text.{Text}
use mini_pgw.Blacklist.{Blacklist}
use mini_pgw.Store.{SessionStore}
use mini_pgw.Udp
use mini_pgw.Manager.{Clock, graceful_stop}
use mini_pgw.Http
use mini_pgw.Http.{Node, Request, stop_api}
use mini_pgw.Process.{
  Process, at_test, Move, http_tests, listen_fails, http_step, live_step, step, run,
}

-- Rounds of the loop in which `listen` fails.
abbrev pub refusals : ℕ → List Move
refusals zero = []
refusals (suc k) = http_tests ∷ listen_fails ∷ refusals k

module _ {S : SessionStore} (clock : Clock) (blacklist : Blacklist) where
  refused_round :
      (fuel : ℕ) (p : Process S) (moves : List Move)
      → p.exit_code ≡ none
      → p.http_at ≡ at_test
      → p.node.stop_requested ≡ false
      → p.node.listening ≡ false
      → run clock blacklist fuel p (http_tests ∷ listen_fails ∷ moves)
        ≡ run clock blacklist fuel p moves
  unfolding run step live_step http_step
  refused_round fuel p moves live at calm deaf = ground arith

  -- A process whose port cannot be had, and of which /stop was not requested, is after any number
  -- of rounds of the listening loop where it was before: the loop neither ends nor changes
  -- anything.
  pub process_spins :
      (fuel k : ℕ) (p : Process S)
      → p.exit_code ≡ none
      → p.http_at ≡ at_test
      → p.node.stop_requested ≡ false
      → p.node.listening ≡ false
      → run clock blacklist fuel p (refusals k) ≡ some p
  process_spins fuel zero p live at calm deaf = unfold run in refl
  process_spins fuel (suc k) p live at calm deaf =
      refused_round fuel p (refusals k) live at calm deaf ∙ process_spins fuel k p live at calm deaf

module _ {S : SessionStore} (clock : Clock) where
  -- After a call of HttpApi::stop every request is answered as before it, with the same text and
  -- the same effect.
  pub handle-stop_api :
      (fuel : ℕ) (n n' : Node S) (r : Request) (text : Text)
      → Http.handle clock fuel n r ≡ some (n', text)
      → Http.handle clock fuel (stop_api n) r ≡ some (stop_api n', text)
  unfolding Http.handle stop_api Udp.stop
  handle-stop_api fuel n n' (Request.check_subscriber imsi) text h = ground arith
  handle-stop_api fuel n n' Request.test text h = ground arith
  handle-stop_api fuel n n' Request.other text h = ground arith
  handle-stop_api fuel n n' Request.stop text h =
      elim (Option-cases (graceful_stop clock fuel n.graceful_rate n.sessions)) [
        | inl out ↦ absurd (ground arith)
        | inr (m', e) ↦ ground arith
      ]
