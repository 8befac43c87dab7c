-- ===== src/Process/Loss.antt =====
-- The call records that are queued when `std::exit` ends the process.
use mini_pgw.Prelude.{
  ℕ, zero, suc, ◌+◌, ◌≤◌, ◌≡◌, refl, ap, sym, ◌∙◌, subst, true, false, List, [], ◌∷◌, ◌++◌, none,
  some, arith, List-cases, inl, inr, append-nil, append_assoc,
}
use mathlib.Core.Option.{some-injective}
use mini_pgw.Text.{Text, bytes}
use mini_pgw.Cdr.{CdrRecord, CdrWriter, write}
use mini_pgw.Cdr.Drain.{Logged}
use mini_pgw.Store.{StoredSession, SessionStore, StoreLaws}
use mini_pgw.Manager.{Clock, Manager, now_at, expire_session_locked, offload_rate, graceful_stop}
use mini_pgw.Manager.Activity.{IsSteady}
use mini_pgw.Manager.Shutdown.{load-nil_later}
use mini_pgw.Blacklist.{Blacklist}
use mini_pgw.Http.{Node, Request, handle}
use mini_pgw.Http.Stop.{handle-stop, handle-stop_sessions}
use mini_pgw.Process.{
  Process, in_listen, after_loop, requests, http_tests, http_exits, run, step, live_step, http_step,
  request_step,
}
use mini_pgw.Manager.Rounds.{
  offload_rate_done, offload_rate_more, graceful_stop_done, graceful_stop_more,
}

-- The writer after some more calls of `write`: the file is what it was.
pub record Queued (w w' : CdrWriter) (new : List CdrRecord) : Type 0 where
  pub queue : w'.queue ≡ w.queue ++ new
  pub file : w'.file ≡ w.file

Queued-nil : (w : CdrWriter) → Queued w w []
Queued-nil w = record { queue = sym (append-nil w.queue); file = refl }

Queued-trans :
    {v w u : CdrWriter} {new more : List CdrRecord}
    → Queued v w new
    → Queued w u more
    → Queued v u (new ++ more)
Queued-trans {v} {w} {u} {new} {more} a b = record {
  queue = b.queue ∙ ap (λ l. l ++ more) a.queue ∙ append_assoc v.queue new more;
  file = b.file ∙ a.file;
}

pub Queued-Logged :
    {w w' : CdrWriter} {log new : List CdrRecord}
    → Queued w w' new
    → Logged w log
    → Logged w' (log ++ new)
Queued-Logged {w} {w'} {log} {new} q l = record {
  done = l.done;
  split =
      ap (λ t. t ++ new) l.split
      ∙ append_assoc l.done w.queue new
      ∙ ap (λ t. l.done ++ t) (sym q.queue);
  kept = q.file ∙ l.kept;
}

module _ {S : SessionStore} (clock : Clock) where
  -- The record that an expiry queues.
  expire-Queued :
      (m : Manager S) (imsi : Text)
      → (rec : CdrRecord) × Queued m.cdr (expire_session_locked clock m imsi).cdr (rec ∷ [])
  unfolding expire_session_locked write
  expire-Queued m imsi = (_, record { queue = refl; file = refl })

  abbrev after_expiry : Manager S → StoredSession → Manager S
  after_expiry m s = expire_session_locked clock (record m { reads = suc m.reads }) s.imsi

  offload_rate-Queued :
      (left : ℕ) (m : Manager S)
      → (new : List CdrRecord) × Queued m.cdr (offload_rate clock left m).cdr new
  offload_rate-Queued zero m = ([], unfold offload_rate in Queued-nil m.cdr)
  offload_rate-Queued (suc left) m =
      elim (List-cases (S.load_sessions m.store (now_at clock m.reads))) [
        | inl e ↦ ([], rw (offload_rate_done clock left m e) (Queued-nil m.cdr))
        | inr (s, rest, e) ↦
            let (rec, q) = expire-Queued (record m { reads = suc m.reads }) s.imsi in
            let (more, q') = offload_rate-Queued left (after_expiry m s) in
            (rec ∷ more, rw (offload_rate_more clock left m s rest e) (Queued-trans q q'))
      ]

  -- An offload that finds a live session queues a record.
  offload_rate-Queued_live :
      (left : ℕ) (m : Manager S) (s : StoredSession) (rest : List StoredSession)
      → S.load_sessions m.store (now_at clock m.reads) ≡ s ∷ rest
      → (rec : CdrRecord) × (more : List CdrRecord) × Queued m.cdr
          (offload_rate clock (suc left) m).cdr
          (rec ∷ more)
  offload_rate-Queued_live left m s rest e =
      let (rec, q) = expire-Queued (record m { reads = suc m.reads }) s.imsi in
      let (more, q') = offload_rate-Queued left (after_expiry m s) in
      (rec, more, rw (offload_rate_more clock left m s rest e) (Queued-trans q q'))

  graceful_stop-Queued :
      (fuel rate : ℕ) (m m' : Manager S)
      → graceful_stop clock fuel rate m ≡ some m'
      → (new : List CdrRecord) × Queued m.cdr m'.cdr new
  graceful_stop-Queued zero rate m m' h = unfold graceful_stop in cc
  graceful_stop-Queued (suc fuel) rate m m' h =
      elim (List-cases (S.load_sessions m.store (now_at clock m.reads))) [
        | inl e ↦
            let same = some-injective _ _ (sym (graceful_stop_done clock fuel rate m e) ∙ h) in
            ([], subst (λ (k : Manager S). Queued m.cdr k.cdr []) same (Queued-nil m.cdr))
        | inr (s, rest, e) ↦
            let (new, q) = offload_rate-Queued rate (record m { reads = suc m.reads }) in
            let (more, q') =
              graceful_stop-Queued fuel rate
                (offload_rate clock rate (record m { reads = suc m.reads })) m'
                (sym (graceful_stop_more clock fuel rate m s rest e) ∙ h) in
            (new ++ more, Queued-trans q q')
      ]

module _ {S : SessionStore} (L : StoreLaws S) (clock : Clock) where
  -- At a positive rate, a session that is live at the second reading of the clock is recorded.
  graceful_stop-Queued_live :
      (fuel rate : ℕ) (m m' : Manager S) (s : StoredSession) (rest : List StoredSession)
      → IsSteady clock
      → L.IsValid m.store
      → S.load_sessions m.store (now_at clock (suc m.reads)) ≡ s ∷ rest
      → graceful_stop clock fuel (suc rate) m ≡ some m'
      → (rec : CdrRecord) × (more : List CdrRecord) × Queued m.cdr m'.cdr (rec ∷ more)
  graceful_stop-Queued_live zero rate m m' s rest steady v live h = unfold graceful_stop in cc
  graceful_stop-Queued_live (suc fuel) rate m m' s rest steady v live h =
      elim (List-cases (S.load_sessions m.store (now_at clock m.reads))) [
        | inl e ↦ absurd (cc (load-nil_later L clock m.store m.reads steady v e))
        | inr (s', rest', e) ↦
            let m1 : Manager S = record m { reads = suc m.reads } in
            let (rec, new, q) = offload_rate-Queued_live clock rate m1 s rest live in
            let (more, q') =
              graceful_stop-Queued clock fuel (suc rate) (offload_rate clock (suc rate) m1) m'
                (sym (graceful_stop_more clock fuel (suc rate) m s' rest' e) ∙ h) in
            (rec, new ++ more, Queued-trans q q')
      ]

  -- What the HTTP thread does when /stop has been handled.
  run-stop :
      (blacklist : Blacklist) (fuel : ℕ) (p : Process S) (n : Node S) (text : Text)
      → p.exit_code ≡ none
      → p.http_at ≡ in_listen
      → handle clock fuel p.node Request.stop ≡ some (n, text)
      → n.stop_requested ≡ true
      → n.listening ≡ false
      → run clock blacklist fuel p (requests Request.stop ∷ http_tests ∷ http_exits ∷ [])
        ≡ some (record p { node = n; http_at = after_loop; exit_code = some 0 })
  unfolding run step live_step http_step request_step
  run-stop blacklist fuel p n text live at e asked deaf = ground arith

  -- On a steady clock, with a positive rate, a valid store, enough fuel for its sessions, and a
  -- session that is live at the second reading of the clock, a listening process that handles
  -- /stop at once and then goes on to its end, the writer thread having no step in between, exits
  -- with code 0 when the log has grown by at least one record and the file of the call records has
  -- not changed: on that schedule those records are lost.
  pub process_stop-loses :
      (blacklist : Blacklist) (fuel rate : ℕ) (p : Process S) {log : List CdrRecord}
      (s : StoredSession) (rest : List StoredSession)
      → p.exit_code ≡ none
      → p.http_at ≡ in_listen
      → p.node.graceful_rate ≡ suc rate
      → IsSteady clock
      → L.IsValid p.node.sessions.store
      → L.size p.node.sessions.store + 2 ≤ fuel
      → Logged p.node.sessions.cdr log
      → S.load_sessions p.node.sessions.store (now_at clock (suc p.node.sessions.reads)) ≡ s ∷ rest
      → (q : Process S) × (rec : CdrRecord) × (more : List CdrRecord) × (run clock blacklist fuel p
            (requests Request.stop ∷ http_tests ∷ http_exits ∷ [])
          ≡ some q)
        × (q.exit_code ≡ some 0)
        × Logged q.node.sessions.cdr (log ++ rec ∷ more)
        × (q.node.sessions.cdr.file ≡ p.node.sessions.cdr.file)
  process_stop-loses blacklist fuel rate p {log} s rest live at r steady v enough l held =
      let (n, e, down) = handle-stop L clock fuel rate p.node r steady v enough in
      let stopped = (handle-stop_sessions L clock fuel p.node n (bytes "shutting down") e).0 in
      let (rec, more, q) =
        graceful_stop-Queued_live fuel rate p.node.sessions n.sessions s rest steady v held
          (subst (λ k. graceful_stop clock fuel k p.node.sessions ≡ some n.sessions) r stopped) in
      (
        record p { node = n; http_at = after_loop; exit_code = some 0 },
        rec,
        more,
        run-stop blacklist fuel p n (bytes "shutting down") live at e down.requested down.deaf,
        refl,
        Queued-Logged q l,
        q.file,
      )
