-- ===== src/Manager/Shutdown.antt =====
-- The graceful stop: when it ends, at a positive rate and at rate 0.
use mathlib.Core.Option.{some-injective}
use mini_pgw.Prelude.{
  ℕ, zero, suc, ◌+◌, ◌≤◌, ◌<◌, ◌≡◌, ◌≢◌, refl, ap, sym, subst, ◌∙◌, true, List, [], ◌∷◌, Option,
  none, some, arith, if◌then◌else◌, ltb, ◌⊎◌, inl, inr, List-cases, is_some,
}
use mini_pgw.Text.{Text}
use mini_pgw.Text.Order.{text_lt_trans, text_eq_refl}
use mini_pgw.Store.{StoredSession, SessionStore, StoreLaws, tally, one_if, passes, is_live}
use mini_pgw.Manager.{Clock, Manager, now_at, expire_session_locked, offload_rate, graceful_stop}
use mini_pgw.Manager.Rounds.{
  offload_rate_zero, offload_rate_done, offload_rate_more, graceful_stop_done, graceful_stop_more,
}
use mini_pgw.Manager.Activity.{IsSteady}
use mini_pgw.Manager.Accounts.Steps.{head-found}

-- On a steady clock a session that is live at a reading was live at the one before.
is_live-earlier :
    (clock : Clock) (i : ℕ) (s : StoredSession)
    → IsSteady clock
    → is_live (now_at clock (suc i)) s ≡ true
    → is_live (now_at clock i) s ≡ true
is_live-earlier clock i s steady h = ground (
  arith,
  steady.forward i,
  steady.ordered (clock.seconds i) (clock.seconds (suc i)),
  text_lt_trans (now_at clock i) (now_at clock (suc i)) s.expires_at,
)

tally-nil : (sessions : List StoredSession) → ((k : Text) → tally k sessions ≡ 0) → sessions ≡ []
tally-nil [] h = refl
tally-nil (s ∷ sessions) h = ground (arith, h s.imsi, text_eq_refl s.imsi)

none_within : {A : Type 0} (i : ℕ) (x : Option A) → none ≡ (if ltb i 0 then x else none)
none_within i x = ground arith

first_within : {A : Type 0} (n : ℕ) (x : Option A) → x ≡ (if ltb 0 (suc n) then x else none)
first_within n x = ground arith

next_within :
    {A : Type 0} (i n : ℕ) (x : Option A)
    → (if ltb i n then x else none) ≡ (if ltb (suc i) (suc n) then x else none)
next_within i n x = ground arith

module _ {S : SessionStore} (L : StoreLaws S) (clock : Clock) where
  -- With no live session at a reading there is none at the next.
  pub load-nil_later :
      (st : S.State) (i : ℕ)
      → IsSteady clock
      → L.IsValid st
      → S.load_sessions st (now_at clock i) ≡ []
      → S.load_sessions st (now_at clock (suc i)) ≡ []
  load-nil_later st i steady v e = tally-nil _ λ k.
      L.load-tally st (now_at clock (suc i)) k v
      ∙ still k (L.find st k) (sym (L.load-tally st (now_at clock i) k v) ∙ ap (tally k) e)
    where
      still :
          (k : Text) (o : Option StoredSession)
          → one_if (passes (is_live (now_at clock i)) o) ≡ 0
          → one_if (passes (is_live (now_at clock (suc i))) o) ≡ 0
      still k none h = refl
      still k (some s) h = ground (arith, is_live-earlier clock i s steady)

  expire-smaller :
      (m : Manager S) (imsi : Text)
      → L.IsValid m.store
      → is_some (L.find m.store imsi) ≡ true
      → L.size (expire_session_locked clock m imsi).store < L.size m.store
  unfolding expire_session_locked
  expire-smaller m imsi v held = L.size-delete m.store imsi v held

  expire-IsValid :
      (m : Manager S) (imsi : Text)
      → L.IsValid m.store
      → L.IsValid (expire_session_locked clock m imsi).store
  unfolding expire_session_locked
  expire-IsValid m imsi v = L.delete-IsValid m.store imsi v

  -- Offloading never adds a session.
  pub offload_rate_keeps :
      (left : ℕ) (m : Manager S)
      → L.IsValid m.store
      → L.IsValid (offload_rate clock left m).store
        × (L.size (offload_rate clock left m).store ≤ L.size m.store)
  offload_rate_keeps zero m v = unfold offload_rate in (v, omega arith)
  offload_rate_keeps (suc left) m v =
      elim (List-cases (S.load_sessions m.store (now_at clock m.reads))) [
        | inl e ↦ rw (offload_rate_done clock left m e) (v, omega arith)
        | inr (s, rest, e) ↦
            let m1 : Manager S = record m { reads = suc m.reads } in
            let (v', le) = offload_rate_keeps left _ (expire-IsValid m1 s.imsi v) in
            let lt = expire-smaller m1 s.imsi v (head-found L clock m.store _ s rest v e) in
            rw (offload_rate_more clock left m s rest e) (v', omega arith)
      ]

  -- A manager whose last reading of the clock found no live session.
  abbrev pub Stopped : Manager S → Type 0
  Stopped m = (i : ℕ) × (m.reads ≡ suc i) × (S.load_sessions m.store (now_at clock i) ≡ [])

  -- At a positive rate, an offload that finds a live session leaves fewer.
  offload_progress :
      (rate : ℕ) (m : Manager S)
      → L.IsValid m.store
      → (S.load_sessions m.store (now_at clock m.reads) ≡ [])
        ⊎ (L.IsValid (offload_rate clock (suc rate) m).store
            × (L.size (offload_rate clock (suc rate) m).store < L.size m.store))
  offload_progress rate m v = elim (List-cases (S.load_sessions m.store (now_at clock m.reads))) [
    | inl e ↦ inl e
    | inr (s, rest, e) ↦
        let m1 : Manager S = record m { reads = suc m.reads } in
        let held = head-found L clock m.store _ s rest v e in
        let lt = expire-smaller m1 s.imsi v held in
        let (v', le) = offload_rate_keeps rate _ (expire-IsValid m1 s.imsi v) in
        inr (rw (offload_rate_more clock rate m s rest e) (v', omega arith))
  ]

  -- For a valid store, a steady clock and a positive rate, fuel for two rounds more than the store
  -- has sessions is enough: the graceful stop ends, in a state whose last clock reading found no
  -- live session.
  pub graceful_stop-ends :
      (fuel rate : ℕ) (m : Manager S)
      → IsSteady clock
      → L.IsValid m.store
      → L.size m.store + 2 ≤ fuel
      → (m' : Manager S) × (graceful_stop clock fuel (suc rate) m ≡ some m') × Stopped m'
  graceful_stop-ends zero rate m steady v h = absurd (omega arith)
  graceful_stop-ends (suc zero) rate m steady v h = absurd (omega arith)
  graceful_stop-ends (suc (suc fuel)) rate m steady v h =
      elim (List-cases (S.load_sessions m.store (now_at clock m.reads))) [
        | inl e ↦ (
          at_reading (suc m.reads),
          graceful_stop_done clock _ (suc rate) m e,
          (m.reads, refl, e),
        )
        | inr (s, rest, e) ↦
            rw (graceful_stop_more clock (suc fuel) (suc rate) m s rest e)
              (elim (offload_progress rate (at_reading (suc m.reads)) v) [
                | inl e1 ↦
                    let e2 = load-nil_later m.store (suc m.reads) steady v e1 in
                    rw (offload_rate_done clock rate (at_reading (suc m.reads)) e1) (
                      at_reading (suc (suc (suc m.reads))),
                      graceful_stop_done clock fuel (suc rate) (at_reading (suc (suc m.reads))) e2,
                      (suc (suc m.reads), refl, e2),
                    )
                | inr (v', lt) ↦ graceful_stop-ends (suc fuel) rate _ steady v' (omega arith)
              ])
      ]
    where
      at_reading : ℕ → Manager S
      at_reading i = record m { reads = i }

  -- A graceful stop that ends adds no session either.
  pub graceful_stop_keeps :
      (fuel rate : ℕ) (m m' : Manager S)
      → graceful_stop clock fuel rate m ≡ some m'
      → L.IsValid m.store
      → L.IsValid m'.store × (L.size m'.store ≤ L.size m.store)
  graceful_stop_keeps zero rate m m' h v = unfold graceful_stop in cc
  graceful_stop_keeps (suc fuel) rate m m' h v =
      elim (List-cases (S.load_sessions m.store (now_at clock m.reads))) [
        | inl e ↦
            subst (λ (k : Manager S). L.IsValid k.store × (L.size k.store ≤ L.size m.store))
              (some-injective _ _ (sym (graceful_stop_done clock fuel rate m e) ∙ h))
              (v, omega arith)
        | inr (s, rest, e) ↦
            let m1 : Manager S = record m { reads = suc m.reads } in
            let (v1, le) = offload_rate_keeps rate m1 v in
            let (v2, le') =
              graceful_stop_keeps fuel rate (offload_rate clock rate m1) m'
                (sym (graceful_stop_more clock fuel rate m s rest e) ∙ h) v1 in
            (v2, omega arith)
      ]

  -- At rate 0, if the i-th clock reading from now on is the first that shows no live session of
  -- the unchanged store, the graceful stop ends with that reading, the store and the records
  -- unchanged, if its fuel is more than i, and runs out of its fuel otherwise.
  pub graceful_stop_rate_zero :
      (fuel i : ℕ) (m : Manager S)
      → ((j : ℕ) → j < i → S.load_sessions m.store (now_at clock (m.reads + j)) ≢ [])
      → S.load_sessions m.store (now_at clock (m.reads + i)) ≡ []
      → graceful_stop clock fuel 0 m
        ≡ (if ltb i fuel then some (record m { reads = suc (m.reads + i) }) else none)
  graceful_stop_rate_zero zero i m live idle = unfold graceful_stop in none_within i _
  graceful_stop_rate_zero (suc fuel) zero m live idle =
      let at : m.reads + 0 ≡ m.reads = omega arith in
      graceful_stop_done clock fuel 0 m
        (ap (λ r. S.load_sessions m.store (now_at clock r)) (sym at) ∙ idle)
      ∙ ap (λ r. some (record m { reads = suc r })) (sym at)
      ∙ first_within fuel _
  graceful_stop_rate_zero (suc fuel) (suc i) m live idle =
      let at : (j : ℕ) → suc m.reads + j ≡ m.reads + suc j = λ j. omega arith in
      let load = λ (r : ℕ). S.load_sessions m.store (now_at clock r) in
      elim (List-cases (load m.reads)) [
        | inl e ↦
            let here : m.reads + 0 ≡ m.reads = omega arith in
            absurd (live 0 (omega arith) (ap load here ∙ e))
        | inr (s, rest, e) ↦
            graceful_stop_more clock fuel 0 m s rest e
            ∙ ap (graceful_stop clock fuel 0) (offload_rate_zero clock _)
            ∙ graceful_stop_rate_zero fuel i (record m { reads = suc m.reads })
                (λ j h empty. live (suc j) (omega arith) (ap load (sym (at j)) ∙ empty))
                (ap load (at i) ∙ idle)
            ∙ ap (λ r. if ltb i fuel then some (record m { reads = suc r }) else none) (at i)
            ∙ next_within i fuel _
      ]
