-- ===== src/Manager/Independence.antt =====
-- The manager over two stores that keep their promises, and what its callers see of the difference.
use mini_pgw.Prelude.{
  ℕ, suc, ◌≡◌, refl, ap, sym, ◌∙◌, Bool, true, false, not, List, [], ◌∷◌, ◌++◌, Option, none, some,
  arith, All,
}
use mini_pgw.Text.{Text}
use mini_pgw.Cdr.{Round, writer_round}
use mini_pgw.Store.{StoredSession, SessionStore, StoreLaws, restrict}
use mini_pgw.Manager.{Clock, Manager, now_at, touched, touch_session, is_active, cleaner_pass}
use mini_pgw.Manager.Activity.{
  is_active_lem, touch_session-true, touch_session-IsValid, find-touch_session,
}
use mini_pgw.Manager.Accounts.Run.{
  Call, touches, checks, offloads, cleans, writes_out, step, run, after_round,
}

restrict-same :
    (p q : StoredSession → Bool)
    → ((s : StoredSession) → p s ≡ q s)
    → (o : Option StoredSession) → restrict p o ≡ restrict q o
restrict-same p q h none = refl
restrict-same p q h (some s) = ground (arith, h s)

-- What the callers of a sequence of calls are told.
module _ {S : SessionStore} (clock : Clock) where
  unfoldable pub told : Manager S → Call → List Bool
  told m (touches imsi) = (touch_session clock m imsi).1 ∷ []
  told m (checks imsi) = (is_active clock m imsi).1 ∷ []
  told m (offloads rate) = []
  told m cleans = []
  told m writes_out = []

  unfoldable pub answers : Manager S → List Call → List Bool
  unfolding told step
  answers m [] = []
  answers m (c ∷ calls) = told m c ++ answers (step clock m c) calls

abbrev pub is_offload : Call → Bool
is_offload (offloads rate) = true
is_offload (touches imsi) = false
is_offload (checks imsi) = false
is_offload cleans = false
is_offload writes_out = false

module _ {S T : SessionStore} (L : StoreLaws S) (M : StoreLaws T) (clock : Clock) where
  -- Two managers that hold the same sessions.
  pub record SameView (m : Manager S) (n : Manager T) : Type 0 where
    pub left_valid : L.IsValid m.store
    pub right_valid : M.IsValid n.store
    pub timeout : m.timeout ≡ n.timeout
    pub reads : m.reads ≡ n.reads
    pub found : (k : Text) → L.find m.store k ≡ M.find n.store k

  touched-same :
      (m : Manager S) (n : Manager T) (imsi : Text)
      → SameView m n
      → touched clock m imsi ≡ touched clock n imsi
  touched-same m n imsi v = ground (arith, v.timeout, v.reads)

  touch-SameView :
      (m : Manager S) (n : Manager T) (imsi : Text)
      → SameView m n
      → SameView (touch_session clock m imsi).0 (touch_session clock n imsi).0
  touch-SameView m n imsi v = record {
    left_valid = touch_session-IsValid L clock m imsi v.left_valid;
    right_valid = touch_session-IsValid M clock n imsi v.right_valid;
    timeout = unfold touch_session in ground (arith, v.timeout);
    reads = unfold touch_session in ground (arith, v.reads);
    found = λ k. ground (
      arith,
      find-touch_session L clock m imsi k v.left_valid,
      find-touch_session M clock n imsi k v.right_valid,
      touched-same m n imsi v,
      v.found k,
    );
  }

  read-SameView :
      (m : Manager S) (n : Manager T)
      → SameView m n
      → SameView (record m { reads = suc m.reads }) (record n { reads = suc n.reads })
  read-SameView m n v = record {
    left_valid = v.left_valid;
    right_valid = v.right_valid;
    timeout = v.timeout;
    reads = ap suc v.reads;
    found = v.found;
  }

  check-same :
      (m : Manager S) (n : Manager T) (imsi : Text)
      → SameView m n
      → (is_active clock m imsi).1 ≡ (is_active clock n imsi).1
  check-same m n imsi v = ground (
    arith,
    is_active_lem L clock m imsi v.left_valid,
    is_active_lem M clock n imsi v.right_valid,
    v.found imsi,
    v.reads,
  )

  round-SameView :
      (m : Manager S) (n : Manager T) (r q : Round)
      → SameView m n
      → SameView (after_round clock m r) (after_round clock n q)
  unfolding after_round
  round-SameView m n r q v = record {
    left_valid = ground (arith, v.left_valid);
    right_valid = ground (arith, v.right_valid);
    timeout = ground (arith, v.timeout);
    reads = ground (arith, v.reads);
    found = λ k. ground (arith, v.found k);
  }

  module _ (agree : (now : Text) (s : StoredSession) → L.overdue now s ≡ M.overdue now s) where
    cleaner-SameView :
        (m : Manager S) (n : Manager T)
        → SameView m n
        → SameView (cleaner_pass clock m) (cleaner_pass clock n)
    unfolding cleaner_pass
    cleaner-SameView m n v = record {
      left_valid = L.cleanup-IsValid m.store _ v.left_valid;
      right_valid = M.cleanup-IsValid n.store _ v.right_valid;
      timeout = v.timeout;
      reads = ap suc v.reads;
      found = λ k.
          L.find-cleanup m.store (now_at clock m.reads) k v.left_valid
          ∙ restrict-same (kept m.reads) (kept' m.reads)
              (λ s. ap not (agree (now_at clock m.reads) s)) (L.find m.store k)
          ∙ ap (λ i. restrict (kept' i) (L.find m.store k)) v.reads
          ∙ ap (restrict (kept' n.reads)) (v.found k)
          ∙ sym (M.find-cleanup n.store (now_at clock n.reads) k v.right_valid);
    }
      where
        kept : ℕ → StoredSession → Bool
        kept i s = not (L.overdue (now_at clock i) s)

        kept' : ℕ → StoredSession → Bool
        kept' i s = not (M.overdue (now_at clock i) s)

    step-SameView :
        (m : Manager S) (n : Manager T) (c : Call)
        → is_offload c ≡ false
        → SameView m n
        → SameView (step clock m c) (step clock n c) × (told clock m c ≡ told clock n c)
    unfolding step told
    step-SameView m n (touches imsi) calm v = (
      touch-SameView m n imsi v,
      ground (arith, touch_session-true clock m imsi, touch_session-true clock n imsi),
    )
    step-SameView m n (checks imsi) calm v =
        (unfold is_active in read-SameView m n v, ap (λ b. b ∷ []) (check-same m n imsi v))
    step-SameView m n (offloads rate) calm v = cc
    step-SameView m n cleans calm v = (cleaner-SameView m n v, refl)
    step-SameView m n writes_out calm v =
        (round-SameView m n (writer_round m.cdr) (writer_round n.cdr) v, refl)

    -- Over any two stores that keep their promises and agree on which sessions are overdue, two
    -- managers that hold the same sessions give the same answers to any sequence of touches,
    -- checks, cleaner passes and writer rounds, and hold the same sessions after it.
    pub answers-same :
        (m : Manager S) (n : Manager T) (calls : List Call)
        → All (λ c. is_offload c ≡ false) calls
        → SameView m n
        → (answers clock m calls ≡ answers clock n calls)
          × SameView (run clock m calls) (run clock n calls)
    unfolding answers run
    answers-same m n [] calm v = (refl, v)
    answers-same m n (c ∷ calls) (first, rest) v =
        let (v', same) = step-SameView m n c first v in
        let (more, v'') = answers-same (step clock m c) (step clock n c) calls rest v' in
        (ground arith, v'')
