-- ===== src/Manager/Rounds.antt =====
-- One round of each loop, by what the store lists.
use mini_pgw.Prelude.{ℕ, suc, ◌≡◌, refl, List, [], ◌∷◌, some}
use mini_pgw.Store.{StoredSession, SessionStore}
use mini_pgw.Manager.{Clock, Manager, now_at, expire_session_locked, offload_rate, graceful_stop}

module _ {S : SessionStore} (clock : Clock) where
  pub offload_rate_zero : (m : Manager S) → offload_rate clock 0 m ≡ m
  unfolding offload_rate
  offload_rate_zero m = refl

  module _ (left : ℕ) (m : Manager S) where
    pub offload_rate_done :
        S.load_sessions m.store (now_at clock m.reads) ≡ []
        → offload_rate clock (suc left) m ≡ record m { reads = suc m.reads }
    unfolding offload_rate
    offload_rate_done e = rw (e, offload_rate)

    pub offload_rate_more :
        (s : StoredSession) (rest : List StoredSession)
        → S.load_sessions m.store (now_at clock m.reads) ≡ s ∷ rest
        → offload_rate clock (suc left) m
          ≡ offload_rate clock left
              (expire_session_locked clock (record m { reads = suc m.reads }) s.imsi)
    unfolding offload_rate
    offload_rate_more s rest e = rw (e, offload_rate)

  module _ (fuel rate : ℕ) (m : Manager S) where
    pub graceful_stop_done :
        S.load_sessions m.store (now_at clock m.reads) ≡ []
        → graceful_stop clock (suc fuel) rate m ≡ some (record m { reads = suc m.reads })
    unfolding graceful_stop
    graceful_stop_done e = rw (e, graceful_stop)

    pub graceful_stop_more :
        (s : StoredSession) (rest : List StoredSession)
        → S.load_sessions m.store (now_at clock m.reads) ≡ s ∷ rest
        → graceful_stop clock (suc fuel) rate m
          ≡ graceful_stop clock fuel rate
              (offload_rate clock rate (record m { reads = suc m.reads }))
    unfolding graceful_stop
    graceful_stop_more s rest e = rw (e, graceful_stop)
