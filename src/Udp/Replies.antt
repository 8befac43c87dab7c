-- ===== src/Udp/Replies.antt =====
-- What `stop` leaves of the receiving thread.
use mini_pgw.Prelude.{ℕ, ◌+◌, ◌≤◌, ◌≡◌, refl, false, List, [], ◌∷◌, arith, is_some, if◌then◌else◌}
use mini_pgw.Blacklist.{Blacklist}
use mini_pgw.Store.{SessionStore}
use mini_pgw.Manager.{Clock, Manager}
use mini_pgw.Udp.{
  UdpServer, Place, at_test, in_recvfrom, ended, Event, tests, arrives, fails, stops, stop, step_at,
  replies,
}

-- Replies that a stopped thread can still send from a place.
abbrev left_at : Place → ℕ
left_at at_test = 0
left_at in_recvfrom = 1
left_at ended = 0

module _ {S : SessionStore} (clock : Clock) (blacklist : Blacklist) where
  step_left :
      (place : Place) (u : UdpServer) (sessions : Manager S) (e : Event)
      → u.running ≡ false
      → u.place ≡ place
      → let (u', sessions', text) = step_at clock blacklist place u sessions e in
        (u'.running ≡ false) × ((if is_some text then 1 else 0) + left_at u'.place ≤ left_at place)
  unfolding step_at stop
  step_left at_test u sessions tests r p = ground arith
  step_left at_test u sessions (arrives packet) r p = ground arith
  step_left at_test u sessions fails r p = ground arith
  step_left at_test u sessions stops r p = ground arith
  step_left in_recvfrom u sessions tests r p = ground arith
  step_left in_recvfrom u sessions (arrives packet) r p = ground arith
  step_left in_recvfrom u sessions fails r p = ground arith
  step_left in_recvfrom u sessions stops r p = ground arith
  step_left ended u sessions tests r p = ground arith
  step_left ended u sessions (arrives packet) r p = ground arith
  step_left ended u sessions fails r p = ground arith
  step_left ended u sessions stops r p = ground arith

  replies-le :
      (u : UdpServer) (sessions : Manager S) (events : List Event)
      → u.running ≡ false
      → replies clock blacklist u sessions events ≤ left_at u.place
  unfolding replies
  replies-le u sessions [] r = omega arith
  replies-le u sessions (e ∷ events) r =
      let (u', sessions', text) = step_at clock blacklist u.place u sessions e in
      let (r', fewer) = step_left u.place u sessions e r refl in
      omega (arith, replies-le u' sessions' events r')

  -- After a call of stop, whatever events follow, the receiving thread answers at most one
  -- datagram.
  pub replies-stop-le :
      (u : UdpServer) (sessions : Manager S) (events : List Event)
      → replies clock blacklist (stop u) sessions events ≤ 1
  unfolding stop
  replies-stop-le u sessions events =
      let one : (p : Place) → left_at p ≤ 1 = elim [
        | at_test ↦ omega arith
        | in_recvfrom ↦ omega arith
        | ended ↦ omega arith
      ] in
      omega (arith, replies-le (record u { running = false }) sessions events refl, one u.place)
