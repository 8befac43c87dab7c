-- ===== src/Udp.antt =====
-- src/server/udp_server.cpp and include/pgw/udp_server.hpp: the thread that turns datagrams into
-- sessions. `recvfrom` is the environment: it hands over a datagram, or fails. `stop` only clears a
-- flag, which the loop reads before it waits for the next datagram.
pub mod Replies
pub mod EndToEnd
use mini_pgw.Prelude.{
  ℕ, ◌+◌, Bool, true, false, List, [], ◌∷◌, Option, none, some, if◌then◌else◌, is_some,
}
use mini_pgw.Text.{Text, bytes}
use mini_pgw.Bcd.{decode, received}
use mini_pgw.Blacklist.{Blacklist, is_blocked}
use mini_pgw.Store.{SessionStore}
use mini_pgw.Manager.{Clock, Manager, touch_session}

abbrev pub created_reply : Text
created_reply = bytes "created"

abbrev pub rejected_reply : Text
rejected_reply = bytes "rejected"

abbrev pub reply : Bool → Text
reply accepted = if accepted then created_reply else rejected_reply

-- Where the thread is: about to test `running_`, waiting in `recvfrom`, or gone.
pub data Place : Type 0 where
  at_test : Place
  in_recvfrom : Place
  ended : Place

pub record UdpServer : Type 0 where
  pub running : Bool
  pub place : Place

-- The constructor: there is no thread yet.
unfoldable pub init : UdpServer
init = record { running = false; place = ended }

-- `start` once the socket is bound; if it cannot be made or bound, the thread ends at once.
unfoldable pub start : Bool → UdpServer → UdpServer
start bound u = record u { running = true; place = if bound then at_test else ended }

-- Whether `join` returns: the thread is at its end.
abbrev pub joined : Place → Bool
joined ended = true
joined at_test = false
joined in_recvfrom = false

unfoldable pub stop : UdpServer → UdpServer
stop u = record u { running = false }

-- The thread goes on, a datagram comes, `recvfrom` fails, or another thread calls `stop`.
pub data Event : Type 0 where
  tests : Event
  arrives : List ℕ → Event
  fails : Event
  stops : Event

module _ {S : SessionStore} (clock : Clock) (blacklist : Blacklist) where
  -- The part of the loop behind the decoding.
  unfoldable pub answer : Manager S → Text → Manager S × Text
  answer sessions imsi =
      let (sessions', accepted) = touch_session clock sessions imsi in
      if is_blocked blacklist imsi then (sessions, reply false) else (sessions', reply accepted)

  -- A round after `recvfrom`: an error or an empty datagram is passed over.
  unfoldable pub handle : Manager S → List ℕ → Manager S × Option Text
  unfolding answer received
  handle sessions packet = elim (received packet) [
    | [] ↦ (sessions, none)
    | b ∷ rest ↦
        let (sessions', text) = answer sessions (decode (b ∷ rest)) in (sessions', some text)
  ]

  -- An event that does not fit the place of the thread changes nothing.
  unfoldable pub step_at :
      Place → UdpServer → Manager S → Event → UdpServer × Manager S × Option Text
  step_at place u sessions stops = (stop u, sessions, none)
  step_at at_test u sessions tests =
      (record u { place = if u.running then in_recvfrom else ended }, sessions, none)
  step_at in_recvfrom u sessions (arrives packet) =
      let (sessions', text) = handle sessions packet in
      (record u { place = at_test }, sessions', text)
  step_at in_recvfrom u sessions fails = (record u { place = at_test }, sessions, none)
  step_at _ u sessions _ = (u, sessions, none)

  -- How many replies a sequence of events brings.
  unfoldable pub replies : UdpServer → Manager S → List Event → ℕ
  replies u sessions [] = 0
  replies u sessions (e ∷ events) =
      let (u', sessions', text) = step_at u.place u sessions e in
      (if is_some text then 1 else 0) + replies u' sessions' events
