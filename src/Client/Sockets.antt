-- ===== src/Client/Sockets.antt =====
-- What a request leaves behind, on every path.
use mini_pgw.Prelude.{
  ℕ, ◌≤◌, ◌≡◌, Bool, true, false, ◌&&◌, List, arith, count_if, count_if-append, is_some,
  if◌then◌else◌,
}
use mini_pgw.Text.{Text}
use mini_pgw.Client.{
  success, failure, Action, opens, sends, receives, closes, Network, after_send, request_session,
  extend_session_multiple_times, client_thread,
}

abbrev is_open : Action → Bool
is_open opens = true
is_open (sends payload) = false
is_open receives = false
is_open closes = false

abbrev is_close : Action → Bool
is_close closes = true
is_close opens = false
is_close (sends payload) = false
is_close receives = false

abbrev is_send : Action → Bool
is_send (sends payload) = true
is_send opens = false
is_send receives = false
is_send closes = false

abbrev pub opened_in : List Action → ℕ
opened_in = count_if is_open

abbrev pub closed_in : List Action → ℕ
closed_in = count_if is_close

abbrev pub sent_in : List Action → ℕ
sent_in = count_if is_send

request_session-closes :
    (net : Network) (imsi : Text)
    → let done = (request_session net imsi).actions in
      (opened_in done ≡ closed_in done) × (opened_in done ≤ 1) × (sent_in done ≤ opened_in done)
unfolding request_session after_send
request_session-closes net imsi = ground arith

extend-closes :
    (drawn : ℕ) (net : Network) (imsi : Text)
    → let done = (extend_session_multiple_times drawn net imsi).actions in
      (opened_in done ≡ closed_in done) × (opened_in done ≤ 1) × (sent_in done ≤ opened_in done)
unfolding extend_session_multiple_times
extend-closes drawn net imsi = ground (arith, request_session-closes net imsi)

-- Whatever the network does, a client thread closes as many sockets as it opens, two at most, and
-- sends at most as many datagrams as it opens sockets.
pub client_thread-closes :
    (net net' : Network) (drawn : ℕ) (imsi : Text)
    → let done = client_thread net net' drawn imsi in
      (opened_in done ≡ closed_in done) × (sent_in done ≤ opened_in done) × (opened_in done ≤ 2)
unfolding client_thread
client_thread-closes net net' drawn imsi =
    let a = (request_session net imsi).actions in
    let b = (extend_session_multiple_times drawn net' imsi).actions in
    ground (
      arith,
      request_session-closes net imsi,
      extend-closes drawn net' imsi,
      count_if-append is_open a b,
      count_if-append is_close a b,
      count_if-append is_send a b,
    )

-- A request succeeds exactly when the socket opens, the address parses, the datagram is sent and
-- an answer arrives; what the answer says does not matter.
pub request_session-code :
    (net : Network) (imsi : Text)
    → (request_session net imsi).code ≡ (
        if net.socket_opens && net.address_parses && net.send_works && is_some net.arrives
        then success
        else failure)
unfolding request_session after_send
request_session-code net imsi = ground arith
