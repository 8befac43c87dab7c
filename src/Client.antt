-- ===== src/Client.antt =====
-- src/client/client.cpp. The sockets are the environment: `Network` says what each call gives. A run
-- leaves the calls that it made, in order, and an exit code.
pub mod Sockets
pub mod Dialogue
use mini_pgw.Prelude.{
  ℕ, zero, suc, ◌+◌, ◌%◌, Bool, true, false, List, [], ◌∷◌, ◌++◌, Option, none, some, if◌then◌else◌,
  ◌==◌, map, take,
}
use mini_pgw.Text.{Text, bytes, text_eq, c_string}
use mini_pgw.Bcd.{imsi_to_bcd}

-- The three digits that the distribution over 0 to 9 draws.
unfoldable pub generate_imsi : ℕ → ℕ → ℕ → Text
generate_imsi a b c = bytes "001010123456" ++ ((b'0' + a) ∷ (b'0' + b) ∷ (b'0' + c) ∷ [])

pub data Exit : Type 0 where
  success : Exit
  failure : Exit

pub data Action : Type 0 where
  opens : Action
  sends : List ℕ → Action
  receives : Action
  closes : Action

-- What the calls of one request give: `socket`, `inet_pton`, `sendto`, and `recvfrom` with its bytes.
pub record Network : Type 0 where
  pub socket_opens : Bool
  pub address_parses : Bool
  pub send_works : Bool
  pub arrives : Option (List ℕ)

-- How the answer is logged: as a session created, or as an unknown response.
pub data Verdict : Type 0 where
  no_answer : Verdict
  session_created : Verdict
  unknown_response : Verdict

pub record Run : Type 0 where
  pub actions : List Action
  pub code : Exit
  pub verdict : Verdict

-- The buffer takes 63 bytes, and a zero after what came.
unfoldable pub judge : List ℕ → Verdict
unfolding c_string
judge answer =
    if text_eq (c_string (take 63 answer)) (bytes "created")
    then session_created
    else unknown_response

-- What follows `sendto`.
unfoldable pub after_send : Network → List Action → Run
unfolding judge
after_send net sent = elim net.arrives [
  | none ↦ record {
    actions = sent ++ (receives ∷ closes ∷ []);
    code = failure;
    verdict = no_answer;
  }
  | some answer ↦ record {
    actions = sent ++ (receives ∷ closes ∷ []);
    code = success;
    verdict = judge answer;
  }
]

unfoldable pub request_session : Network → Text → Run
unfolding after_send
request_session net imsi =
    let payload = imsi_to_bcd imsi in
    let fail = λ (done : List Action).
      let r : Run = record { actions = done; code = failure; verdict = no_answer } in r in
    if net.socket_opens
    then if net.address_parses
      then if net.send_works
        then after_send net (opens ∷ sends payload ∷ [])
        else fail (opens ∷ sends payload ∷ closes ∷ [])
      else fail (opens ∷ closes ∷ [])
    else fail []

-- `rand() % 5 == 0` decides whether the session is prolonged, over a network of its own.
unfoldable pub extend_session_multiple_times : ℕ → Network → Text → Run
unfolding request_session
extend_session_multiple_times drawn net imsi =
    if drawn % 5 == 0
    then request_session net imsi
    else record { actions = []; code = success; verdict = no_answer }

-- One thread of `run_multiple_clients`.
unfoldable pub client_thread : Network → Network → ℕ → Text → List Action
unfolding extend_session_multiple_times
client_thread net net' drawn imsi =
    let first = request_session net imsi in
    elim first.code [
      | success ↦ first.actions ++ (extend_session_multiple_times drawn net' imsi).actions
      | failure ↦ first.actions
    ]
