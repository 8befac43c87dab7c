-- ===== src/Tests/Programs.antt =====
-- The configuration of the server, and the client: a JSON library with values one level deep.
use mini_pgw.Prelude.{
  ℕ, ◌^◌, ◌≤◌, ◌%◌, ◌≡◌, refl, true, false, List, [], ◌∷◌, Option, none, some, arith, if◌then◌else◌,
}
use mini_pgw.Text.{Text, bytes, text_eq}
use mini_pgw.Blacklist.{Blacklist, is_blocked, contains}
use mini_pgw.Json.{Json, Found, found, missing, not_object, ok, is_ok, required, optional}
use mini_pgw.Config.{Config, load_from_file}
use mini_pgw.Config.Loading.{Holds, load_from_file-Holds, load_from_file-is_ok}
use mini_pgw.Client.{Network, success, failure, session_created, client_thread, request_session}
use mini_pgw.Client.Sockets.{
  client_thread-closes, request_session-code, opened_in, closed_in, sent_in,
}
use mini_pgw.Client.Dialogue.{connected, request_session-handle}
use mini_pgw.ClientMain.{Digits, main}
use mini_pgw.ClientMain.Arguments.{AreDigits, main_same_clients}
use mini_pgw.Tests.Fixtures.{ticking, fresh, alice}

pub data Value : Type 0 where
  string : Text → Value
  strings : List Text → Value
  number : ℕ → Value
  object : Value

-- The field of that name, in the one object there is.
abbrev lookup : Value → Text → Found Value
lookup object key =
    if text_eq key (bytes "blacklist")
    then found (strings (alice ∷ []))
    else if text_eq key (bytes "udp_port")
    then found (number 9000)
    else if text_eq key (bytes "server_port")
    then found (number 9000)
    else if text_eq key (bytes "http_port")
    then found (number 8080)
    else if text_eq key (bytes "session_timeout_sec")
    then found (number 30)
    else if text_eq key (bytes "graceful_shutdown_rate")
    then found (number 10)
    else if text_eq key (bytes "num_clients")
    then found (number 2)
    else if text_eq key (bytes "session_store")
    then missing
    else if text_eq key (bytes "sqlite_db_path")
    then missing
    else if text_eq key (bytes "default_imsi")
    then missing
    else found (string (bytes "127.0.0.1"))
lookup (string s) key = not_object
lookup (strings l) key = not_object
lookup (number n) key = not_object

abbrev get_string : Value → Option Text
get_string (string s) = some s
get_string (strings l) = none
get_string (number n) = none
get_string object = none

abbrev get_strings : Value → Option (List Text)
get_strings (strings l) = some l
get_strings (string s) = none
get_strings (number n) = none
get_strings object = none

abbrev get_uint : ℕ → Value → Option ℕ
get_uint w (number n) = some (n % 2 ^ w)
get_uint w (string s) = none
get_uint w (strings l) = none
get_uint w object = none

abbrev get_int : Value → Option ℕ
get_int (number n) = some n
get_int (string s) = none
get_int (strings l) = none
get_int object = none

abbrev pub json : Json
json = record {
  Value = Value;
  parse = λ text. some object;
  lookup = lookup;
  get_string = get_string;
  get_strings = get_strings;
  get_uint = get_uint;
  get_int = get_int;
}

-- Every file opens and is empty.
abbrev pub files : Text → Option Text
files path = some []

abbrev path : Text
path = bytes "config/server_config.json"

abbrev pub loaded : Config
loaded = record {
  udp_ip = bytes "127.0.0.1";
  udp_port = 9000;
  session_timeout_sec = 30;
  cdr_file = bytes "127.0.0.1";
  http_port = 8080;
  graceful_shutdown_rate = 10;
  log_file = bytes "127.0.0.1";
  log_level = bytes "127.0.0.1";
  blacklist = alice ∷ [];
  session_store = bytes "in_memory";
  sqlite_db_path = bytes "sessions.db";
}

pub load : load_from_file json files path ≡ ok loaded
unfolding load_from_file text_eq required optional
load = refl

-- A configuration that asks for SQLite.
abbrev pub json_sqlite : Json
json_sqlite = record json {
  lookup = λ v key.
      if text_eq key (bytes "session_store") then found (string (bytes "sqlite")) else lookup v key;
}

abbrev pub loaded_sqlite : Config
loaded_sqlite = record loaded { session_store = bytes "sqlite" }

pub load_sqlite : load_from_file json_sqlite files path ≡ ok loaded_sqlite
unfolding load_from_file text_eq required optional
load_sqlite = refl

load_from_file-Holds_example : Holds json object loaded
unfolding text_eq
load_from_file-Holds_example = load_from_file-Holds json files path [] object loaded refl refl load

load_from_file-is_ok_example : is_ok (load_from_file json files path) ≡ true
unfolding text_eq required optional
load_from_file-is_ok_example = load_from_file-is_ok json files path

-- A network on which the address is wrong, and one on which all goes well.
abbrev bad_address : Network
bad_address = record {
  socket_opens = true;
  address_parses = false;
  send_works = true;
  arrives = none;
}

abbrev good : Network
good = record {
  socket_opens = true;
  address_parses = true;
  send_works = true;
  arrives = some (bytes "created");
}

request_session-code_example : (request_session bad_address alice).code ≡ failure
request_session-code_example = request_session-code bad_address alice

client_thread-closes_example :
    let done = client_thread good bad_address 5 alice in
    (opened_in done ≡ closed_in done) × (sent_in done ≤ opened_in done) × (opened_in done ≤ 2)
client_thread-closes_example = client_thread-closes good bad_address 5 alice

abbrev no_bans : Blacklist
no_bans = record { blocked = [] }

request_session-handle_example :
    let run = request_session (connected ticking no_bans fresh alice) alice in
    (run.code ≡ success) × (run.verdict ≡ session_created)
unfolding is_blocked contains
request_session-handle_example =
    request_session-handle ticking no_bans fresh alice (omega arith) (ground arith) (omega arith)

abbrev draw : ℕ → Digits
draw i = record { first = 7; second = i % 10; third = 0 }

draw-AreDigits : (i : ℕ) → AreDigits (draw i)
draw-AreDigits i = omega arith

main_same_clients_example :
    ((main json files [] (draw 0) draw).clients
      ≡ (main json files (alice ∷ []) (draw 1) draw).clients)
    × ((main json files [] (draw 0) draw).code ≡ (main json files (alice ∷ []) (draw 1) draw).code)
main_same_clients_example = main_same_clients json files [] (alice ∷ []) (draw 0) (draw 1) draw
