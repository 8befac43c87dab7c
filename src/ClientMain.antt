-- ===== src/ClientMain.antt =====
-- src/client/main.cpp, with run_multiple_clients of src/client/client.cpp as the list of IMSI for which it
-- starts threads; a negative number of clients starts none, as 0 does. Each call of generate_imsi
-- draws three digits from the environment.
pub mod Arguments
use mini_pgw.Prelude.{ℕ, zero, suc, Bool, List, [], ◌∷◌, Option, none, some}
use mini_pgw.Text.{Text, bytes}
use mini_pgw.Json.{
  Json, Error, cannot_open, parse_error, Result, ok, err, ◌>>=◌, required, optional,
}
use mini_pgw.Client.{Exit, success, failure, generate_imsi}

pub record ClientConfig : Type 0 where
  pub server_ip : Text
  pub server_port : ℕ
  pub num_clients : ℕ
  pub default_imsi : Text

pub record Digits : Type 0 where
  pub first : ℕ
  pub second : ℕ
  pub third : ℕ

abbrev pub generated : Digits → Text
generated d = generate_imsi d.first d.second d.third

-- The IMSI of the threads, the `i`-th from the `i`-th draw.
unfoldable pub run_multiple_clients : ℕ → (ℕ → Digits) → List Text
run_multiple_clients zero draw = []
run_multiple_clients (suc n) draw = generated (draw 0) ∷ run_multiple_clients n (λ i. draw (suc i))

-- The IMSI that `main` settles on: from the command line, from the configuration, or a new one.
unfoldable pub choose_imsi : List Text → Text → Digits → Text
choose_imsi (imsi ∷ more) default_imsi own = imsi
choose_imsi [] [] own = generated own
choose_imsi [] (c ∷ default_imsi) own = c ∷ default_imsi

-- What a run of the program does: its exit code, the IMSI it logs, and the clients it starts.
pub record Outcome : Type 0 where
  pub code : Exit
  pub logged_imsi : Option Text
  pub clients : List Text

module _ (json : Json) where
  open json use {Value, parse, lookup, get_string, get_uint, get_int}

  unfoldable pub read_config : Value → Result ClientConfig
  read_config j = do
    server_ip ← required get_string (bytes "server_ip") (lookup j (bytes "server_ip"))
    server_port ← required (get_uint 16) (bytes "server_port") (lookup j (bytes "server_port"))
    num_clients ← required get_int (bytes "num_clients") (lookup j (bytes "num_clients"))
    default_imsi ← optional get_string (bytes "default_imsi") [] (lookup j (bytes "default_imsi"))
    ok (record {
      server_ip = server_ip;
      server_port = server_port;
      num_clients = num_clients;
      default_imsi = default_imsi;
    })

  unfoldable pub load_config : (Text → Option Text) → Text → Result ClientConfig
  unfolding read_config
  load_config files path = elim (files path) [
    | none ↦ err (cannot_open path)
    | some text ↦ elim (parse text) [ none ↦ err parse_error | some j ↦ read_config j ]
  ]

  -- `args` is `argv` without the program's name.
  unfoldable pub main : (Text → Option Text) → List Text → Digits → (ℕ → Digits) → Outcome
  unfolding load_config choose_imsi run_multiple_clients
  main files args own draw = elim (load_config files (bytes "config/client_config.json")) [
    | err e ↦ record { code = failure; logged_imsi = none; clients = [] }
    | ok config ↦ record {
      code = success;
      logged_imsi = some (choose_imsi args config.default_imsi own);
      clients = run_multiple_clients config.num_clients draw;
    }
  ]
