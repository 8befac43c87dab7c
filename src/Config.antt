-- ===== src/Config.antt =====
-- src/server/config.cpp and include/pgw/config.hpp. The file system gives the text of a file, or none if
-- it cannot be opened. The messages of the log are left out.
pub mod Loading
use mini_pgw.Prelude.{ℕ, List, Option, none, some}
use mini_pgw.Text.{Text, bytes}
use mini_pgw.Json.{
  Json, Error, cannot_open, parse_error, Result, ok, err, ◌>>=◌, required, optional,
}

pub record Config : Type 0 where
  pub udp_ip : Text
  pub udp_port : ℕ
  pub session_timeout_sec : ℕ
  pub cdr_file : Text
  pub http_port : ℕ
  pub graceful_shutdown_rate : ℕ
  pub log_file : Text
  pub log_level : Text
  pub blacklist : List Text
  pub session_store : Text
  pub sqlite_db_path : Text

module _ (json : Json) where
  open json use {Value, parse, lookup, get_string, get_strings, get_uint}

  abbrev pub at_string : Value → Text → Result Text
  at_string j key = required get_string key (lookup j key)

  abbrev pub at_uint : ℕ → Value → Text → Result ℕ
  at_uint w j key = required (get_uint w) key (lookup j key)

  abbrev pub value_string : Value → Text → Text → Result Text
  value_string j key default = optional get_string key default (lookup j key)

  -- The fields in the order in which the code reads them.
  unfoldable pub read_fields : Value → Result Config
  read_fields j = do
    udp_ip ← at_string j (bytes "udp_ip")
    udp_port ← at_uint 16 j (bytes "udp_port")
    session_timeout_sec ← at_uint 32 j (bytes "session_timeout_sec")
    cdr_file ← at_string j (bytes "cdr_file")
    http_port ← at_uint 16 j (bytes "http_port")
    graceful_shutdown_rate ← at_uint 32 j (bytes "graceful_shutdown_rate")
    log_file ← at_string j (bytes "log_file")
    log_level ← at_string j (bytes "log_level")
    blacklist ← required get_strings (bytes "blacklist") (lookup j (bytes "blacklist"))
    session_store ← value_string j (bytes "session_store") (bytes "in_memory")
    sqlite_db_path ← value_string j (bytes "sqlite_db_path") (bytes "sessions.db")
    ok (record {
      udp_ip = udp_ip;
      udp_port = udp_port;
      session_timeout_sec = session_timeout_sec;
      cdr_file = cdr_file;
      http_port = http_port;
      graceful_shutdown_rate = graceful_shutdown_rate;
      log_file = log_file;
      log_level = log_level;
      blacklist = blacklist;
      session_store = session_store;
      sqlite_db_path = sqlite_db_path;
    })

  unfoldable pub read_text : Text → Result Config
  unfolding read_fields
  read_text text = elim (parse text) [ none ↦ err parse_error | some j ↦ read_fields j ]

  unfoldable pub load_from_file : (Text → Option Text) → Text → Result Config
  unfolding read_text
  load_from_file files path = elim (files path) [
    | none ↦ err (cannot_open path)
    | some text ↦ read_text text
  ]
