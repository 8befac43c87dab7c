-- ===== src/Config/Loading.antt =====
-- When a configuration loads, and what it then holds.
use mini_pgw.Prelude.{
  ◌≡◌, refl, Bool, false, ◌&&◌, Option, none, some, arith, Option-cases, inl, inr, is_some,
}
use mini_pgw.Text.{Text, bytes}
use mini_pgw.Json.{Json, Found, found, missing, not_object, ok, is_ok, required, optional, convert}
use mini_pgw.Config.{Config, read_fields, load_from_file}

module _ {V A : Type 0} (get : V → Option A) where
  -- What a field holds that must be there, or that has a default: nothing if it is not there, or is
  -- not of its type.
  abbrev pub value_at : Found V → Option A
  value_at (found v) = get v
  value_at missing = none
  value_at not_object = none

  abbrev pub value_or : A → Found V → Option A
  value_or default (found v) = get v
  value_or default missing = some default
  value_or default not_object = none

module _ {V A : Type 0} (get : V → Option A) (key : Text) where
  required-value_at : (f : Found V) (a : A) → required get key f ≡ ok a → value_at get f ≡ some a
  unfolding required convert
  required-value_at (found v) a h = ground arith
  required-value_at missing a h = cc
  required-value_at not_object a h = cc

  optional-value_or :
      (default : A) (f : Found V) (a : A)
      → optional get key default f ≡ ok a
      → value_or get default f ≡ some a
  unfolding optional convert
  optional-value_or default (found v) a h = ground arith
  optional-value_or default missing a h = ground arith
  optional-value_or default not_object a h = cc

  required-is_ok : (f : Found V) → is_ok (required get key f) ≡ is_some (value_at get f)
  unfolding required convert
  required-is_ok (found v) = ground arith
  required-is_ok missing = refl
  required-is_ok not_object = refl

  optional-is_ok :
      (default : A) (f : Found V)
      → is_ok (optional get key default f) ≡ is_some (value_or get default f)
  unfolding optional convert
  optional-is_ok default (found v) = ground arith
  optional-is_ok default missing = refl
  optional-is_ok default not_object = refl

module _ (json : Json) where
  open json use {Value, parse, lookup, get_string, get_strings, get_uint}

  -- The fields that must be there and of their type, and those that must be of their type if they
  -- are there.
  abbrev pub is_readable : Value → Bool
  is_readable j =
      is_some (value_at get_string (lookup j (bytes "udp_ip")))
      && is_some (value_at (get_uint 16) (lookup j (bytes "udp_port")))
      && is_some (value_at (get_uint 32) (lookup j (bytes "session_timeout_sec")))
      && is_some (value_at get_string (lookup j (bytes "cdr_file")))
      && is_some (value_at (get_uint 16) (lookup j (bytes "http_port")))
      && is_some (value_at (get_uint 32) (lookup j (bytes "graceful_shutdown_rate")))
      && is_some (value_at get_string (lookup j (bytes "log_file")))
      && is_some (value_at get_string (lookup j (bytes "log_level")))
      && is_some (value_at get_strings (lookup j (bytes "blacklist")))
      && is_some (value_or get_string (bytes "in_memory") (lookup j (bytes "session_store")))
      && is_some (value_or get_string (bytes "sessions.db") (lookup j (bytes "sqlite_db_path")))

  -- Each field of a configuration is the value of its own key, or its default.
  abbrev pub Holds : Value → Config → Type 0
  Holds j cfg =
      (value_at get_string (lookup j (bytes "udp_ip")) ≡ some cfg.udp_ip)
      × (value_at (get_uint 16) (lookup j (bytes "udp_port")) ≡ some cfg.udp_port)
      × (value_at (get_uint 32) (lookup j (bytes "session_timeout_sec"))
          ≡ some cfg.session_timeout_sec)
      × (value_at get_string (lookup j (bytes "cdr_file")) ≡ some cfg.cdr_file)
      × (value_at (get_uint 16) (lookup j (bytes "http_port")) ≡ some cfg.http_port)
      × (value_at (get_uint 32) (lookup j (bytes "graceful_shutdown_rate"))
          ≡ some cfg.graceful_shutdown_rate)
      × (value_at get_string (lookup j (bytes "log_file")) ≡ some cfg.log_file)
      × (value_at get_string (lookup j (bytes "log_level")) ≡ some cfg.log_level)
      × (value_at get_strings (lookup j (bytes "blacklist")) ≡ some cfg.blacklist)
      × (value_or get_string (bytes "in_memory") (lookup j (bytes "session_store"))
          ≡ some cfg.session_store)
      × (value_or get_string (bytes "sessions.db") (lookup j (bytes "sqlite_db_path"))
          ≡ some cfg.sqlite_db_path)

  read_fields-is_ok : (j : Value) → is_ok (read_fields json j) ≡ is_readable j
  unfolding read_fields
  read_fields-is_ok j = ground (
    arith,
    required-is_ok get_string (bytes "udp_ip") (lookup j (bytes "udp_ip")),
    required-is_ok (get_uint 16) (bytes "udp_port") (lookup j (bytes "udp_port")),
    required-is_ok (get_uint 32) (bytes "session_timeout_sec")
        (lookup j (bytes "session_timeout_sec")),
    required-is_ok get_string (bytes "cdr_file") (lookup j (bytes "cdr_file")),
    required-is_ok (get_uint 16) (bytes "http_port") (lookup j (bytes "http_port")),
    required-is_ok (get_uint 32) (bytes "graceful_shutdown_rate")
        (lookup j (bytes "graceful_shutdown_rate")),
    required-is_ok get_string (bytes "log_file") (lookup j (bytes "log_file")),
    required-is_ok get_string (bytes "log_level") (lookup j (bytes "log_level")),
    required-is_ok get_strings (bytes "blacklist") (lookup j (bytes "blacklist")),
    optional-is_ok get_string (bytes "session_store") (bytes "in_memory")
        (lookup j (bytes "session_store")),
    optional-is_ok get_string (bytes "sqlite_db_path") (bytes "sessions.db")
        (lookup j (bytes "sqlite_db_path")),
  )

  read_fields-Holds : (j : Value) (cfg : Config) → read_fields json j ≡ ok cfg → Holds j cfg
  unfolding read_fields
  read_fields-Holds j cfg h = ground (
    arith,
    required-value_at get_string (bytes "udp_ip") (lookup j (bytes "udp_ip")) cfg.udp_ip,
    required-value_at (get_uint 16) (bytes "udp_port") (lookup j (bytes "udp_port")) cfg.udp_port,
    required-value_at (get_uint 32) (bytes "session_timeout_sec")
        (lookup j (bytes "session_timeout_sec")) cfg.session_timeout_sec,
    required-value_at get_string (bytes "cdr_file") (lookup j (bytes "cdr_file")) cfg.cdr_file,
    required-value_at (get_uint 16) (bytes "http_port") (lookup j (bytes "http_port"))
        cfg.http_port,
    required-value_at (get_uint 32) (bytes "graceful_shutdown_rate")
        (lookup j (bytes "graceful_shutdown_rate")) cfg.graceful_shutdown_rate,
    required-value_at get_string (bytes "log_file") (lookup j (bytes "log_file")) cfg.log_file,
    required-value_at get_string (bytes "log_level") (lookup j (bytes "log_level")) cfg.log_level,
    required-value_at get_strings (bytes "blacklist") (lookup j (bytes "blacklist")) cfg.blacklist,
    optional-value_or get_string (bytes "session_store") (bytes "in_memory")
        (lookup j (bytes "session_store")) cfg.session_store,
    optional-value_or get_string (bytes "sqlite_db_path") (bytes "sessions.db")
        (lookup j (bytes "sqlite_db_path")) cfg.sqlite_db_path,
  )

  module _ (files : Text → Option Text) (path : Text) where
    -- In a configuration that was loaded, each of the eleven fields is the value that the parsed
    -- text has under the key of the same name, read at the type of the field, or the default of
    -- that field if it has one and the key is not there.
    pub load_from_file-Holds :
        (text : Text) (j : Value) (cfg : Config)
        → files path ≡ some text
        → parse text ≡ some j
        → load_from_file json files path ≡ ok cfg
        → Holds j cfg
    unfolding load_from_file
    load_from_file-Holds text j cfg e p h = read_fields-Holds j cfg (ground (arith, e, p))

    -- Loading the server's configuration succeeds exactly when the file opens, its text parses,
    -- each of nine fields is there with a value of its type, and the two that have a default are
    -- not there or have a value of their type.
    pub load_from_file-is_ok : is_ok (load_from_file json files path) ≡ elim (files path) [
      | none ↦ false
      | some text ↦ elim (parse text) [ none ↦ false | some j ↦ is_readable j ]
    ]
    unfolding load_from_file
    load_from_file-is_ok = elim (Option-cases (files path)) [
      | inl none_e ↦ ground arith
      | inr (text, e) ↦ elim (Option-cases (parse text)) [
        | inl none_e ↦ ground arith
        | inr (j, p) ↦ ground (arith, read_fields-is_ok j)
      ]
    ]
