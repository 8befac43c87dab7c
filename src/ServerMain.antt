-- ===== src/ServerMain.antt =====
-- src/server/main.cpp: the parts put together. What the loggers do but for opening their file is left
-- out.
pub mod Starting
pub mod EndToEnd
pub mod Database
pub mod Interleaved
use mini_pgw.Prelude.{ℕ, Bool, true, false, List, [], Option, none, some, if◌then◌else◌}
use mini_pgw.Text.{Text, bytes, text_eq}
use mini_pgw.Json.{Json, Error, Result, ok, err}
use mini_pgw.Config.{Config, load_from_file}
use mini_pgw.Cdr
use mini_pgw.Cdr.{CdrWriter}
use mini_pgw.Blacklist
use mini_pgw.Blacklist.{Blacklist}
use mini_pgw.Store.{StoredSession, SessionStore}
use mini_pgw.UnorderedMap.{Layout}
use mini_pgw.InMemory.{in_memory}
use mini_pgw.Sqlite
use mini_pgw.Sqlite.{Sqlite, sqlite}
use mini_pgw.Manager
use mini_pgw.Manager.{Clock}
use mini_pgw.Udp
use mini_pgw.Http
use mini_pgw.Http.{Node}

-- What the program meets: the text of a file, which files open for writing, and whether the
-- UDP server can bind its port.
pub record Environment : Type 0 where
  pub files : Text → Option Text
  pub opens : Text → Bool
  pub udp_binds : Text → ℕ → Bool

-- How the start ends: with the exit code of a failure, by an exception that nothing catches, or with
-- both servers started.
pub data Start : Type 1 where
  exit_failure : Start
  uncaught : Start
  running : (S : SessionStore) → Node S → Blacklist → Start

module _ (clock : Clock) (env : Environment) where
  -- Steps 5 and 6.
  unfoldable pub start_servers :
      Config → (S : SessionStore) → S.State → CdrWriter → Blacklist → Start
  start_servers cfg S store cdr blacklist =
      running S
        (Http.start (
          Http.init (Manager.init clock cfg.session_timeout_sec store cdr)
            (Udp.start (env.udp_binds cfg.udp_ip cfg.udp_port) Udp.init)
            cfg.graceful_shutdown_rate))
        blacklist

  module _ (json : Json) (lib : Sqlite) (layout : Layout StoredSession) where
    -- Steps 3 to 6; the writer's constructor refuses an empty path.
    unfoldable pub start_parts : Config → Start
    unfolding start_servers
    start_parts cfg = elim (Cdr.init cfg.cdr_file (env.opens cfg.cdr_file)) [
      | none ↦ uncaught
      | some cdr ↦
          let blacklist = Blacklist.init cfg.blacklist in
          if text_eq cfg.session_store (bytes "sqlite")
          then start_servers cfg (sqlite lib) (Sqlite.init lib cfg.sqlite_db_path) cdr blacklist
          else start_servers cfg (in_memory layout) [] cdr blacklist
    ]

    -- The sink of the log file throws if the file does not open.
    unfoldable pub main : Start
    unfolding start_parts
    main = elim (load_from_file json env.files (bytes "config/server_config.json")) [
      | err e ↦ exit_failure
      | ok cfg ↦ if env.opens cfg.log_file then start_parts cfg else uncaught
    ]
