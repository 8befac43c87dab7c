-- ===== src/ServerMain/Starting.antt =====
-- When the server starts, and in what state.
use mini_pgw.Prelude.{
  ℕ, ◌≡◌, ◌⊎◌, refl, Bool, true, false, not, ◌&&◌, [], ◌∷◌, some, arith, List-cases, inl, inr,
}
use mini_pgw.Text.{Text, bytes, text_eq}
use mini_pgw.Manager.{Clock}
use mini_pgw.Json.{Json, Error, Result, ok, err}
use mini_pgw.Config.{Config, load_from_file}
use mini_pgw.Cdr
use mini_pgw.Store.{StoredSession}
use mini_pgw.UnorderedMap.{Layout}
use mini_pgw.InMemory.{in_memory}
use mini_pgw.InMemory.Laws.{IsValid, in_memory_laws}
use mini_pgw.UnorderedMap.{find}
use mini_pgw.Manager
use mini_pgw.Blacklist
use mini_pgw.Udp
use mini_pgw.Cdr.Drain.{init-Logged}
use mini_pgw.Cdr.{CdrWriter}
use mini_pgw.Manager.Accounts.Steps.{Accounts}
use mini_pgw.Manager.Accounts.Run.{init-Accounts}
use mini_pgw.Sqlite.{Sqlite}
use mini_pgw.Http
use mini_pgw.Http.{Node}
use mini_pgw.ServerMain.{
  Environment, Start, exit_failure, uncaught, running, start_parts, start_servers, main,
}

abbrev pub is_running : Start → Bool
is_running exit_failure = false
is_running uncaught = false
is_running (running S node blacklist) = true

abbrev pub is_empty : Text → Bool
is_empty [] = true
is_empty (c ∷ path) = false

Result-cases : (r : Result Config) → ((e : Error) × (r ≡ err e)) ⊎ ((cfg : Config) × (r ≡ ok cfg))
Result-cases (ok cfg) = inr (cfg, refl)
Result-cases (err e) = inl (e, refl)

module _ (clock : Clock) (env : Environment) (json : Json) (lib : Sqlite)
    (layout : Layout StoredSession) where
  start_parts-is_running :
      (cfg : Config)
      → is_running (start_parts clock env json lib layout cfg) ≡ not (is_empty cfg.cdr_file)
  unfolding start_parts start_servers Cdr.init
  start_parts-is_running cfg = elim (List-cases cfg.cdr_file) [
    | inl e ↦ ground (arith, e)
    | inr (c, path, e) ↦ ground (arith, e)
  ]

  -- The server starts exactly when its configuration loads, its log file opens, and the path of
  -- the call records is not empty; whether the UDP server gets its port and whether the file of
  -- the call records opens does not matter.
  pub server-is_running :
      is_running (main clock env json lib layout)
      ≡ elim (load_from_file json env.files (bytes "config/server_config.json")) [
        | err e ↦ false
        | ok cfg ↦ env.opens cfg.log_file && not (is_empty cfg.cdr_file)
      ]
  unfolding main
  server-is_running =
      elim (Result-cases (load_from_file json env.files (bytes "config/server_config.json"))) [
        | inl (e, p) ↦ ground (arith, p)
        | inr (cfg, p) ↦ ground (arith, p, start_parts-is_running cfg)
      ]

  no_session-IsValid : IsValid []
  unfolding find
  no_session-IsValid = record { distinct = tt; keyed = λ k s e. cc }

  empty-Accounts :
      (timeout : ℕ) (path : Text) (opens : Bool) (cdr : CdrWriter)
      → Cdr.init path opens ≡ some cdr
      → Accounts (in_memory_laws layout) (Manager.init clock timeout [] cdr) []
  unfolding in_memory_laws find
  empty-Accounts timeout path opens cdr e =
      init-Accounts (in_memory_laws layout) clock timeout [] no_session-IsValid (λ k. refl)
        (init-Logged path opens e)

  -- The servers over an in-memory store.
  unfoldable pub memory_node : Config → CdrWriter → Node (in_memory layout)
  memory_node cfg cdr = Http.start (
      Http.init (Manager.init clock cfg.session_timeout_sec [] cdr)
        (Udp.start (env.udp_binds cfg.udp_ip cfg.udp_port) Udp.init) cfg.graceful_shutdown_rate)

  pub memory_node-Accounts :
      (cfg : Config) (cdr : CdrWriter)
      → Cdr.init cfg.cdr_file (env.opens cfg.cdr_file) ≡ some cdr
      → Accounts (in_memory_laws layout) (memory_node cfg cdr).sessions []
  unfolding memory_node Http.init Http.start
  memory_node-Accounts cfg cdr e =
      empty-Accounts cfg.session_timeout_sec cfg.cdr_file (env.opens cfg.cdr_file) cdr e

  pub main-memory_node :
      (cfg : Config) (cdr : CdrWriter)
      → load_from_file json env.files (bytes "config/server_config.json") ≡ ok cfg
      → env.opens cfg.log_file ≡ true
      → Cdr.init cfg.cdr_file (env.opens cfg.cdr_file) ≡ some cdr
      → text_eq cfg.session_store (bytes "sqlite") ≡ false
      → main clock env json lib layout
        ≡ running (in_memory layout) (memory_node cfg cdr) (Blacklist.init cfg.blacklist)
  unfolding main start_parts start_servers memory_node
  main-memory_node cfg cdr loaded logs e memory = ground (arith, loaded, logs, e, memory)

  -- If the configuration loads, the log file opens, the writer of the call records can be made and
  -- the store is not "sqlite", the server starts with an in-memory store, the configured
  -- blacklist, timeout and shutdown rate, and an empty log that accounts for the empty store.
  pub server_in_memory-Accounts :
      (cfg : Config) (cdr : CdrWriter)
      → load_from_file json env.files (bytes "config/server_config.json") ≡ ok cfg
      → env.opens cfg.log_file ≡ true
      → Cdr.init cfg.cdr_file (env.opens cfg.cdr_file) ≡ some cdr
      → text_eq cfg.session_store (bytes "sqlite") ≡ false
      → (node : Node (in_memory layout)) × (main clock env json lib layout
          ≡ running (in_memory layout) node (Blacklist.init cfg.blacklist))
        × (node.sessions.timeout ≡ cfg.session_timeout_sec)
        × (node.graceful_rate ≡ cfg.graceful_shutdown_rate)
        × Accounts (in_memory_laws layout) node.sessions []
  unfolding memory_node Manager.init Http.init Http.start
  server_in_memory-Accounts cfg cdr loaded logs e memory = (
    memory_node cfg cdr,
    main-memory_node cfg cdr loaded logs e memory,
    refl,
    refl,
    memory_node-Accounts cfg cdr e,
  )
