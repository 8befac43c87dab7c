-- ===== src/ServerMain/Database.antt =====
-- The server over a SQLite database with an empty table, from its start on, requests and passes of the
-- cleaner going through at once.
use mini_pgw.Prelude.{ℕ, ◌+◌, ◌≤◌, ◌≡◌, refl, true, false, List, [], ◌++◌, some, arith, ltb}
use mini_pgw.Text.{Text, bytes, text_eq}
use mini_pgw.Json.{Json, ok}
use mini_pgw.Config.{Config, load_from_file}
use mini_pgw.Cdr
use mini_pgw.Cdr.{CdrRecord, CdrWriter, created, expired}
use mini_pgw.Cdr.Drain.{contents, Logged-contents, init-Logged}
use mini_pgw.Blacklist
use mini_pgw.Store.{StoredSession, tally}
use mini_pgw.UnorderedMap.{Layout}
use mini_pgw.Sqlite
use mini_pgw.Sqlite.{Sqlite, sqlite}
use mini_pgw.Sqlite.Documented.{Documented, Reliable}
use mini_pgw.Sqlite.Accounts.{TableAccounts}
use mini_pgw.Manager
use mini_pgw.Manager.{Clock}
use mini_pgw.Manager.Accounts.Phase.{events, phase_from, phase-balance}
use mini_pgw.Http
use mini_pgw.Http.{Node}
use mini_pgw.Process.{Process, Move, started, run}
use mini_pgw.Process.Accounts.{sqlite_process-Accounts}
use mini_pgw.Udp
use mini_pgw.ServerMain.{Environment, running, main, start_parts, start_servers}

module _ (clock : Clock) (env : Environment) (json : Json) (lib : Sqlite)
    (layout : Layout StoredSession) where
  -- The servers over the database of the configuration.
  unfoldable pub sqlite_node : Config → CdrWriter → Node (sqlite lib)
  sqlite_node cfg cdr = Http.start (
      Http.init
        (Manager.init clock cfg.session_timeout_sec (Sqlite.init lib cfg.sqlite_db_path) cdr)
        (Udp.start (env.udp_binds cfg.udp_ip cfg.udp_port) Udp.init) cfg.graceful_shutdown_rate)

  main-sqlite_node :
      (cfg : Config) (cdr : CdrWriter)
      → load_from_file json env.files (bytes "config/server_config.json") ≡ ok cfg
      → env.opens cfg.log_file ≡ true
      → Cdr.init cfg.cdr_file (env.opens cfg.cdr_file) ≡ some cdr
      → text_eq cfg.session_store (bytes "sqlite") ≡ true
      → main clock env json lib layout
        ≡ running (sqlite lib) (sqlite_node cfg cdr) (Blacklist.init cfg.blacklist)
  unfolding main start_parts start_servers sqlite_node
  main-sqlite_node cfg cdr loaded logs e database = ground (arith, loaded, logs, e, database)

  module _ (doc : Documented lib) (sure : Reliable lib) where
    sqlite_node-TableAccounts :
        (cfg : Config) (cdr : CdrWriter) (db : lib.Db)
        → Cdr.init cfg.cdr_file (env.opens cfg.cdr_file) ≡ some cdr
        → Sqlite.init lib cfg.sqlite_db_path ≡ some db
        → doc.table db ≡ []
        → TableAccounts lib doc sure (sqlite_node cfg cdr).sessions []
    unfolding sqlite_node Http.init Http.start Manager.init phase_from
    sqlite_node-TableAccounts cfg cdr db e opens empty = record {
      db = db;
      opened = opens;
      keyed = record { single = λ k. rw empty (omega arith); uncut = rw empty refl };
      logged = init-Logged cfg.cdr_file (env.opens cfg.cdr_file) e;
      phases = λ k. rw empty refl;
    }

    table-balance :
        (k : Text) {m : Manager.Manager (sqlite lib)} {log : List CdrRecord}
        → (a : TableAccounts lib doc sure m log)
        → events created k log ≡ events expired k log + tally k (doc.table a.db)
    table-balance k {log} a = ground (
      arith,
      phase-balance k log false (ltb 0 (tally k (doc.table a.db))) (a.phases k),
      a.keyed.single k,
    )

    -- If the configuration loads with the store "sqlite", the log file opens, the writer of the
    -- call records can be made, the database opens with an empty table, and the SQLite library
    -- does what its documentation says and never fails, then the server starts on that database,
    -- and after every sequence of steps of its threads in which requests, /stop included, and
    -- passes of the cleaner go through at once, and which does not run out of fuel, the database
    -- is open with at most one row for an IMSI, and file and queue together are the lines of a log
    -- that has for every IMSI as many records of creation as of expiry and rows.
    pub server_table-balance :
        (cfg : Config) (cdr : CdrWriter) (db : lib.Db) (fuel : ℕ) (q : Process (sqlite lib))
        (moves : List Move)
        → load_from_file json env.files (bytes "config/server_config.json") ≡ ok cfg
        → env.opens cfg.log_file ≡ true
        → Cdr.init cfg.cdr_file (env.opens cfg.cdr_file) ≡ some cdr
        → text_eq cfg.session_store (bytes "sqlite") ≡ true
        → Sqlite.init lib cfg.sqlite_db_path ≡ some db
        → doc.table db ≡ []
        → run clock (Blacklist.init cfg.blacklist) fuel (started (sqlite_node cfg cdr)) moves
          ≡ some q
        → (main clock env json lib layout
            ≡ running (sqlite lib) (sqlite_node cfg cdr) (Blacklist.init cfg.blacklist))
          × ((log : List CdrRecord) × (db' : lib.Db) × (q.node.sessions.store ≡ some db')
              × (q.node.sessions.cdr.file ++ contents q.node.sessions.cdr.queue ≡ contents log)
              × ((k : Text)
                  → (tally k (doc.table db') ≤ 1)
                    × (events created k log ≡ events expired k log + tally k (doc.table db'))))
    server_table-balance cfg cdr db fuel q moves loaded logs e database opens empty went =
        let (log, a) =
          sqlite_process-Accounts lib doc sure clock (Blacklist.init cfg.blacklist) fuel
            (started (sqlite_node cfg cdr)) q moves went
            (sqlite_node-TableAccounts cfg cdr db e opens empty) in
        (
          main-sqlite_node cfg cdr loaded logs e database,
          (
            log,
            a.db,
            a.opened,
            Logged-contents a.logged,
            λ k. (a.keyed.single k, table-balance k a),
          ),
        )
