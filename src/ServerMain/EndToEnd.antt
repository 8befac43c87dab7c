-- ===== src/ServerMain/EndToEnd.antt =====
-- The server over an in-memory store from its start on, requests and passes of the cleaner going through
-- at once.
use mini_pgw.Prelude.{ℕ, suc, ◌+◌, ◌≡◌, true, false, List, ◌++◌, some, arith, length, is_some}
use mini_pgw.Text.{Text, bytes, text_eq}
use mini_pgw.Json.{Json, ok}
use mini_pgw.Config.{Config, load_from_file}
use mini_pgw.Cdr
use mini_pgw.Cdr.{CdrRecord, CdrWriter, created, expired}
use mini_pgw.Cdr.Drain.{contents, Logged-contents}
use mini_pgw.Blacklist
use mini_pgw.Store.{StoredSession, one_if}
use mini_pgw.UnorderedMap.{Layout, find}
use mini_pgw.InMemory.{in_memory}
use mini_pgw.InMemory.Laws.{in_memory_laws}
use mini_pgw.Sqlite.{Sqlite}
use mini_pgw.Manager
use mini_pgw.Manager.{Clock}
use mini_pgw.Manager.Activity.{IsSteady}
use mini_pgw.Manager.Accounts.Phase.{events}
use mini_pgw.Manager.Accounts.Steps.{Accounts}
use mini_pgw.Manager.Accounts.Run.{Accounts-balance}
use mini_pgw.Http
use mini_pgw.Process.{Process, Move, started, run}
use mini_pgw.Process.Accounts.{process-Accounts}
use mini_pgw.Process.Total.{Serves, process-GoesOn}
use mini_pgw.ServerMain.{Environment, running, main}
use mini_pgw.ServerMain.Starting.{memory_node, memory_node-Accounts, main-memory_node}

memory-balance :
    (clock : Clock) (layout : Layout StoredSession) {m : Manager.Manager (in_memory layout)}
    {log : List CdrRecord}
    → Accounts (in_memory_laws layout) m log
    → (k : Text) → events created k log ≡ events expired k log + one_if (is_some (find k m.store))
unfolding in_memory_laws
memory-balance clock layout a k = Accounts-balance (in_memory_laws layout) clock k a

module _ (clock : Clock) (env : Environment) (json : Json) (lib : Sqlite)
    (layout : Layout StoredSession) where
  memory_node-Serves :
      (cfg : Config) (cdr : CdrWriter) (rate : ℕ)
      → cfg.graceful_shutdown_rate ≡ suc rate
      → Cdr.init cfg.cdr_file (env.opens cfg.cdr_file) ≡ some cdr
      → Serves
          (in_memory_laws layout)
          clock
          (Blacklist.init cfg.blacklist)
          0
          rate
          (started (memory_node clock env json lib layout cfg cdr))
  unfolding memory_node Http.init Http.start Manager.init in_memory_laws
  memory_node-Serves cfg cdr rate r e = record {
    fits = record {
      valid = (memory_node-Accounts clock env json lib layout cfg cdr e).valid;
      small = omega arith;
    };
    rated = r;
  }

  -- If the configuration loads with a positive shutdown rate and a store other than "sqlite", the
  -- log file opens and the writer of the call records can be made, then on a steady clock the
  -- server starts, and every sequence of steps in which requests and passes of the cleaner go
  -- through at once ends, with fuel of two and the number of steps, in a state in which file and
  -- queue together are the lines of a log that has for every IMSI as many records of creation as
  -- of expiry, and one more exactly if the store has the IMSI.
  pub server_log-balance :
      (cfg : Config) (cdr : CdrWriter) (rate : ℕ) (moves : List Move)
      → load_from_file json env.files (bytes "config/server_config.json") ≡ ok cfg
      → env.opens cfg.log_file ≡ true
      → Cdr.init cfg.cdr_file (env.opens cfg.cdr_file) ≡ some cdr
      → text_eq cfg.session_store (bytes "sqlite") ≡ false
      → cfg.graceful_shutdown_rate ≡ suc rate
      → IsSteady clock
      → let node = memory_node clock env json lib layout cfg cdr in
        let blacklist = Blacklist.init cfg.blacklist in
        (main clock env json lib layout ≡ running (in_memory layout) node blacklist)
        × ((q : Process (in_memory layout)) × (log : List CdrRecord) × (run clock blacklist
                (length moves + 2)
                (started node)
                moves
              ≡ some q)
            × (q.node.sessions.cdr.file ++ contents q.node.sessions.cdr.queue ≡ contents log)
            × ((k : Text)
                → events created k log
                  ≡ events expired k log + one_if (is_some (find k q.node.sessions.store))))
  server_log-balance cfg cdr rate moves loaded logs e memory r steady =
      let L = in_memory_laws layout in
      let blacklist = Blacklist.init cfg.blacklist in
      let node = memory_node clock env json lib layout cfg cdr in
      let (q, went, s) =
        process-GoesOn L clock blacklist (length moves + 2) rate 0 (started node) moves steady
          (omega arith) (memory_node-Serves cfg cdr rate r e) in
      let (log, a) =
        process-Accounts L clock blacklist (length moves + 2) (started node) q moves went
          (memory_node-Accounts clock env json lib layout cfg cdr e) in
      (
        main-memory_node clock env json lib layout cfg cdr loaded logs e memory,
        (q, log, went, Logged-contents a.logged, memory-balance clock layout a),
      )
