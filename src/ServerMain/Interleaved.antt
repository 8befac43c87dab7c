-- ===== src/ServerMain/Interleaved.antt =====
-- The server over an in-memory store from its start on, its threads interleaved.
use mini_pgw.Prelude.{
  ◌+◌, ◌<◌, ◌≤◌, ◌≡◌, Bool, true, false, List, [], ◌++◌, some, arith, is_some, Option,
}
use mini_pgw.Text.{Text, bytes, text_eq}
use mini_pgw.Json.{Json, ok}
use mini_pgw.Config.{Config, load_from_file}
use mini_pgw.Cdr
use mini_pgw.Cdr.{CdrRecord, CdrWriter, created, expired}
use mini_pgw.Cdr.Drain.{contents, Logged-contents}
use mini_pgw.Blacklist
use mini_pgw.Store.{StoredSession, one_if, passes}
use mini_pgw.UnorderedMap.{Layout, find}
use mini_pgw.InMemory.{in_memory}
use mini_pgw.InMemory.Laws.{in_memory_laws}
use mini_pgw.Sqlite.{Sqlite}
use mini_pgw.Manager
use mini_pgw.Manager.{Clock}
use mini_pgw.Manager.Activity.{IsSteady}
use mini_pgw.Manager.Accounts.Phase.{events}
use mini_pgw.Http
use mini_pgw.Process.{started}
use mini_pgw.Race.{waiting}
use mini_pgw.Race.Covered.{Covered, pending, spared}
use mini_pgw.Threads.{Move, run}
use mini_pgw.Threads.Serial.{whole}
use mini_pgw.Threads.Covering.{system, threads-Covered}
use mini_pgw.ServerMain.{Environment, running, main}
use mini_pgw.ServerMain.Starting.{memory_node, memory_node-Accounts, main-memory_node}

passes_le :
    (p : StoredSession → Bool) (o : Option StoredSession) → one_if (passes p o) ≤ one_if (is_some o)
passes_le p o = ground arith

module _ (clock : Clock) (env : Environment) (json : Json) (lib : Sqlite)
    (layout : Layout StoredSession) where
  memory_node-Covered :
      (cfg : Config) (cdr : CdrWriter)
      → Cdr.init cfg.cdr_file (env.opens cfg.cdr_file) ≡ some cdr
      → 0 < cfg.session_timeout_sec
      → Covered
          (in_memory_laws layout)
          clock
          (system (memory_node clock env json lib layout cfg cdr).sessions waiting)
          []
  unfolding memory_node Http.init Http.start Manager.init
  memory_node-Covered cfg cdr e lasting =
      let a = memory_node-Accounts clock env json lib layout cfg cdr e in
      record {
        valid = a.valid;
        logged = a.logged;
        lasting = lasting;
        behind = tt;
        covered = λ k. omega arith;
      }

  -- If the configuration loads with a positive session timeout and a store other than "sqlite",
  -- the log file opens and the writer of the call records can be made, then on a steady clock the
  -- server starts, and after every interleaving of its threads (datagrams and checks each in one
  -- step with their readings of the clock, the handlers of /stop session by session, the cleaner
  -- record by record, rounds of the writer, the listening loop, the joins and the exit) file and
  -- queue together are the lines of a log that has for every IMSI at most as many records of
  -- creation as records of expiry, records that the cleaner is about to write, and sessions in the
  -- store.
  pub server_threads-Covered :
      (cfg : Config) (cdr : CdrWriter) (moves : List Move)
      → load_from_file json env.files (bytes "config/server_config.json") ≡ ok cfg
      → env.opens cfg.log_file ≡ true
      → Cdr.init cfg.cdr_file (env.opens cfg.cdr_file) ≡ some cdr
      → text_eq cfg.session_store (bytes "sqlite") ≡ false
      → 0 < cfg.session_timeout_sec
      → IsSteady clock
      → let node = memory_node clock env json lib layout cfg cdr in
        let blacklist = Blacklist.init cfg.blacklist in
        let t = run clock blacklist (whole (started node)) moves in
        (main clock env json lib layout ≡ running (in_memory layout) node blacklist)
        × ((log : List CdrRecord) × (t.node.sessions.cdr.file ++ contents t.node.sessions.cdr.queue
              ≡ contents log)
            × ((k : Text)
                → events created k log
                  ≤ events expired k log
                    + pending k t.cleaner
                    + one_if (is_some (find k t.node.sessions.store))))
  unfolding in_memory_laws
  server_threads-Covered cfg cdr moves loaded logs e memory lasting steady =
      let L = in_memory_laws layout in
      let blacklist = Blacklist.init cfg.blacklist in
      let node = memory_node clock env json lib layout cfg cdr in
      let t = run clock blacklist (whole (started node)) moves in
      let (log, v) =
        threads-Covered L clock blacklist (whole (started node)) moves steady
          (memory_node-Covered cfg cdr e lasting) in
      (
        main-memory_node clock env json lib layout cfg cdr loaded logs e memory,
        (
          log,
          Logged-contents v.logged,
          λ k. omega (
            arith,
            v.covered k,
            passes_le (spared L clock t.cleaner) (find k t.node.sessions.store),
          ),
        ),
      )
