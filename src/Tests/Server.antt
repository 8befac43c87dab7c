-- ===== src/Tests/Server.antt =====
-- The start of the server.
use mini_pgw.Prelude.{
  List, ◌∷◌, ◌+◌, ◌++◌, is_some, ◌≡◌, refl, true, false, [], some, Option, none, ◌≤◌,
}
use mini_pgw.Text.{Text, bytes, text_eq}
use mini_pgw.Json.{required, optional}
use mini_pgw.Config.{load_from_file}
use mini_pgw.Cdr
use mini_pgw.Cdr.{CdrWriter}
use mini_pgw.Blacklist
use mini_pgw.InMemory.{in_memory}
use mini_pgw.ServerMain.{Environment, running, main}
use mini_pgw.ServerMain.Starting.{is_running, server-is_running}
use mini_pgw.ServerMain.Starting.{memory_node}
use mini_pgw.ServerMain.EndToEnd.{server_log-balance}
use mini_pgw.Process.{
  Process, Move, udp, http_tests, requests, writes_out, http_exits, started, run, step, live_step,
  cleans, main_goes,
}
use mini_pgw.Http.{Request, Node}
use mini_pgw.Udp
use mini_pgw.Bcd.{imsi_to_bcd}
use mini_pgw.Store.{StoredSession, one_if, tally}
use mini_pgw.UnorderedMap.{find}
use mini_pgw.Cdr.{CdrRecord, created, expired}
use mini_pgw.Cdr.Drain.{contents}
use mini_pgw.Manager.Accounts.Phase.{events}
use mini_pgw.Tests.Fixtures.{ticking, ticking-IsSteady, newest_first, alice, bob}
use mini_pgw.Tests.Programs.{json, files, loaded, load, json_sqlite, loaded_sqlite, load_sqlite}
use mini_pgw.Tests.Database.{lib, documented, reliable, no_rows}
use mini_pgw.Sqlite
use mini_pgw.Sqlite.{sqlite}
use mini_pgw.ServerMain.Database.{sqlite_node, server_table-balance}

abbrev pub env : Environment
env = record { files = files; opens = λ path. true; udp_binds = λ ip port. true }

abbrev pub cdr : CdrWriter
cdr = record { path = bytes "127.0.0.1"; queue = []; stop = false; opened = true; file = [] }

pub cdr_init : Cdr.init loaded.cdr_file true ≡ some cdr
unfolding Cdr.init
cdr_init = refl

pub memory : text_eq loaded.session_store (bytes "sqlite") ≡ false
unfolding text_eq
memory = refl

server-is_running_example : is_running (main ticking env json lib newest_first) ≡ true
unfolding load_from_file required optional text_eq
server-is_running_example = server-is_running ticking env json lib newest_first

-- A datagram of Alice's, a stop, and a round of the writer.
abbrev moves : List Move
moves =
    udp Udp.tests
    ∷ udp (Udp.arrives (imsi_to_bcd alice))
    ∷ http_tests
    ∷ requests Request.stop
    ∷ writes_out
    ∷ http_tests
    ∷ http_exits
    ∷ []

log_balanced :
    let node = memory_node ticking env json lib newest_first loaded cdr in
    let blacklist = Blacklist.init loaded.blacklist in
    (main ticking env json lib newest_first ≡ running (in_memory newest_first) node blacklist)
    × ((q : Process (in_memory newest_first)) × (log : List CdrRecord) × (run ticking blacklist 9
            (started node)
            moves
          ≡ some q)
        × (q.node.sessions.cdr.file ++ contents q.node.sessions.cdr.queue ≡ contents log)
        × ((k : Text)
            → events created k log
              ≡ events expired k log + one_if (is_some (find k q.node.sessions.store))))
log_balanced =
    server_log-balance ticking env json lib newest_first loaded cdr 9 moves load refl cdr_init
      memory refl ticking-IsSteady

-- The first datagram of Bob's, a pass of the cleaner, and a round of the writer, over a database.
abbrev database_moves : List Move
database_moves =
    udp Udp.tests ∷ udp (Udp.arrives (imsi_to_bcd bob)) ∷ cleans ∷ writes_out ∷ main_goes ∷ []

abbrev database_node : Node (sqlite lib)
database_node = sqlite_node ticking env json_sqlite lib newest_first loaded_sqlite cdr

abbrev database_end : Option (Process (sqlite lib))
database_end =
    run ticking (Blacklist.init loaded_sqlite.blacklist) 1 (started database_node) database_moves

abbrev get_process : Option (Process (sqlite lib)) → Process (sqlite lib)
get_process none = started database_node
get_process (some q) = q

went : database_end ≡ some (get_process database_end)
unfolding run step live_step
went = refl

server_table-balance_example :
    let q = get_process database_end in
    let blacklist = Blacklist.init loaded_sqlite.blacklist in
    (main ticking env json_sqlite lib newest_first ≡ running (sqlite lib) database_node blacklist)
    × ((log : List CdrRecord) × (db' : List StoredSession) × (q.node.sessions.store ≡ some db')
        × (q.node.sessions.cdr.file ++ contents q.node.sessions.cdr.queue ≡ contents log)
        × ((k : Text)
            → (tally k (documented.table db') ≤ 1)
              × (events created k log ≡ events expired k log + tally k (documented.table db'))))
unfolding text_eq Sqlite.init
server_table-balance_example =
    server_table-balance ticking env json_sqlite lib newest_first documented reliable loaded_sqlite
      cdr [] 1 (get_process database_end) database_moves load_sqlite refl cdr_init refl refl no_rows
      went
