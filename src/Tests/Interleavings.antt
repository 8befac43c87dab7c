-- ===== src/Tests/Interleavings.antt =====
-- The threads of the server interleaved, from its start on.
use mini_pgw.Prelude.{◌+◌, ◌≤◌, ◌≡◌, refl, List, [], ◌∷◌, ◌++◌, arith, is_some}
use mini_pgw.Text.{Text}
use mini_pgw.Bcd.{imsi_to_bcd}
use mini_pgw.Blacklist
use mini_pgw.Cdr.{CdrRecord, created, expired}
use mini_pgw.Cdr.Drain.{contents}
use mini_pgw.Store.{one_if}
use mini_pgw.UnorderedMap.{find}
use mini_pgw.InMemory.{in_memory}
use mini_pgw.Manager.Accounts.Phase.{events}
use mini_pgw.Udp
use mini_pgw.Http.{Request}
use mini_pgw.Process.{started}
use mini_pgw.Race.Covered.{pending}
use mini_pgw.Threads.{
  Move, udp, http_tests, requests, handler_goes, cleans, writes_out, main_goes, run,
}
use mini_pgw.Threads.Serial.{whole}
use mini_pgw.ServerMain.{running, main}
use mini_pgw.ServerMain.Starting.{memory_node}
use mini_pgw.ServerMain.Interleaved.{server_threads-Covered}
use mini_pgw.Tests.Fixtures.{ticking, ticking-IsSteady, newest_first, bob}
use mini_pgw.Tests.Programs.{json, loaded, load}
use mini_pgw.Tests.Database.{lib}
use mini_pgw.Tests.Server.{env, cdr, cdr_init, memory}

-- Bob's datagram comes between a stop and its offload, and the cleaner and the writer go on in it.
abbrev moves : List Move
moves =
    udp Udp.tests
    ∷ http_tests
    ∷ cleans
    ∷ requests Request.stop
    ∷ udp (Udp.arrives (imsi_to_bcd bob))
    ∷ handler_goes 0
    ∷ cleans
    ∷ handler_goes 0
    ∷ writes_out
    ∷ handler_goes 0
    ∷ main_goes
    ∷ []

server_threads-Covered_example :
    let node = memory_node ticking env json lib newest_first loaded cdr in
    let blacklist = Blacklist.init loaded.blacklist in
    let t = run ticking blacklist (whole (started node)) moves in
    (main ticking env json lib newest_first ≡ running (in_memory newest_first) node blacklist)
    × ((log : List CdrRecord) × (t.node.sessions.cdr.file ++ contents t.node.sessions.cdr.queue
          ≡ contents log)
        × ((k : Text)
            → events created k log
              ≤ events expired k log
                + pending k t.cleaner
                + one_if (is_some (find k t.node.sessions.store))))
server_threads-Covered_example =
    server_threads-Covered ticking env json lib newest_first loaded cdr moves load refl cdr_init
      memory (omega arith) ticking-IsSteady
