-- ===== src/Threads/Serial.antt =====
-- The runs of Process.antt, in which a pass of the cleaner and a request go through at once, among the
-- interleavings of the threads.
use mini_pgw.Prelude.{[], Option, none}
use mini_pgw.Text.{Text}
use mini_pgw.Blacklist.{Blacklist}
use mini_pgw.Store.{SessionStore}
use mini_pgw.Udp
use mini_pgw.Race.{waiting}
use mini_pgw.Http
use mini_pgw.Http.{Node}
use mini_pgw.Process
use mini_pgw.Process.{Process, HttpPlace, MainPlace}
use mini_pgw.Threads.{Threads}
use mini_pgw.Threads.Reaches.{Reaches}

-- A process between two steps: no pass of the cleaner and no handler is under way.
abbrev pub whole : {S : SessionStore} → Process S → Threads S
whole p = record {
  node = p.node;
  http_at = p.http_at;
  main_at = p.main_at;
  exit_code = p.exit_code;
  cleaner = waiting;
  handlers = [];
}

-- A process that has not exited.
abbrev live : {S : SessionStore} → Node S → HttpPlace → MainPlace → Process S
live n h g = record { node = n; http_at = h; main_at = g; exit_code = none }
