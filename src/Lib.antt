-- ===== src/Lib.antt =====
-- mini-pgw: a packet gateway that keeps a session for each subscriber (IMSI). A client sends its IMSI
-- in BCD over UDP; the server checks a blacklist, creates or prolongs the session, and answers. Sessions
-- expire after a timeout, which a cleaner thread sees to; each creation and expiry is written to a
-- call record file by a thread of its own; an HTTP interface tells whether a subscriber is active,
-- and shuts the server down, offloading the sessions at a configured rate.
--
-- Which file models which part:
--   Bcd           imsi_to_bcd of src/client/client.cpp, and the decoding in UdpServer::run_loop
--                 (src/server/udp_server.cpp); Bcd/Nibbles, Bcd/Range and Bcd/RoundTrip prove.
--   Cdr           src/server/cdr_writer.cpp; Cdr/Drain holds the log that the writer implements,
--                 Cdr/Format the lines of the file.
--   Store         StoredSession and ISessionStore of include/pgw/session_store.hpp: the operations
--                 as a record, and the promises of an implementation, StoreLaws, as another.
--   UnorderedMap  the std::unordered_map of the in-memory store, in any order of iteration.
--   InMemory      src/server/in_memory_session_store.cpp; InMemory/Laws fills StoreLaws,
--                 InMemory/Boundary is about the moment of expiry, InMemory/Counts takes the
--                 store as a bag.
--   Sqlite        src/server/sqlite_session_store.cpp over the SQLite library as a parameter;
--                 Sqlite/Documented says what the library's documentation promises of the
--                 statements; Sqlite/Partition, Sqlite/Saves and Sqlite/Tables prove from it what
--                 they read and leave. Sqlite/Simulation compares the store with the in-memory
--                 store, Sqlite/Accounts the call records with the table, and Sqlite/Closed
--                 follows a database that did not open.
--   Manager       src/server/session_manager.cpp, over any store. Manager/Accounts compares the
--                 call records with the store, Manager/Activity is about is_active,
--                 Manager/Shutdown about graceful_stop, Manager/Independence compares
--                 managers over different stores, and Manager/Books is the interface by which
--                 the process uses an account of the call records.
--   Race          the threads of the manager, interleaved between their critical sections; Race/Stale
--                 takes apart the clock readings of touch_session, which it makes before the lock.
--   Blacklist     src/server/blacklist.cpp.
--   Udp           the receiving thread of src/server/udp_server.cpp, around Bcd and Manager.
--   Http          the class and the routes of src/server/http_api.cpp.
--   Threads       the whole server: the listening loop of src/server/http_api.cpp, the joins of
--                 src/server/main.cpp, and the threads of the other parts, interleaved where the
--                 code lets go of its locks. Threads/Covering is about the call records,
--                 Threads/Reaches about parts that no other thread comes between.
--   Process       its schedules in which a request and a pass of the cleaner go through at once;
--                 Threads/Serial finds them among those of Threads. Process/Books and
--                 Process/Accounts are about the call records, Process/Total (with Process/Fits)
--                 about fuel, Process/Exit about how the process ends, Process/Loss about records
--                 that are queued then, Process/Listening about the port and about HttpApi::stop.
--   Json          nlohmann::json as a parameter, and the reading of required and optional fields.
--   Config        Config::load_from_file of src/server/config.cpp; Config/Loading proves.
--   ServerMain    src/server/main.cpp: the start of the server; ServerMain/Starting proves,
--                 ServerMain/Interleaved goes on with Threads, and ServerMain/EndToEnd and
--                 ServerMain/Database with Process, over the in-memory store and over SQLite.
--   Client        the requests of src/client/client.cpp; Client/Sockets is about what a request
--                 leaves behind, Client/Dialogue about a client against the server's handler.
--   ClientMain    src/client/main.cpp, and the IMSI of run_multiple_clients.
--   Session       include/pgw/session.hpp; Session/RoundTrip proves.
--   Text, Prelude std::string as a list of bytes with its order, and the shared helpers.
--   Tests         concrete states, and every theorem at one of them.
--
-- Conventions. A method takes the state and returns the new one. A uint8_t is a number below 256,
-- with % 256 where the code narrows. The i-th reading of the clock is in seconds; its text is the
-- clock's `stamp`, which a steady clock keeps in the order of time: true of "%F %T" at a fixed offset
-- from UTC, and not across a change to winter time. What a layout of a hash map may do is to permute it.
-- `touch_session` returns what the code returns, and the session it stores is `touched`.
--
-- Fuel. `writer_loop` takes one round for each queued record and one more to see that there is
-- none. `graceful_stop` takes at most one round for each session and two more: each round with a
-- positive rate removes a session, or else finds none live, and then the next round does too. At rate
-- 0 it takes a round for each reading of the clock up to the first that shows no live session.
--
-- Threads takes no fuel. Of a run of Process, the fuel is for the graceful stop: the sessions that
-- there can be, one more with each step, and two.
--
-- Not modelled: log messages; the sockets and the threads of the HTTP library, whose events are
-- arguments; the waits, which only bound when a thread goes on; the closing of the database; other
-- values of the C++ state after an exception.
pub mod Prelude
pub mod Text
pub mod Bcd
pub mod Cdr
pub mod Store
pub mod UnorderedMap
pub mod InMemory
pub mod Manager
pub mod Blacklist
pub mod Udp
pub mod Http
pub mod Race
mod Tests
pub mod Json
pub mod Config
pub mod Client
pub mod ClientMain
pub mod Sqlite
pub mod ServerMain
pub mod Process
pub mod Threads
pub mod Session
