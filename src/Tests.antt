-- ===== src/Tests.antt =====
-- Concrete states of the program, and each theorem at one of them.
mod Fixtures
mod Wire
mod Stores
mod Sessions
mod Threads
mod Programs
mod Database
mod Server
mod Interleavings
mod Processes
mod Databases
mod SessionJson
mod Layouts
