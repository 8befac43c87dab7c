-- ===== src/Manager/Accounts.antt =====
-- The call records against the store: for each IMSI, whether its records open and close its session in
-- turn, and whether it is open when the store has it.
pub mod Phase
pub mod Steps
pub mod Run
