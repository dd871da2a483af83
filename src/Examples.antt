-- ===== src/Examples.antt =====
-- The theorems at concrete inputs, and runs of the definitions, on tables in memory.
mod Data
mod Worklist
mod Sessions
mod Worker
mod Outputs
mod Runner
mod FileLock
mod Accounts
mod Transactions
mod Targets
mod Params
