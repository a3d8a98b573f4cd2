-- ===== src/Tests.antt =====
-- Runs of the program over the services in memory, and the theorems at concrete data.
mod Data
mod Chains
mod Stores
mod Commits
mod Sessions
mod Reads
mod Removals
mod Mounts
mod Calls
mod Processes
mod Written
