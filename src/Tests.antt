-- ===== src/Tests.antt =====
-- The theorems at concrete tables, logs and states, and runs of the definitions.
mod Data
mod Storage
mod Log
mod Queue
mod Whole
mod Runs
mod Config
mod Start
