-- ===== src/Examples.antt =====
-- Runs on small inputs, and theorems at an input.
mod Logs
mod Workflows
mod Events
mod Queue
mod Runs
mod SignIn
mod Archives
mod LogNames
mod Nightly
mod Ticks
