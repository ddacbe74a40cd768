-- ===== src/Tests.antt =====
-- Runs of the modelled code at concrete inputs, where the hypotheses of the theorems hold.
mod Answers
mod Data
mod Documents
mod Stores
mod Daemon
mod Drives
mod Memory
mod Local
mod Cli
mod Client
mod System
