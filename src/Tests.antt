-- ===== src/Tests.antt =====
-- Runs of the program on concrete values, and the theorems at concrete values.
mod Samples
mod Wire
mod Transfers
mod Clipboard
mod Copies
mod Pastes
mod Sequences
mod Exchanges
mod Mirrors
mod Lifecycle
mod Runs
mod Processes
mod Progress
