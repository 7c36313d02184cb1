-- ===== src/Tests.antt =====
-- Tests, and runs of the theorems at concrete states.
pub mod Fixtures
mod Html
mod QueueRuns
mod WorkerRuns
mod RelayRuns
mod TelegramRuns
mod ModemRuns
mod ImportRuns
mod AppRuns
