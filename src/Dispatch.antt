-- ===== src/Dispatch.antt =====
-- adws/triggers/trigger_cron.ts: what a tick does with the candidates that the filter lets through.
mod Ledger
mod Defs
unfoldable pub use Ledger.*
unfoldable pub use Defs.*
pub mod Launches
pub mod Once
pub mod Stranded
