-- ===== src/SpawnGate.antt =====
-- adws/triggers/spawnGate.ts and adws/triggers/mergeDispatchGate.ts: the lock file that keeps a second
-- orchestrator from an issue.
mod Defs
mod Laws
pub mod Race
pub mod Exclusion
unfoldable pub use Defs.*
unfoldable pub use Laws.*
