-- ===== src/Build.antt =====
-- adws/phases/buildPhase.ts and progressGate.ts: the loop of build agents and its progress gate.
mod Gate
mod Loop
unfoldable pub use Gate.*
unfoldable pub use Loop.*
pub mod Stops
