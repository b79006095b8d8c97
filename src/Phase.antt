-- ===== src/Phase.antt =====
-- adws/core/phaseRunner.ts and adws/phases/workflowCompletion.ts: the phases of a workflow, and how its process ends.
mod World
mod Runner
mod Exit
unfoldable pub use World.*
unfoldable pub use Runner.*
unfoldable pub use Exit.*
mod Files
pub mod Laws
pub mod Ends
