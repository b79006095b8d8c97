-- ===== src/State.antt =====
-- adws/core/agentState.ts and adws/types/agentTypes.ts: the top-level state file of a workflow.
mod Defs
mod Files
unfoldable pub use Defs.*
pub use Files.*
