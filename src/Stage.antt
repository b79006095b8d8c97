-- ===== src/Stage.antt =====
-- adws/types/workflowTypes.ts and adws/core/stageClassifier.ts: the stages of a workflow, and the six
-- classes by which the cron, the takeover and the directives decide.
mod Defs
mod Classes
unfoldable pub use Defs.*
pub use Classes.*
