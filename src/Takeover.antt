-- ===== src/Takeover.antt =====
-- adws/triggers/takeoverHandler.ts and adws/core/resumePolicy.ts: the one decision for every candidate
-- that arrives at an issue.
mod Calls
mod Defs
mod Recovery
mod Lock
mod Safety
mod Effects
unfoldable pub use Calls.*
unfoldable pub use Defs.*
pub use Recovery.*
pub use Lock.*
unfoldable pub use Safety.*
pub use Effects.*
