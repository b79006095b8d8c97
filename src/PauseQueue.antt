-- ===== src/PauseQueue.antt =====
-- adws/core/pauseQueue.ts and adws/triggers/pauseQueue*.ts: workflows that wait for a rate limit to reset.
mod Entry
mod Queue
mod Decider
mod Scan
mod Rules
unfoldable pub use Entry.*
unfoldable pub use Queue.*
unfoldable pub use Decider.*
unfoldable pub use Scan.*
pub use Rules.*
pub mod Uniqueness
pub mod Decisions
pub mod Resume
