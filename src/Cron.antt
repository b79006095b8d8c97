-- ===== src/Cron.antt =====
-- adws/triggers/cron*.ts and regionOverlap.ts: which issues one tick of the cron may act on.
mod Overlap
mod Labels
mod Stages
mod Filter
unfoldable pub use Overlap.*
unfoldable pub use Labels.*
unfoldable pub use Stages.*
unfoldable pub use Filter.*
pub mod Serialization
pub mod Activity
pub mod Admission
pub mod Deferral
pub mod Candidates
pub mod Parallel
