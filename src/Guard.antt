-- ===== src/Guard.antt =====
-- adws/core/fixRoundGuard.ts and fixRoundGuardTable.ts: which change of a fix round is accepted.
mod Table
mod Patterns
mod Section
mod Defs
unfoldable pub use Table.*
unfoldable pub use Patterns.*
unfoldable pub use Section.*
unfoldable pub use Defs.*
pub mod Covers
pub mod Sound
