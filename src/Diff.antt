-- ===== src/Diff.antt =====
-- adws/core/unifiedDiff.ts: what a diff changes, file by file.
mod Defs
unfoldable pub use Defs.*
pub mod Print
pub mod RoundTrip
