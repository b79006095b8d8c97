-- ===== src/Comments.antt =====
-- adws/core/workflowCommentParsing.ts and adws/forge/workflowCommentsIssue.ts: the comments by which a workflow leaves
-- its progress on an issue, and the state that a later run recovers from them.
mod Markers
mod Recovery
mod Format
unfoldable pub use Markers.*
unfoldable pub use Recovery.*
unfoldable pub use Format.*
mod Places
mod Pieces
pub mod Progress
pub mod RoundTrip
