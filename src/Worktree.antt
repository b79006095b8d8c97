-- ===== src/Worktree.antt =====
-- adws/vcs/worktreeReuseGate.ts and adws/vcs/worktreeProbe.ts: may a dead orchestrator's worktree be
-- used as it is, or must it be reset from the remote branch?
mod Defs
mod Gate
unfoldable pub use Defs.*
pub use Gate.*
