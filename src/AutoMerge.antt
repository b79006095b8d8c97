-- ===== src/AutoMerge.antt =====
-- adws/triggers/autoMergeHandler.ts and baseIntegration.ts: bringing the base branch in, proving the
-- result, and asking the forge to merge.
mod World
mod Attempt
unfoldable pub use World.*
unfoldable pub use Attempt.*
pub mod Proof
pub mod Bounds
pub mod Resolver
