-- ===== src/Eligibility.antt =====
-- adws/triggers/issueEligibility.ts and what it asks: dependencies and concurrency.
mod Parse
mod Defs
unfoldable pub use Parse.*
unfoldable pub use Defs.*
pub mod Laws
