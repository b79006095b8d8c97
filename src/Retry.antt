-- ===== src/Retry.antt =====
-- Second tries: adws/triggers/retryHandler.ts, which a `## Retry` comment of a human starts, and
-- adws/core/retryOrchestrator.ts, which repeats a failing step.
mod Directive
mod Loop
unfoldable pub use Directive.*
unfoldable pub use Loop.*
pub mod Rearming
pub mod Rounds
