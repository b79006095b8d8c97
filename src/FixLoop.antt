-- ===== src/FixLoop.antt =====
-- adws/core/staticCheckFixLoop.ts: rounds of fixes under the guard, until the checks pass or a round makes no
-- progress. The costs, which are floating-point, and the report are left out.
mod Loop
unfoldable pub use Loop.*
pub mod Stops
