-- ===== src/Auth.antt =====
-- adws/core/authGate.ts, adws/triggers/scanAuthQueue.ts and the gate of adws/triggers/trigger_cron.ts: what happens to
-- the workflows when the agent's login is gone, and when it is back.
mod Gate
mod Scan
unfoldable pub use Gate.*
unfoldable pub use Scan.*
pub mod Pause
pub mod Leak
