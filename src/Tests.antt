-- ===== src/Tests.antt =====
-- Runs of the model at small inputs, and each theorem with hypotheses at an input that meets them.
mod AuthRuns
mod TakeoverRuns
mod HungRuns
mod GuardRuns
mod PhaseRuns
mod CommentRuns
mod BuildRuns
mod DispatchRuns
mod RateLimitRuns
mod RetryRuns
mod MergeRuns
mod CronRuns
mod PauseQueueRuns
mod LockRuns
mod RemoteRuns
mod StageRuns
