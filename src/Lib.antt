-- ===== src/Lib.antt =====
-- A model of the coordination core of ADW, the AI Developer Workflow (adws/): which process may work on
-- an issue, what becomes of a workflow whose process stopped, which issues a cron tick starts, and when a
-- pull request is merged.
--
-- The parts and how they interact. An orchestrator works on one issue under an adw-id. It writes its
-- stage and its process into the state file of that id and holds the issue's spawn lock while it lives.
-- A cron lists the issues, filters them by stage, labels and touched files (Cron), asks whether each
-- admitted one is blocked by another or over the cap (Eligibility), and launches what it decides on
-- (Dispatch). The decision is the takeover handler's (Takeover), which takes the lock (SpawnGate), reads the state file
-- (State), classifies the stage (Stage), asks whether the recorded process lives (Process), decides
-- whether the worktree may be used again (Worktree), and reads the true stage off the remote
-- (Reconcile). A workflow that hits a rate limit waits in a queue that every cron scans (PauseQueue). A
-- human's retry comment recovers a parked workflow (Retry). The merge step brings the base branch in,
-- proves the result and asks the forge to merge (AutoMerge). A detector reports live orchestrators that
-- have gone silent (Hung). An orchestrator runs its phases in order (Phase); a phase that meets a five-hour limit
-- waits in the process (RateLimit), one that meets a lost login waits for a cron to see it back (Auth), and every
-- end of the process by the runner or the orchestrator leaves a stage for the cron to read. A phase
-- that finds its checks red (Checks) lets an agent fix them (FixLoop); each fix is read as a diff (Diff), which a guard
-- accepts or rejects (Guard). The build runs agents until one is done or none advances (Build). A workflow posts a
-- comment at each stage, from which a later run recovers how far it got (Comments).
--
-- Files and the code they model:
--   Prelude: lists, options, texts and Boolean tests that the parts share.
--   Stage: adws/core/stageClassifier.ts and the stages of adws/types/workflowTypes.ts.
--   State: the top-level state file of adws/core/agentState.ts (readTopLevelState,
--     writeTopLevelState), whose record is AgentState of adws/types/agentTypes.ts.
--   Process: adws/core/processLiveness.ts (isProcessLive, isRecordedOwnerLive).
--   SpawnGate: adws/triggers/spawnGate.ts and mergeDispatchGate.ts. Defs has the calls run alone; Race
--     has acquireIssueSpawnLock as a step relation, one file operation a step: the exclusive creation is an open and
--     a write, as writeFileSync does it.
--   Worktree: adws/vcs/worktreeProbe.ts and worktreeReuseGate.ts.
--   Reconcile: adws/core/remoteReconcile.ts (deriveStageFromRemote).
--   Takeover: adws/triggers/takeoverHandler.ts and adws/core/resumePolicy.ts. Calls has the world of lock,
--     state files and effects, with the bind of calls that may throw; Defs has evaluateCandidate.
--   PauseQueue: adws/core/pauseQueue.ts, adws/triggers/pauseQueueDecider.ts, pauseQueueResume.ts and
--     pauseQueueScanner.ts, with parseTargetRepoArgs of adws/core/orchestratorCli.ts.
--   Cron: adws/triggers/cronIssueFilter.ts (Filter), regionOverlap.ts (Overlap), cronStageResolver.ts
--     (Stages), cronLabelEligibility.ts with adws/core/adwLabels.ts (Labels).
--   AutoMerge: adws/triggers/autoMergeHandler.ts (Attempt), baseIntegration.ts and
--     adws/core/postMergeVerdict.ts (World).
--   Retry: adws/triggers/retryHandler.ts (Directive) and adws/core/retryOrchestrator.ts (Loop).
--   Hung: adws/core/hungOrchestratorDetector.ts.
--   RateLimit: adws/core/rateLimitWaitPolicy.ts, and waitForRateLimitReset of adws/core/phaseRunner.ts.
--   Eligibility: adws/triggers/issueDependencies.ts (Parse), and concurrencyGuard.ts, issueEligibility.ts and
--     adws/forge/linkedPrDetector.ts (Defs).
--   Dispatch: adws/triggers/cronLaunchLedger.ts (Ledger), the loop of checkAndTrigger in
--     adws/triggers/trigger_cron.ts with classifyAndSpawnWorkflow of webhookGatekeeper.ts (Defs).
--   Diff: adws/core/unifiedDiff.ts, with a printer that the source does not have (Print).
--   Guard: adws/core/fixRoundGuardTable.ts (Table) and fixRoundGuard.ts (Patterns, Section, Defs).
--   Checks: adws/core/checkRunner.ts.
--   FixLoop: adws/core/staticCheckFixLoop.ts.
--   Build: adws/phases/progressGate.ts (Gate) and the loop of executeBuildPhase in buildPhase.ts (Loop).
--   Comments: adws/core/workflowCommentParsing.ts (Markers, and detectRecoveryState in Recovery),
--     adws/core/orchestratorLib.ts (Recovery), and adws/forge/workflowCommentsIssue.ts (Format).
--   Phase: runPhase of adws/core/phaseRunner.ts (Runner), and the handlers of adws/phases/workflowCompletion.ts and
--     authPause.ts with the sequence of adws/adwPlan.tsx (Exit).
--   Auth: adws/core/authGate.ts and the loop of handleAuthGateTick in adws/triggers/trigger_cron.ts (Gate), and
--     adws/triggers/scanAuthQueue.ts (Scan).
--   Tests: runs at concrete inputs.
--
-- How state is modelled. A file is a value: the lock file is absent, malformed or held by a record; the
-- state files are a function from adw-ids; the queue file is a list. An operation takes the values
-- before and gives those after. What leaves the process (a kill, a reset worktree, a comment, a spawn,
-- a call to the forge) is put on a trace, newest first. Optional fields are options, and an
-- empty text counts as absent where the source tests truth. Times are milliseconds as natural numbers.
-- Texts are compared in ASCII where the source folds case or trims.
--
-- Parameters. The operating system's reads of a process, the engine's Date, git, the forge and the
-- agents are arguments; their answers are free unless a theorem has a hypothesis on them. The adw-id
-- that comments name, the touched files of an issue's body and the ADW signature of a comment are
-- found by regular expressions in the source and are arguments here.
--
-- Bounds. deriveStageFromRemote reads the remote five times at most: once, and once for each of the three
-- retries and the first check. retryWithResolution runs on fuel, the sum of its two budgets: each round
-- spends a retry or a context reset, and one reset more than allowed throws. sleepUntil runs on fuel, the
-- milliseconds that are left: each sleep takes one or more. The merge loop has three
-- attempts with five calls to the forge each. The fix loop has no bound in the source, so that its fuel is
-- the number of rounds looked at; its theorem says what a run that uses it up has done. All other loops
-- go over a list. The build loop runs on as much fuel as its batches allow resets, which is proved to be enough.
--
-- Not modelled: the phases other than the build, phases that run in parallel, the command lines and the output of
-- agents, upgrades, the comments of pull requests, the webhook's routing, the messages to Slack, costs, which are
-- floating-point, the device and dev-server lifecycles, the docs index, the promotion sweep and the scenario proofs.

mod Prelude
pub mod Stage
pub mod State
pub mod Process
pub mod SpawnGate
pub mod Worktree
pub mod Reconcile
pub mod Takeover
pub mod PauseQueue
pub mod Cron
pub mod AutoMerge
pub mod Retry
pub mod Hung
pub mod RateLimit
pub mod Diff
pub mod Guard
pub mod Checks
pub mod FixLoop
pub mod Eligibility
pub mod Dispatch
pub mod Build
pub mod Comments
pub mod Phase
pub mod Auth
mod Tests
