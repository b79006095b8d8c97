-- ===== src/Build/Loop.antt =====
-- The loop of `executeBuildPhase`. The agents, git and what they work on are arguments: a worktree `W`, and calls that
-- change it. A call that throws ends the phase. Costs, progress comments and the agents' own state files are left out.
use ai_dev_workflow.Prelude.{
  Bool, true, false, ◌&&◌, not, Option, none, some, List, [], ◌∷◌, ℕ, zero, suc, String,
  if◌then◌else◌, ltb,
}
use ai_dev_workflow.Build.Gate.{
  AbortReason, ProgressGateDecision, continue, complete, abort, reports_build_complete,
  evaluate_progress_gate,
}

pub data RestartTrigger : Type 0 where
  token_limit compaction : RestartTrigger

-- The arguments of `buildContinuationPrompt` that vary within a build: the output of the agent before, why it was
-- stopped, and whether checkpoints are committed.
pub data Prompt : Type 0 where
  plan_content resume_in_place : Prompt
  continuation : String → RestartTrigger → Bool → Prompt

pub record AgentRun : Type 0 where
  pub output : String
  pub is_success : Bool
  pub token_limit_exceeded : Bool
  pub compaction_detected : Bool

-- `run_build_agent` and the reads of git answer nothing where they throw; `run_commit_agent` says whether it returned.
pub record BuildPorts (W : Type 0) : Type 0 where
  pub run_build_agent : Prompt → W → Option AgentRun × W
  pub has_uncommitted_changes : W → Option Bool
  pub run_commit_agent : W → Bool × W
  pub get_head_tree_hash : W → Option String
  pub max_context_resets : ℕ
  pub max_progress_checkpoints : ℕ

-- The recovery comment of a restart carries the number of resets so far.
pub data BuildEvent : Type 0 where
  ran : Prompt → BuildEvent
  commented_recovery : RestartTrigger → ℕ → BuildEvent
  committed : BuildEvent

-- The loop's variables, with the worktree and the events, newest first.
pub record BuildState (W : Type 0) : Type 0 where
  pub worktree : W
  pub current_prompt : Prompt
  pub seen_tree_hashes : List String
  pub per_batch_resets : ℕ
  pub checkpoint_count : ℕ
  pub context_reset_count : ℕ
  pub events : List BuildEvent

pub data BuildEnd : Type 0 where
  built : String → BuildEnd
  aborted : AbortReason → BuildEnd
  agent_failed : String → BuildEnd
  call_threw out_of_fuel : BuildEnd

pub data Round (W : Type 0) : Type 0 where
  again : BuildState W → Round W
  ended : BuildEnd → BuildState W → Round W

abbrev pub restart_trigger : AgentRun → Option RestartTrigger
restart_trigger run =
    if run.token_limit_exceeded
    then some token_limit
    else if run.compaction_detected
    then some compaction
    else none

module _ {W : Type 0} (ports : BuildPorts W) where
  -- What a run that was not restarted leads to.
  abbrev pub finish : AgentRun → BuildState W → Round W
  finish run s =
      if run.is_success then ended (built run.output) s else ended (agent_failed run.output) s

  -- `buildContinuationPrompt(…, checkpointCount > 0)`
  abbrev pub continued : RestartTrigger → AgentRun → BuildState W → BuildState W
  continued trigger run s = record s {
    current_prompt = continuation run.output trigger (ltb 0 s.checkpoint_count);
  }

  abbrev pub checkpointed : String → BuildState W → BuildState W
  checkpointed hash s = record s {
    seen_tree_hashes = hash ∷ s.seen_tree_hashes;
    checkpoint_count = suc s.checkpoint_count;
    per_batch_resets = 0;
  }

  abbrev pub act_on_gate :
      ProgressGateDecision → String → RestartTrigger → AgentRun → BuildState W → Round W
  act_on_gate (abort reason) hash trigger run s = ended (aborted reason) s
  act_on_gate continue hash trigger run s = again (continued trigger run (checkpointed hash s))
  act_on_gate complete hash trigger run s = finish run s

  abbrev pub gate_decision : String → AgentRun → BuildState W → ProgressGateDecision
  gate_decision hash run s = evaluate_progress_gate (record {
    head_tree_hash = hash;
    seen = s.seen_tree_hashes;
    checkpoint_count = s.checkpoint_count;
    max_checkpoints = ports.max_progress_checkpoints;
    completion_reported = reports_build_complete run.output;
  })

  abbrev pub with_hash : Option String → RestartTrigger → AgentRun → BuildState W → Round W
  with_hash none trigger run s = ended call_threw s
  with_hash (some hash) trigger run s = act_on_gate (gate_decision hash run s) hash trigger run s

  abbrev pub after_commit : Bool → RestartTrigger → AgentRun → BuildState W → Round W
  after_commit false trigger run s = ended call_threw s
  after_commit true trigger run s = with_hash (ports.get_head_tree_hash s.worktree) trigger run s

  abbrev pub commit_if_dirty : Option Bool → RestartTrigger → AgentRun → BuildState W → Round W
  commit_if_dirty none trigger run s = ended call_threw s
  commit_if_dirty (some false) trigger run s = after_commit true trigger run s
  commit_if_dirty (some true) trigger run s =
      let (returned, w) = ports.run_commit_agent s.worktree in
      after_commit returned trigger run (record s { worktree = w; events = committed ∷ s.events })

  -- A batch boundary, or an agent that reported completion.
  unfoldable pub at_boundary : RestartTrigger → AgentRun → BuildState W → Round W
  unfolding evaluate_progress_gate
  at_boundary trigger run s =
      commit_if_dirty (ports.has_uncommitted_changes s.worktree) trigger run s

  abbrev pub count_reset : RestartTrigger → AgentRun → BuildState W → BuildState W
  count_reset trigger run s = record s {
    per_batch_resets = suc s.per_batch_resets;
    context_reset_count = suc s.context_reset_count;
    events =
        if reports_build_complete run.output
        then s.events
        else commented_recovery trigger (suc s.context_reset_count) ∷ s.events;
  }

  abbrev pub restarted : RestartTrigger → AgentRun → BuildState W → Round W
  restarted trigger run s =
      if not (reports_build_complete run.output) && ltb s.per_batch_resets ports.max_context_resets
      then again (continued trigger run s)
      else at_boundary trigger run s

  abbrev pub after_trigger : Option RestartTrigger → AgentRun → BuildState W → Round W
  after_trigger none run s = finish run s
  after_trigger (some trigger) run s = restarted trigger run (count_reset trigger run s)

  abbrev pub after_run : Option AgentRun → BuildState W → Round W
  after_run none s = ended call_threw s
  after_run (some run) s = after_trigger (restart_trigger run) run s

  unfoldable pub build_round : BuildState W → Round W
  unfolding at_boundary reports_build_complete
  build_round s =
      let (answer, w) = ports.run_build_agent s.current_prompt s.worktree in
      after_run answer (record s { worktree = w; events = ran s.current_prompt ∷ s.events })

  -- `while (!buildCompleted)`
  unfoldable pub build_loop : ℕ → BuildState W → BuildEnd × BuildState W
  unfolding build_round
  build_loop zero s = (out_of_fuel, s)
  build_loop (suc fuel) s = elim (build_round s) [
    | again s' ↦ build_loop fuel s'
    | ended e s' ↦ (e, s')
  ]

  abbrev pub build_start : List String → Bool → W → BuildState W
  build_start seen resumes w = record {
    worktree = w;
    current_prompt = if resumes then resume_in_place else plan_content;
    seen_tree_hashes = seen;
    per_batch_resets = 0;
    checkpoint_count = 0;
    context_reset_count = 0;
    events = [];
  }

  abbrev pub build_from : Option String → ℕ → Bool → W → BuildEnd × BuildState W
  build_from none fuel resumes w = (call_threw, build_start [] resumes w)
  build_from (some hash) fuel resumes w = build_loop fuel (build_start (hash ∷ []) resumes w)

  -- The build of `executeBuildPhase`, for a recovery state that resumes or not.
  unfoldable pub execute_build : ℕ → Bool → W → BuildEnd × BuildState W
  unfolding build_loop
  execute_build fuel resumes w = build_from (ports.get_head_tree_hash w) fuel resumes w
