-- ===== src/Takeover/Calls.antt =====
-- The decisions of `evaluateCandidate`, and the calls that it is made of. A call has the world before it
-- and after it: the issue's lock file, the state files, and what was done to processes, worktrees and
-- the issue, newest first.
use ai_dev_workflow.Prelude.{Bool, Option, List, ℕ, String}
use ai_dev_workflow.State.{Store}
use ai_dev_workflow.Process.{Host}
use ai_dev_workflow.SpawnGate.{LockFile}
use ai_dev_workflow.Worktree.{WorktreeProbe}

pub data CandidateDecision : Type 0 where
  spawn_fresh : CandidateDecision
  take_over_adw_id : String → String → CandidateDecision
  defer_live_holder : ℕ → CandidateDecision
  skip_terminal : String → String → CandidateDecision
  escalate_human_gated : String → CandidateDecision

pub data Effect : Type 0 where
  killed : ℕ → Effect
  reset_worktree : String → String → Effect
  cleared_index_lock : String → Effect
  commented_human_gated : String → ℕ → ℕ → Effect

pub data Outcome {ℓ} (A : Type ℓ) : Type ℓ where
  ok : A → Outcome A
  thrown : Outcome A

pub record World : Type 0 where
  pub lock : LockFile
  pub store : Store
  pub trace : List Effect

-- What the handler is handed: the machine, this process, the adw-id that the issue's comments name, and
-- the git and forge calls. `fails` says which effects throw; a write of the state file may throw too.
pub record TakeoverDeps : Type 0 where
  pub host : Host
  pub own_pid : ℕ
  pub resolve_adw_id : Option String
  pub worktree_path_for : String → String
  pub probe_worktree : String → String → Option ℕ → Option String → Outcome WorktreeProbe
  pub derive_stage_from_remote : Store → String → Outcome String
  pub fails : Effect → Bool
  pub write_fails : Bool

abbrev pub M : Type 0 → Type 0
M A = World → Outcome A × World

abbrev pub bind_outcome :
    {A B : Type 0} → Outcome A → (A → World → Outcome B × World) → World → Outcome B × World
bind_outcome (ok a) f w = f a w
bind_outcome thrown f w = (thrown, w)

infixl 5 ◌>>=◌ ◌>>◌
abbrev pub ◌>>=◌ : {A B : Type 0} → M A → (A → M B) → M B
◌>>=◌ m f w = let (r, w') = m w in bind_outcome r f w'

abbrev pub ◌>>◌ : {B : Type 0} → M (Unit {0}) → M B → M B
m >> k = m >>= λ _. k

abbrev pub return : {A : Type 0} → A → M A
return a w = (ok a, w)
