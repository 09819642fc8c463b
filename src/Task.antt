-- ===== src/Task.antt =====
-- internal/task/task.go. Raw JSON is its text, and a time of 0 is Go's zero time.
use safeops_agent.Prelude.{ℕ, ◌+◌, String, List, Dict}

pub data State : Type 0 where
  new investigating planning executing waiting_approval verifying replanning : State
  completed failed cancelled : State
  other_state : String → State

pub record Step : Type 0 where
  pub id : String
  pub description : String
  pub tool : String
  pub state : String

pub record RuntimeObservation : Type 0 where
  pub server_id : String
  pub tool : String
  pub arguments : String
  pub result : String
  pub evidence_ref : String
  pub digest : String

pub record RuntimeGuardFeedback : Type 0 where
  pub code : String
  pub summary : String
  pub tool : String
  pub attempted_path : String
  pub authorized_paths : List String
  pub excluded_paths : List String

pub record RuntimeCheckpoint : Type 0 where
  pub iterations : ℕ
  pub tool_calls : ℕ
  pub replans : ℕ
  pub no_progress_repeats : ℕ
  pub last_progress_digest : String
  pub max_iterations : ℕ
  pub max_tool_calls : ℕ
  pub started_at : ℕ
  pub deadline_at : ℕ
  pub observations : List RuntimeObservation
  pub guard_feedback : List RuntimeGuardFeedback

pub record WorkerLease : Type 0 where
  pub owner : String
  pub token : String
  pub fence : ℕ
  pub expires_at : ℕ

-- The type `Task` of the source; `current_step` is an index that the code keeps at 0 or more.
pub record Task : Type 0 where
  pub id : String
  pub session_id : String
  pub objective : String
  pub original_request : String
  pub state : State
  pub intent_type : String
  pub plan : List Step
  pub current_step : ℕ
  pub completed_steps : List String
  pub findings : List String
  pub selected_resources : List String
  pub evidence_refs : List String
  pub pending_action : String
  pub pending_approval_id : String
  pub verification_goal : String
  pub workflow_data : Dict String
  pub runtime : RuntimeCheckpoint
  pub worker_lease : WorkerLease
  pub checkpoint : ℕ
  pub failure_reason : String
  pub created_at : ℕ
  pub updated_at : ℕ

-- `Transition` at a time.
unfoldable pub transition : State → ℕ → Task → Task
transition state now t = record t { state = state; checkpoint = t.checkpoint + 1; updated_at = now }
