-- ===== src/Approval/Types.antt =====
-- internal/approval/store.go: statuses, bindings and records. A time of 0 is Go's zero time.
use safeops_agent.Prelude.{ℕ, String, Bool, true, false, ◌&&◌, ◌==◌}
use safeops_agent.Contracts.Action.{RiskLevel, level_eq}

pub data Status : Type 0 where
  pending approved rejected consumed expired : Status
  other_status : String → Status

pub record Binding : Type 0 where
  pub task_id : String
  pub proposal_digest : String
  pub target_snapshot_digest : String
  pub intent_digest : String
  pub policy_version : String
  pub risk_level : RiskLevel
  pub tool : String
  pub nonce : String

-- The name `Record` of the source.
pub record Approval : Type 0 where
  pub id : String
  pub binding : Binding
  pub status : Status
  pub reason : String
  pub created_at : ℕ
  pub expires_at : ℕ
  pub resolved_at : ℕ
  pub consumed_at : ℕ

unfoldable pub status_eq : Status → Status → Bool
status_eq pending pending = true
status_eq approved approved = true
status_eq rejected rejected = true
status_eq consumed consumed = true
status_eq expired expired = true
status_eq (other_status s) (other_status t) = s == t
status_eq _ _ = false

abbrev pub status_text : Status → String
status_text pending = "PENDING"
status_text approved = "APPROVED"
status_text rejected = "REJECTED"
status_text consumed = "CONSUMED"
status_text expired = "EXPIRED"
status_text (other_status s) = s

-- `record.Binding == binding`, a comparison of structs.
unfoldable pub binding_eq : Binding → Binding → Bool
binding_eq a b =
    a.task_id == b.task_id
    && a.proposal_digest == b.proposal_digest
    && a.target_snapshot_digest == b.target_snapshot_digest
    && a.intent_digest == b.intent_digest
    && a.policy_version == b.policy_version
    && level_eq a.risk_level b.risk_level
    && a.tool == b.tool
    && a.nonce == b.nonce
