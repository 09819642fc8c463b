-- ===== src/Contracts/Action.antt =====
-- contracts/action.go. A Go string type with constants is a data type with those constants and a
-- constructor for any other text. `BatchSize` and `Score` are never negative where they are read:
-- the code takes a size at most 0 for 1, and clamps the score to 0..100.
use safeops_agent.Prelude.{
  ℕ, String, Bool, true, false, List, ◌==◌, Result, err, to_lower, trim_space, if◌then◌else◌,
}
use Prim.Native.String.{◌++◌}
use safeops_agent.Json.{Fields}

pub data Effect : Type 0 where
  read write : Effect
  other_effect : String → Effect

pub data RiskLevel : Type 0 where
  l0 l1 l2 l3 : RiskLevel
  other_level : String → RiskLevel

-- `unset` is the zero value of a decision that was never taken.
pub data Outcome : Type 0 where
  unset allow deny require_approval : Outcome

pub record TargetRef : Type 0 where
  pub kind : String
  pub id : String
  pub criticality : String

pub record TargetAuthorization : Type 0 where
  pub target : TargetRef
  pub related_to : TargetRef
  pub relation : String
  pub evidence_refs : List String

pub record IntentContext : Type 0 where
  pub original_request : String
  pub objective : String
  pub objective_targets : List TargetRef
  pub plan_step : String
  pub plan_targets : List TargetRef
  pub authorized_relations : List TargetAuthorization

pub record ActionProposal : Type 0 where
  pub proposal_id : String
  pub task_id : String
  pub session_id : String
  pub tool : String
  pub effect : Effect
  pub arguments : Fields
  pub target : TargetRef
  pub batch_size : ℕ
  pub reversible : Bool
  pub rollback_strategy : String
  pub lab_mode : Bool
  pub system_state : String
  pub intent : IntentContext

pub record RiskResult : Type 0 where
  pub level : RiskLevel
  pub score : ℕ
  pub factors : List String
  pub reason : String

pub record GuardDecision : Type 0 where
  pub decision_id : String
  pub outcome : Outcome
  pub reason_codes : List String
  pub reason : String
  pub matched_rule_ids : List String
  pub policy_version : String
  pub risk : RiskResult

abbrev pub no_risk : RiskResult
no_risk = record { level = RiskLevel.other_level ""; score = 0; factors = List.[]; reason = "" }

-- Comparisons of the Go string types.
unfoldable pub effect_eq : Effect → Effect → Bool
effect_eq read read = true
effect_eq write write = true
effect_eq (other_effect s) (other_effect t) = s == t
effect_eq _ _ = false

unfoldable pub level_eq : RiskLevel → RiskLevel → Bool
level_eq l0 l0 = true
level_eq l1 l1 = true
level_eq l2 l2 = true
level_eq l3 l3 = true
level_eq (other_level s) (other_level t) = s == t
level_eq _ _ = false

unfoldable pub outcome_eq : Outcome → Outcome → Bool
outcome_eq unset unset = true
outcome_eq allow allow = true
outcome_eq deny deny = true
outcome_eq require_approval require_approval = true
outcome_eq _ _ = false

-- `Digest`: `marshal` is `json.Marshal`, which fails on some `Arguments`, and `sha256_hex` the
-- hexadecimal SHA-256.
unfoldable pub proposal_digest :
    (ActionProposal → Result String) → (String → String) → ActionProposal → Result String
proposal_digest marshal sha256_hex p =
    if p.tool == ""
    then err "tool is required"
    else elim (marshal p) [ Result.ok b ↦ Result.ok (sha256_hex b) | Result.err e ↦ Result.err e ]

-- `CanonicalTarget`. Letters beyond ASCII keep their case here, where Go lowers them too: two targets
-- that differ in the case of such letters alone are equal in Go only.
unfoldable pub canonical_target : TargetRef → String
canonical_target t = to_lower (trim_space t.kind) ++ ":" ++ to_lower (trim_space t.id)
