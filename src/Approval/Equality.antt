-- ===== src/Approval/Equality.antt =====
-- Bindings that the code finds equal are equal.
use safeops_agent.Prelude.{◌≡◌, true, ==→eq, ap, arith}
use safeops_agent.Contracts.Action.{RiskLevel, other_level, level_eq}
use safeops_agent.Approval.Types.{Binding, binding_eq}

pub level_eq→eq : (a b : RiskLevel) → level_eq a b ≡ true → a ≡ b
unfolding level_eq
level_eq→eq (other_level s) (other_level t) h = ap other_level (==→eq s t h)
level_eq→eq a b h = ground arith

pub binding_eq→eq : (a b : Binding) → binding_eq a b ≡ true → a ≡ b
unfolding binding_eq
binding_eq→eq a b h = ground (
  arith,
  ==→eq a.task_id b.task_id,
  ==→eq a.proposal_digest b.proposal_digest,
  ==→eq a.target_snapshot_digest b.target_snapshot_digest,
  ==→eq a.intent_digest b.intent_digest,
  ==→eq a.policy_version b.policy_version,
  level_eq→eq a.risk_level b.risk_level,
  ==→eq a.tool b.tool,
  ==→eq a.nonce b.nonce,
)
