-- ===== src/Guard/Static.antt =====
-- internal/guard/static.go. The random decision ID is an argument.
use safeops_agent.Prelude.{
  bool_eq, String, Bool, not, ◌&&◌, ◌||◌, [], ◌∷◌, ◌==◌, any, to_lower, trim_space, if◌then◌else◌,
}
use safeops_agent.Contracts.Action.{
  read, l2, l3, unset, allow, deny, require_approval, ActionProposal, GuardDecision, no_risk,
  effect_eq, level_eq, outcome_eq,
}
use safeops_agent.Guard.Catalog.{Catalog, ToolPolicy, policy}
use safeops_agent.Guard.Risk.{RiskEngine, evaluate_risk}

pub record StaticGuard : Type 0 where
  pub catalog : Catalog
  pub risk : RiskEngine

unfoldable pub new_static_guard : Catalog → StaticGuard
new_static_guard c = record { catalog = c; risk = record { catalog = c } }

-- `deny`
unfoldable pub denied : GuardDecision → String → String → String → GuardDecision
denied d code rule reason = record d {
  outcome = deny;
  reason_codes = code ∷ [];
  matched_rule_ids = rule ∷ [];
  reason = reason;
}

unfoldable pub target_type_allowed : ToolPolicy → String → Bool
target_type_allowed p kind = elim p.allowed_target_types [
  | [] ↦ effect_eq p.effect read
  | t ∷ ts ↦ any (λ allowed. allowed == kind) (t ∷ ts)
]

unfoldable pub forbidden_capability : String → Bool
forbidden_capability tool =
    let normalized = to_lower (trim_space tool) in
    any (λ name. normalized == name)
      ("shell.execute" ∷ "terminal.run" ∷ "command.execute" ∷ "bash.run" ∷ "execute_command"
        ∷ "run_shell" ∷ [])

abbrev start_decision : String → String → GuardDecision
start_decision decision_id version = record {
  decision_id = decision_id;
  outcome = unset;
  reason_codes = [];
  reason = "";
  matched_rule_ids = [];
  policy_version = version;
  risk = no_risk;
}

unfoldable pub precheck : StaticGuard → String → ActionProposal → GuardDecision
unfolding denied
precheck g decision_id p =
    let d = start_decision decision_id g.catalog.version in
    let (found, known) = policy g.catalog p.tool in
    if forbidden_capability p.tool
    then denied d "FORBIDDEN_CAPABILITY" "forbidden-capability" "禁止任意 Shell 或命令执行能力"
    else if not known
    then denied d "UNKNOWN_TOOL" "unknown-tool-deny" "本地安全策略没有该 Tool，默认拒绝"
    else if not (effect_eq p.effect found.effect)
    then denied d "EFFECT_MISMATCH" found.rule_id "Action Proposal effect 与本地 Tool Policy 不一致"
    else if not (target_type_allowed found p.target.kind)
    then denied d "TARGET_TYPE_DENIED" found.rule_id "目标类型不在 Tool Policy allowlist"
    else if effect_eq found.effect read
    then record d {
      outcome = allow;
      reason_codes = "KNOWN_READ_TOOL" ∷ [];
      reason = "本地策略确认该 Tool 为已知只读能力";
      matched_rule_ids = found.rule_id ∷ [];
    }
    else if not (bool_eq found.reversible p.reversible)
    then denied d "REVERSIBILITY_MISMATCH" found.rule_id "Action Proposal 的可逆性与本地 Tool Policy 不一致"
    else if p.reversible && p.rollback_strategy == ""
    then denied d "ROLLBACK_REQUIRED" found.rule_id "可逆写操作缺少明确 Rollback Strategy"
    else record d {
      matched_rule_ids = found.rule_id ∷ [];
      outcome = allow;
      reason_codes = "POLICY_ALLOW" ∷ [];
      reason = "已知写能力满足本地静态约束";
    }

-- `StaticGuard.Evaluate`
unfoldable pub evaluate_static : StaticGuard → String → ActionProposal → GuardDecision
unfolding denied
evaluate_static g decision_id p =
    let d = precheck g decision_id p in
    let risk = evaluate_risk g.risk p in
    let (found, _) = policy g.catalog p.tool in
    let assessed = record d { risk = risk } in
    if outcome_eq d.outcome deny
    then assessed
    else if effect_eq found.effect read
    then assessed
    else if level_eq risk.level l3
    then denied assessed "L3_DEFAULT_DENY" found.rule_id "L3 关键操作默认拒绝"
    else if found.approval || level_eq risk.level l2
    then record assessed {
      outcome = require_approval;
      reason_codes = "WRITE_REQUIRES_APPROVAL" ∷ [];
      reason = "本地策略或上下文风险要求人工审批";
    }
    else assessed
