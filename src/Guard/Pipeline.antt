-- ===== src/Guard/Pipeline.antt =====
-- internal/guard/pipeline.go. The random IDs of the two decisions are arguments.
use safeops_agent.Prelude.{String, ◌&&◌, ◌||◌, [], ◌∷◌, if◌then◌else◌}
use safeops_agent.Contracts.Action.{
  write, l2, l3, deny, require_approval, IntentContext, ActionProposal, RiskResult, GuardDecision,
  no_risk, effect_eq, level_eq, outcome_eq,
}
use safeops_agent.Guard.Catalog.{Catalog, policy}
use safeops_agent.Guard.Intent.{IntentGuard, IntentDecision, no_decision, evaluate_intent}
use safeops_agent.Guard.Risk.{RiskEngine, evaluate_risk}
use safeops_agent.Guard.Static.{StaticGuard, new_static_guard, precheck, denied}

pub record PipelineResult : Type 0 where
  pub static_guard : GuardDecision
  pub intent_guard : IntentDecision
  pub risk : RiskResult
  pub final : GuardDecision

pub record SafetyPipeline : Type 0 where
  pub static_guard : StaticGuard
  pub intent_guard : IntentGuard
  pub risk : RiskEngine

unfoldable pub new_safety_pipeline : (IntentContext → String) → Catalog → SafetyPipeline
unfolding new_static_guard
new_safety_pipeline digest c = record {
  static_guard = new_static_guard c;
  intent_guard = record { policy_version = c.version; intent_digest = digest };
  risk = record { catalog = c };
}

-- `SafetyPipeline.Evaluate`
unfoldable pub evaluate : SafetyPipeline → String → String → ActionProposal → PipelineResult
unfolding denied
evaluate s static_id intent_id p =
    let static_decision = precheck s.static_guard static_id p in
    let intent = evaluate_intent s.intent_guard intent_id p in
    let risk = evaluate_risk s.risk p in
    let (found, _) = policy s.static_guard.catalog p.tool in
    let start : PipelineResult = record {
      static_guard = static_decision;
      intent_guard = no_decision;
      risk = no_risk;
      final = static_decision;
    } in
    if outcome_eq static_decision.outcome deny
    then start
    else if outcome_eq intent.outcome deny
    then record start {
      intent_guard = intent;
      final = denied static_decision intent.reason_code "intent-guard" intent.reason;
    }
    else let assessed = record static_decision { risk = risk } in
      record start {
        intent_guard = intent;
        risk = risk;
        final =
            if level_eq risk.level l3
            then denied assessed "L3_DEFAULT_DENY" found.rule_id "L3 关键操作默认拒绝"
            else if effect_eq p.effect write && (found.approval || level_eq risk.level l2)
            then record assessed {
              outcome = require_approval;
              reason_codes = "WRITE_REQUIRES_APPROVAL" ∷ [];
              reason = "本地策略或上下文风险要求人工审批";
            }
            else assessed;
      }
