-- ===== src/Examples/Guarding.antt =====
-- A catalogue of two write tools, and proposals under it.
use safeops_agent.Contracts.Action.{
  ActionProposal, IntentContext, TargetRef, allow, canonical_target, deny, effect_eq, l0, l1, l3,
  level_eq, no_risk, outcome_eq, read, write,
}
use safeops_agent.Guard.Catalog.{Catalog, CatalogFile, ToolPolicy, load_catalog, load_tools, policy}
use safeops_agent.Guard.Intent.{contains_target, evaluate_intent, no_decision}
use safeops_agent.Guard.Loading.{policy-load_catalog}
use safeops_agent.Guard.Pipeline.{SafetyPipeline, evaluate, new_safety_pipeline}
use safeops_agent.Guard.Risk.{
  add_factors, base_score, evaluate_risk, is_critical_target, level_for_score,
}
use safeops_agent.Guard.Scores.{
  evaluate-critical_write, evaluate_risk-critical_write, evaluate_risk-lab_mode,
  evaluate_risk-mono_batch,
}
use safeops_agent.Guard.Static.{
  evaluate_static, forbidden_capability, new_static_guard, precheck, target_type_allowed,
}
use safeops_agent.Guard.Verdicts.{
  IsAdmitted, IsIntended, evaluate-allow_write, evaluate-cleared, evaluate-evaluate_static,
  evaluate-fail_closed,
}
use safeops_agent.Json.{end}
use safeops_agent.Prelude.{
  String, [], arith, clean, equal_fold, false, has_prefix, inl, insert, lookup, ok, refl, to_lower,
  trim_space, true, ◌+◌, ◌==◌, ◌∷◌, ◌≡◌, ◌≢◌, ◌≤◌, ◌⊎◌,
}
use mathlib.Core.List.{Memᴰ}

abbrev pub restart_policy : ToolPolicy
restart_policy = record {
  name = "service.restart";
  effect = write;
  base_risk = l1;
  approval = true;
  reversible = false;
  allowed_target_types = "service" ∷ [];
  rule_id = "rule-restart";
}

abbrev pub rotate_policy : ToolPolicy
rotate_policy = record {
  name = "log.rotate";
  effect = write;
  base_risk = l1;
  approval = false;
  reversible = true;
  allowed_target_types = "file" ∷ [];
  rule_id = "rule-rotate";
}

abbrev pub catalogue : Catalog
catalogue = record {
  schema_version = 1;
  version = "v1";
  tools = ("service.restart", restart_policy) ∷ ("log.rotate", rotate_policy) ∷ [];
}

abbrev pub digest_of : IntentContext → String
digest_of i = i.objective

abbrev pub pipeline : SafetyPipeline
pipeline = record {
  static_guard = record { catalog = catalogue; risk = record { catalog = catalogue } };
  intent_guard = record { policy_version = "v1"; intent_digest = digest_of };
  risk = record { catalog = catalogue };
}

abbrev pub web : TargetRef
web = record { kind = "service"; id = "web.service"; criticality = "" }

abbrev pub log_file : TargetRef
log_file = record { kind = "file"; id = "/srv/log"; criticality = "" }

abbrev intent_on : TargetRef → IntentContext
intent_on t = record {
  original_request = "fix it";
  objective = "goal";
  objective_targets = t ∷ [];
  plan_step = "step";
  plan_targets = t ∷ [];
  authorized_relations = [];
}

abbrev pub restart : ActionProposal
restart = record {
  proposal_id = "p1";
  task_id = "t1";
  session_id = "s1";
  tool = "service.restart";
  effect = write;
  arguments = end;
  target = web;
  batch_size = 1;
  reversible = false;
  rollback_strategy = "";
  lab_mode = false;
  system_state = "";
  intent = intent_on web;
}

abbrev pub rotate : ActionProposal
rotate = record restart {
  tool = "log.rotate";
  target = log_file;
  reversible = true;
  rollback_strategy = "restore";
  intent = intent_on log_file;
}

-- The restart of a critical service.
abbrev critical_restart : ActionProposal
critical_restart = record restart {
  target = record web { criticality = "critical" };
  intent = intent_on (record web { criticality = "critical" });
}

abbrev shell : ActionProposal
shell = record restart { tool = "Shell.Execute" }

rotate_outcome : (evaluate pipeline "a" "b" rotate).final.outcome ≡ allow
unfolding evaluate precheck policy lookup ◌==◌ trim_space forbidden_capability to_lower
    target_type_allowed evaluate_intent contains_target canonical_target evaluate_risk add_factors
    base_score level_for_score is_critical_target equal_fold clean has_prefix level_eq effect_eq
    outcome_eq
rotate_outcome = refl

evaluate-cleared_example :
    IsAdmitted catalogue rotate
    × IsIntended rotate
    × ((evaluate pipeline "a" "b" rotate).risk ≡ evaluate_risk pipeline.risk rotate)
    × ((evaluate_risk pipeline.risk rotate).level ≢ l3)
evaluate-cleared_example = evaluate-cleared pipeline "a" "b" rotate (λ h. cc rotate_outcome)

evaluate-allow_write_example :
    (((policy catalogue "log.rotate").0).approval ≡ false)
    × (((evaluate_risk pipeline.risk rotate).level ≡ l0)
        ⊎ ((evaluate_risk pipeline.risk rotate).level ≡ l1))
evaluate-allow_write_example = evaluate-allow_write pipeline "a" "b" rotate refl rotate_outcome

shell_forbidden : forbidden_capability shell.tool ≡ true
unfolding forbidden_capability to_lower trim_space ◌==◌
shell_forbidden = refl

evaluate-fail_closed_example :
    ((evaluate pipeline "a" "b" shell).final.outcome ≡ deny)
    × ((evaluate pipeline "a" "b" shell).intent_guard ≡ no_decision)
    × ((evaluate pipeline "a" "b" shell).risk ≡ no_risk)
evaluate-fail_closed_example = evaluate-fail_closed pipeline "a" "b" shell (inl shell_forbidden)

restart_critical : is_critical_target critical_restart.target ≡ true
unfolding is_critical_target equal_fold to_lower trim_space clean has_prefix ◌==◌
restart_critical = refl

restart_base : (policy catalogue "service.restart").0.base_risk ≡ l1
unfolding policy lookup ◌==◌ trim_space
restart_base = refl

evaluate_risk-critical_write_example : (evaluate_risk pipeline.risk critical_restart).level ≡ l3
evaluate_risk-critical_write_example =
    evaluate_risk-critical_write pipeline.risk critical_restart refl restart_critical
      (λ h. cc restart_base)

evaluate-critical_write_example : (evaluate pipeline "a" "b" critical_restart).final.outcome ≡ deny
evaluate-critical_write_example =
    evaluate-critical_write pipeline "a" "b" critical_restart refl restart_critical
      (λ h. cc restart_base)

evaluate_risk-mono_batch_example :
    (evaluate_risk pipeline.risk (record restart { batch_size = 1 })).score
    ≤ (evaluate_risk pipeline.risk (record restart { batch_size = 12 })).score
evaluate_risk-mono_batch_example = evaluate_risk-mono_batch pipeline.risk restart 1 12 (omega arith)

evaluate_risk-lab_mode_example :
    ((evaluate_risk pipeline.risk (record restart { lab_mode = true })).score
      ≤ (evaluate_risk pipeline.risk (record restart { lab_mode = false })).score)
    × ((evaluate_risk pipeline.risk (record restart { lab_mode = false })).score
        ≤ (evaluate_risk pipeline.risk (record restart { lab_mode = true })).score + 10)
    × (is_critical_target web ≡ true
        → (evaluate_risk pipeline.risk (record restart { lab_mode = true })).score
          ≡ (evaluate_risk pipeline.risk (record restart { lab_mode = false })).score)
evaluate_risk-lab_mode_example = evaluate_risk-lab_mode pipeline.risk restart

restart_intended :
    (evaluate_intent (new_safety_pipeline digest_of catalogue).intent_guard "b" restart).outcome
    ≡ allow
unfolding new_safety_pipeline evaluate_intent contains_target canonical_target to_lower trim_space
    ◌==◌
restart_intended = refl

evaluate-evaluate_static_example :
    (evaluate (new_safety_pipeline digest_of catalogue) "a" "b" restart).final.outcome
    ≡ (evaluate_static (new_static_guard catalogue) "a" restart).outcome
evaluate-evaluate_static_example =
    evaluate-evaluate_static digest_of catalogue "a" "b" restart refl (λ h. cc restart_intended)

abbrev policy_file : CatalogFile
policy_file = record { schema_version = 1; tools = restart_policy ∷ rotate_policy ∷ [] }

abbrev loaded : Catalog
loaded = record catalogue { version = "sha256:text" }

policy_file_loads : load_catalog (λ b. ok policy_file) (λ b. b) (ok "text") ≡ ok loaded
unfolding load_catalog load_tools insert lookup ◌==◌ effect_eq
policy_file_loads = refl

spaces_trimmed : trim_space " log.rotate " ≡ "log.rotate"
unfolding trim_space
spaces_trimmed = refl

policy-load_catalog_example :
    (policy loaded " log.rotate " ≡ (rotate_policy, true))
    × (rotate_policy.rule_id ≢ "")
    × ((rotate_policy.effect ≡ read) ⊎ (rotate_policy.effect ≡ write))
policy-load_catalog_example =
    policy-load_catalog (λ b. ok policy_file) (λ b. b) "text" " log.rotate " refl policy_file_loads
      (Memᴰ.tail (Memᴰ.head refl)) spaces_trimmed
