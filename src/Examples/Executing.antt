-- ===== src/Examples/Executing.antt =====
-- An executor with one handler, and an envelope for it that a person has approved.
use safeops_agent.Approval.Store.{Store, consume, refusal}
use safeops_agent.Approval.Types.{binding_eq, status_eq}
use safeops_agent.Contracts.Action.{
  canonical_target, effect_eq, level_eq, outcome_eq, proposal_digest,
}
use safeops_agent.Contracts.Envelope.{bytes_eq, signing_bytes, verify_signature}
use safeops_agent.Contracts.Hex.{hex_decode}
use safeops_agent.Contracts.Snapshot.{snapshot_digest}
use safeops_agent.Disk.{Disk}
use safeops_agent.Examples.Approving.{bound, one_approval}
use safeops_agent.Examples.Guarding.{pipeline}
use safeops_agent.Examples.Sealing.{sealing, secret, signed}
use safeops_agent.Executor.Authority.{IsAuthorized, execute-cases}
use safeops_agent.Executor.Checks.{IsValidated, pre_validate-IsValidated}
use safeops_agent.Executor.Execute.{
  Executor, World, consume_approval, dry_run_handler, execute, execute_with, is_fixed_handler,
  run_handler,
}
use safeops_agent.Executor.Nonce.{purge, reserve}
use safeops_agent.Executor.Replay.{call, execute-no_replay, here}
use safeops_agent.Executor.Validator.{
  Readings, Validator, check_approval, check_content, check_shape, envelope_binding, pre_validate,
  risk_eq, ttl_limit,
}
use safeops_agent.Guard.Catalog.{policy}
use safeops_agent.Guard.Intent.{contains_target, evaluate_intent}
use safeops_agent.Guard.Pipeline.{evaluate}
use safeops_agent.Guard.Risk.{
  add_factors, base_score, evaluate_risk, is_critical_target, level_for_score, level_text,
}
use safeops_agent.Guard.Static.{forbidden_capability, precheck, target_type_allowed}
use safeops_agent.Prelude.{
  Error, [], arith, clean, decimal, equal_fold, err, has_prefix, inl, insert, is_valid_id, lookup,
  none, ok, refl, some, to_lower, trim_space, true, ◌==◌, ◌∷◌, ◌≡◌, ◌≢◌, ◌⊎◌,
}
use safeops_agent.Disk
use safeops_agent.Approval.Store
use safeops_agent.Executor.Validator

abbrev validator : Validator
validator = record {
  secret = secret;
  sealing = sealing;
  marshal_proposal = λ p. ok "digest";
  marshal_snapshot = λ s. ok "snapshot";
  sha256_hex = λ s. s;
  pipeline = pipeline;
  nonces = true;
  approvals = true;
  max_ttl = 0;
}

abbrev executor : Executor
executor = record {
  validator = validator;
  handlers = ("service.restart", dry_run_handler 2500) ∷ [];
}

abbrev readings : Readings
readings = record {
  current = 2000;
  approvals_now = 2001;
  nonces_now = 2002;
  consume_now = 2003;
  consumed_now = 2004;
  static_id = "d1";
  intent_id = "d2";
  scope = some (λ e. none);
  targets = some (λ s. none);
}

abbrev world : World
world = record {
  stores = record {
    nonces = record { path = "nonces"; used = []; disk = record { files = []; faults = [] } };
    approvals = one_approval;
  };
  handled = [];
}

restart_handled : (execute executor readings signed world).1.handled ≡ signed ∷ []
unfolding execute execute_with Validator.validate pre_validate check_shape check_content
    check_approval consume_approval run_handler is_fixed_handler reserve purge lookup insert
    ttl_limit envelope_binding proposal_digest snapshot_digest verify_signature signing_bytes
    hex_decode bytes_eq risk_eq evaluate precheck policy ◌==◌ trim_space forbidden_capability
    to_lower target_type_allowed evaluate_intent contains_target canonical_target evaluate_risk
    add_factors base_score level_for_score is_critical_target equal_fold clean has_prefix level_eq
    effect_eq outcome_eq Store.validate Store.consume Store.load Store.save Disk.load Disk.save
    is_valid_id refusal status_eq binding_eq level_text decimal
restart_handled = refl

execute-cases_example :
    (((execute executor readings signed world).1.handled ≡ [])
      × ((y : Error) × ((execute executor readings signed world).0 ≡ err y)))
    ⊎ (((execute executor readings signed world).1.handled ≡ signed ∷ [])
        × (is_fixed_handler "service.restart" ≡ true)
        × (lookup "service.restart" executor.handlers ≢ none)
        × IsAuthorized validator readings signed world.stores)
execute-cases_example = execute-cases executor readings signed world

abbrev again : Readings
again = record readings { current = 2500; nonces_now = 2501 }

abbrev later : Readings
later = record readings { current = 3000; approvals_now = 3001; nonces_now = 3002 }

-- The envelope is sent again, after another call with it.
execute-no_replay_example :
    let v = (execute executor again signed (execute executor readings signed world).1).1 in
    ((execute executor later signed v).1.handled ≡ v.handled)
    × ((y : Error) × ((execute executor later signed v).0 ≡ err y))
execute-no_replay_example =
    execute-no_replay executor readings later signed world _ (λ h. cc restart_handled)
      (call here again signed (omega arith) (omega arith)) (omega arith) (inl (omega arith))

pre_validated :
    pre_validate validator readings world.stores signed
    ≡ ok (record { binding = bound; approval_required = true })
unfolding pre_validate check_shape check_content check_approval lookup ttl_limit envelope_binding
    proposal_digest snapshot_digest verify_signature signing_bytes hex_decode bytes_eq risk_eq
    evaluate precheck policy ◌==◌ trim_space forbidden_capability to_lower target_type_allowed
    evaluate_intent contains_target canonical_target evaluate_risk add_factors base_score
    level_for_score is_critical_target equal_fold clean has_prefix level_eq effect_eq outcome_eq
    Store.validate Store.load Disk.load is_valid_id refusal status_eq binding_eq level_text decimal
pre_validated = refl

pre_validate-IsValidated_example :
    IsValidated validator readings world.stores signed
      (record { binding = bound; approval_required = true })
pre_validate-IsValidated_example =
    pre_validate-IsValidated validator readings world.stores signed
      (record { binding = bound; approval_required = true }) pre_validated
