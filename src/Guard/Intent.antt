-- ===== src/Guard/Intent.antt =====
-- internal/guard/intent.go. The random decision ID is an argument, and the digest of an intent
-- (SHA-256 of its encoding) a parameter.
use safeops_agent.Prelude.{
  String, Bool, false, not, ◌&&◌, ◌||◌, List, [], ◌∷◌, ◌==◌, ltb, length, if◌then◌else◌,
}
use safeops_agent.Contracts.Action.{
  Outcome, unset, allow, deny, TargetRef, TargetAuthorization, IntentContext, ActionProposal,
  canonical_target,
}

pub record IntentGuard : Type 0 where
  pub policy_version : String
  pub intent_digest : IntentContext → String

pub record IntentDecision : Type 0 where
  pub decision_id : String
  pub outcome : Outcome
  pub reason_code : String
  pub reason : String
  pub intent_digest : String
  pub evidence_refs : List String
  pub policy_version : String

abbrev pub no_decision : IntentDecision
no_decision = record {
  decision_id = "";
  outcome = unset;
  reason_code = "";
  reason = "";
  intent_digest = "";
  evidence_refs = [];
  policy_version = "";
}

unfoldable pub contains_target : List TargetRef → String → Bool
contains_target [] canonical = false
contains_target (t ∷ ts) canonical = canonical_target t == canonical || contains_target ts canonical

-- The test of the loop over the authorised relations.
unfoldable pub is_authorized : List TargetRef → String → TargetAuthorization → Bool
is_authorized objectives target a =
    canonical_target a.target == target
    && contains_target objectives (canonical_target a.related_to)
    && not (a.relation == "")
    && ltb 0 (length a.evidence_refs)

-- The loop: the first relation that authorises the target decides.
unfoldable pub check_relations :
    List TargetRef → String → IntentDecision → List TargetAuthorization → IntentDecision
check_relations objectives target d [] = record d {
  outcome = deny;
  reason_code = "INTENT_TARGET_MISMATCH";
  reason =
      "Action target is neither an objective target nor an evidence-authorized related resource";
}
check_relations objectives target d (a ∷ as') =
    let rest = check_relations objectives target d as' in
    if is_authorized objectives target a
    then record d {
      outcome = allow;
      reason_code = "INTENT_EVIDENCE_RELATED_TARGET";
      reason = "Action target is linked to an objective target by explicit evidence";
      evidence_refs = a.evidence_refs;
    }
    else rest

-- The decision before any test.
abbrev pub undecided : IntentGuard → String → ActionProposal → IntentDecision
undecided g decision_id p = record no_decision {
  decision_id = decision_id;
  policy_version = g.policy_version;
  intent_digest = g.intent_digest p.intent;
}

unfoldable pub evaluate_intent : IntentGuard → String → ActionProposal → IntentDecision
evaluate_intent g decision_id p =
    let d = undecided g decision_id p in
    let target = canonical_target p.target in
    if target == ":"
    then record d {
      outcome = deny;
      reason_code = "INTENT_TARGET_MISSING";
      reason = "Action target is missing";
    }
    else if not (contains_target p.intent.plan_targets target)
    then record d {
      outcome = deny;
      reason_code = "INTENT_PLAN_TARGET_MISMATCH";
      reason = "Action target is not authorized by the current plan step";
    }
    else if contains_target p.intent.objective_targets target
    then record d {
      outcome = allow;
      reason_code = "INTENT_DIRECT_TARGET";
      reason = "Action target directly matches the structured objective target";
    }
    else check_relations p.intent.objective_targets target d p.intent.authorized_relations
