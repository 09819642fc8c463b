-- ===== src/Guard/Verdicts.antt =====
-- internal/guard: what a verdict of the pipeline says of a proposal.
use mathlib.Core.List.{Memᴰ}
use safeops_agent.Prelude.{
  ==→ne, ◌<◌, ◌≡◌, ◌≢◌, refl, ◌⊎◌, inl, inr, String, true, false, ◌&&◌, List, [], ◌∷◌, ◌==◌, ==→eq,
  length, Bool-cases, arith,
}
use safeops_agent.Contracts.Action.{
  IntentContext, read, write, l0, l1, l3, allow, deny, TargetRef, TargetAuthorization,
  ActionProposal, no_risk, effect_eq, level_eq, outcome_eq, canonical_target,
}
use safeops_agent.Guard.Catalog.{Catalog, policy}
use safeops_agent.Guard.Intent.{
  undecided, IntentGuard, IntentDecision, no_decision, contains_target, is_authorized,
  check_relations, evaluate_intent,
}
use safeops_agent.Guard.Risk.{level_for_score, evaluate_risk}
use safeops_agent.Guard.Static.{
  new_static_guard, StaticGuard, precheck, target_type_allowed, forbidden_capability,
  evaluate_static,
}
use safeops_agent.Guard.Pipeline.{new_safety_pipeline, SafetyPipeline, evaluate}

-- A forbidden tool, and a tool that the catalogue does not know, are denied by the pipeline, and
-- the two later stages are not run.
pub evaluate-fail_closed :
    (s : SafetyPipeline) (i j : String) (p : ActionProposal)
    → (forbidden_capability p.tool ≡ true) ⊎ ((policy s.static_guard.catalog p.tool).1 ≡ false)
    → ((evaluate s i j p).final.outcome ≡ deny)
      × ((evaluate s i j p).intent_guard ≡ no_decision)
      × ((evaluate s i j p).risk ≡ no_risk)
unfolding evaluate precheck outcome_eq
evaluate-fail_closed s i j p h = ground arith

-- What the static checks ask of a proposal under a policy.
pub record IsAdmitted (c : Catalog) (p : ActionProposal) : Type 0 where
  pub not_forbidden : forbidden_capability p.tool ≡ false
  pub known : (policy c p.tool).1 ≡ true
  pub effect_agrees : effect_eq p.effect (policy c p.tool).0.effect ≡ true
  pub type_allowed : target_type_allowed (policy c p.tool).0 p.target.kind ≡ true
  pub reversibility :
      (effect_eq (policy c p.tool).0.effect read ≡ true)
      ⊎ (((policy c p.tool).0.reversible ≡ p.reversible)
          × (p.reversible && p.rollback_strategy == "" ≡ false))

pub precheck-IsAdmitted :
    (g : StaticGuard) (i : String) (p : ActionProposal)
    → (precheck g i p).outcome ≢ deny
    → IsAdmitted g.catalog p
unfolding precheck
precheck-IsAdmitted g i p h = ground arith

-- The target stands in the plan, and is a target of the objective or is tied to one by a relation
-- with evidence.
pub record IsIntended (p : ActionProposal) : Type 0 where
  pub present : canonical_target p.target ≢ ":"
  pub planned : contains_target p.intent.plan_targets (canonical_target p.target) ≡ true
  pub authorized :
      (contains_target p.intent.objective_targets (canonical_target p.target) ≡ true)
      ⊎ ((a : TargetAuthorization) × Memᴰ a p.intent.authorized_relations
          × (canonical_target a.target ≡ canonical_target p.target)
          × (contains_target p.intent.objective_targets (canonical_target a.related_to) ≡ true)
          × (a.relation ≢ "")
          × (0 < length a.evidence_refs))

check_relations-deny :
    (os : List TargetRef) (t : String) (d : IntentDecision) (as' : List TargetAuthorization)
    → (check_relations os t d as').outcome ≢ deny
    → (a : TargetAuthorization) × Memᴰ a as' × (is_authorized os t a ≡ true)
unfolding check_relations
check_relations-deny os t d [] h = absurd (h refl)
check_relations-deny os t d (a ∷ as') h = elim (Bool-cases (is_authorized os t a)) [
  | inl e ↦ (a, Memᴰ.head refl, e)
  | inr e ↦ let (b, m, q) = check_relations-deny os t d as' (rw e at h) in (b, Memᴰ.tail m, q)
]

is_authorized-eq_true :
    (os : List TargetRef) (t : String) (a : TargetAuthorization)
    → is_authorized os t a ≡ true
    → (canonical_target a.target ≡ t)
      × (contains_target os (canonical_target a.related_to) ≡ true)
      × (a.relation ≢ "")
      × (0 < length a.evidence_refs)
unfolding is_authorized
is_authorized-eq_true os t a h = (
  ground (arith, ==→eq (canonical_target a.target) t),
  ground arith,
  ==→ne _ _ (ground arith),
  ground arith,
)

pub evaluate_intent-IsIntended :
    (g : IntentGuard) (i : String) (p : ActionProposal)
    → (evaluate_intent g i p).outcome ≢ deny
    → IsIntended p
unfolding evaluate_intent
evaluate_intent-IsIntended g i p h = record {
  present = ==→ne _ _ (ground arith);
  planned = ground arith;
  authorized =
      elim (Bool-cases (contains_target p.intent.objective_targets (canonical_target p.target))) [
        | inl direct ↦ inl direct
        | inr related ↦
            let (a, m, ok) =
              check_relations-deny p.intent.objective_targets (canonical_target p.target)
                (undecided g i p) p.intent.authorized_relations (ground arith) in
            let (same, related_known, named, backed) = is_authorized-eq_true _ _ a ok in
            inr (a, m, same, related_known, named, backed)
      ];
}

-- A proposal that the pipeline does not deny passed every static check and has an authorised
-- target, and its risk, which is the one reported, is below L3.
pub evaluate-cleared :
    (s : SafetyPipeline) (i j : String) (p : ActionProposal)
    → (evaluate s i j p).final.outcome ≢ deny
    → IsAdmitted s.static_guard.catalog p
      × IsIntended p
      × ((evaluate s i j p).risk ≡ evaluate_risk s.risk p)
      × ((evaluate_risk s.risk p).level ≢ l3)
unfolding evaluate outcome_eq level_eq
evaluate-cleared s i j p h = (
  precheck-IsAdmitted s.static_guard i p (ground arith),
  evaluate_intent-IsIntended s.intent_guard j p (ground arith),
  ground arith,
  ground arith,
)

-- A write that the pipeline allows without approval is one whose policy asks for none and whose
-- risk level is L0 or L1.
pub evaluate-allow_write :
    (s : SafetyPipeline) (i j : String) (p : ActionProposal)
    → p.effect ≡ write
    → (evaluate s i j p).final.outcome ≡ allow
    → ((policy s.static_guard.catalog p.tool).0.approval ≡ false)
      × (((evaluate_risk s.risk p).level ≡ l0) ⊎ ((evaluate_risk s.risk p).level ≡ l1))
unfolding evaluate outcome_eq level_eq effect_eq evaluate_risk level_for_score
evaluate-allow_write s i j p w h = ground arith

-- For a write whose target the intent guard accepts, the pipeline and the stand-alone static guard
-- over one catalogue come to the same outcome.
pub evaluate-evaluate_static :
    (digest : IntentContext → String) (c : Catalog) (i j : String) (p : ActionProposal)
    → p.effect ≡ write
    → (evaluate_intent (new_safety_pipeline digest c).intent_guard j p).outcome ≢ deny
    → (evaluate (new_safety_pipeline digest c) i j p).final.outcome
      ≡ (evaluate_static (new_static_guard c) i p).outcome
unfolding new_safety_pipeline evaluate evaluate_static precheck outcome_eq level_eq effect_eq
evaluate-evaluate_static digest c i j p w h = ground arith
