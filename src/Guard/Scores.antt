-- ===== src/Guard/Scores.antt =====
-- internal/guard/risk.go: the risk of a proposal, by its target, its size and the Lab mode.
use safeops_agent.Prelude.{
  ◌⊎◌, ℕ, ◌+◌, ◌≤◌, ◌≡◌, ◌≢◌, refl, String, Bool, true, false, not, List, arith, if◌then◌else◌,
}
use safeops_agent.Contracts.Action.{
  write, RiskLevel, l0, l3, deny, ActionProposal, effect_eq, level_eq, outcome_eq,
}
use safeops_agent.Guard.Catalog.{policy}
use safeops_agent.Guard.Risk.{
  lab_factor, raise_factors, RiskEngine, base_score, add_factors, evaluate_risk, is_critical_target,
  level_for_score,
}
use safeops_agent.Guard.Pipeline.{SafetyPipeline, evaluate}

critical_write_score :
    (base : RiskLevel) (known : Bool) (p : ActionProposal)
    → p.effect ≡ write
    → base ≢ l0
    → 80 ≤ (add_factors base known true p).0
unfolding add_factors effect_eq base_score
critical_write_score base known p w h = ground arith

-- A write to a critical target under a tool whose base risk is not L0 is at level L3, whatever its
-- size, reversibility and mode.
pub evaluate_risk-critical_write :
    (e : RiskEngine) (p : ActionProposal)
    → p.effect ≡ write
    → is_critical_target p.target ≡ true
    → (policy e.catalog p.tool).0.base_risk ≢ l0
    → (evaluate_risk e p).level ≡ l3
unfolding evaluate_risk level_for_score
evaluate_risk-critical_write e p w c h =
    let base = if (policy e.catalog p.tool).1 then (policy e.catalog p.tool).0.base_risk else l3 in
    let bound = critical_write_score base (policy e.catalog p.tool).1 p w (ground arith) in
    rw c (ground (arith, bound))

add_factors-mono_batch :
    (base : RiskLevel) (known critical : Bool) (p : ActionProposal) (m n : ℕ)
    → m ≤ n
    → (add_factors base known critical (record p { batch_size = m })).0
      ≤ (add_factors base known critical (record p { batch_size = n })).0
unfolding add_factors
add_factors-mono_batch base known critical p m n h = ground arith

-- A larger batch never has a lower score.
pub evaluate_risk-mono_batch :
    (e : RiskEngine) (p : ActionProposal) (m n : ℕ)
    → m ≤ n
    → (evaluate_risk e (record p { batch_size = m })).score
      ≤ (evaluate_risk e (record p { batch_size = n })).score
unfolding evaluate_risk
evaluate_risk-mono_batch e p m n h =
    let (found, known) = policy e.catalog p.tool in
    let base = if known then found.base_risk else l3 in
    ground (arith, add_factors-mono_batch base known (is_critical_target p.target) p m n h)

lab_factor_bounds :
    (critical : Bool) (a : ℕ × List String)
    → ((lab_factor (not critical) a).0 ≤ a.0)
      × (a.0 ≤ (lab_factor (not critical) a).0 + 10)
      × ((critical ≡ false) ⊎ ((lab_factor (not critical) a).0 ≡ a.0))
unfolding lab_factor
lab_factor_bounds critical a = ground arith

raise_factors-lab_mode :
    (base : RiskLevel) (known critical : Bool) (p : ActionProposal) (b : Bool)
    → raise_factors base known critical (record p { lab_mode = b })
      ≡ raise_factors base known critical p
unfolding raise_factors
raise_factors-lab_mode base known critical p b = refl

add_factors-lab_mode :
    (base : RiskLevel) (known critical : Bool) (p : ActionProposal)
    → let lab = (add_factors base known critical (record p { lab_mode = true })).0 in
      let live = (add_factors base known critical (record p { lab_mode = false })).0 in
      (lab ≤ live) × (live ≤ lab + 10) × ((critical ≡ false) ⊎ (lab ≡ live))
unfolding add_factors
add_factors-lab_mode base known critical p =
    ground (arith, lab_factor_bounds critical (raise_factors base known critical p))

-- Lab mode lowers a score by at most 10, and that of a critical target not at all.
pub evaluate_risk-lab_mode :
    (e : RiskEngine) (p : ActionProposal)
    → let lab = (evaluate_risk e (record p { lab_mode = true })).score in
      let live = (evaluate_risk e (record p { lab_mode = false })).score in
      (lab ≤ live) × (live ≤ lab + 10) × (is_critical_target p.target ≡ true → lab ≡ live)
unfolding evaluate_risk
evaluate_risk-lab_mode e p =
    let (found, known) = policy e.catalog p.tool in
    let base = if known then found.base_risk else l3 in
    ground (arith, add_factors-lab_mode base known (is_critical_target p.target) p)

-- The pipeline denies every write to a critical target, unless the base risk of the tool is L0.
pub evaluate-critical_write :
    (s : SafetyPipeline) (i j : String) (p : ActionProposal)
    → p.effect ≡ write
    → is_critical_target p.target ≡ true
    → (policy s.risk.catalog p.tool).0.base_risk ≢ l0
    → (evaluate s i j p).final.outcome ≡ deny
unfolding evaluate outcome_eq level_eq
evaluate-critical_write s i j p w c h = ground (arith, evaluate_risk-critical_write s.risk p w c h)
