-- ===== src/Guard/Risk.antt =====
-- internal/guard/risk.go. A score stays at or above 0 by the clamp at the end, so the truncated
-- subtraction is exact.
use Prim.Native.String.{◌++◌}
use safeops_agent.Prelude.{
  ℕ, ◌+◌, ◌-◌, String, Bool, true, not, ◌&&◌, ◌||◌, List, [], ◌∷◌, ◌==◌, ltb, leb, any, clean,
  has_prefix, equal_fold, to_lower, trim_space, decimal, if◌then◌else◌,
}
use mathlib.Core.List.{◌++◌ as append}
use safeops_agent.Contracts.Action.{
  write, RiskLevel, l0, l1, l2, l3, other_level, TargetRef, ActionProposal, RiskResult, effect_eq,
}
use safeops_agent.Guard.Catalog.{Catalog, policy}

pub record RiskEngine : Type 0 where
  pub catalog : Catalog

unfoldable pub level_for_score : ℕ → RiskLevel
level_for_score score =
    if ltb score 20 then l0 else if ltb score 50 then l1 else if ltb score 80 then l2 else l3

critical_services : List String
critical_services =
    "sshd" ∷ "ssh.service" ∷ "sshd.service" ∷ "systemd" ∷ "dbus.service" ∷ "network.service"
    ∷ "networkmanager.service" ∷ "safeops-privexec.service" ∷ []

critical_directories : List String
critical_directories = "/boot" ∷ "/etc" ∷ "/usr" ∷ "/bin" ∷ "/sbin" ∷ "/root" ∷ []

unfoldable pub is_critical_target : TargetRef → Bool
unfolding critical_services critical_directories
is_critical_target t =
    let id = to_lower (trim_space t.id) in
    let path = clean id in
    equal_fold t.criticality "critical"
    || (t.kind == "service" && any (λ name. id == name) critical_services)
    || (t.kind == "file"
        && any (λ prefix. path == prefix || has_prefix path (prefix ++ "/")) critical_directories)

unfoldable pub base_score : RiskLevel → ℕ
base_score l0 = 5
base_score l1 = 20
base_score l2 = 50
base_score _ = 90

unfoldable pub level_text : RiskLevel → String
level_text l0 = "L0"
level_text l1 = "L1"
level_text l2 = "L2"
level_text l3 = "L3"
level_text (other_level s) = s

-- `if c { score += points; factors = append(factors, name) }` on the two variables.
unfoldable pub add_factor : Bool → ℕ → String → ℕ × List String → ℕ × List String
add_factor c points name (score, factors) =
    if c then (score + points, append factors (name ∷ [])) else (score, factors)

-- The factor that lowers the score.
unfoldable pub lab_factor : Bool → ℕ × List String → ℕ × List String
lab_factor c (score, factors) =
    if c then (score - 10, append factors ("LAB_SCOPE" ∷ [])) else (score, factors)

-- The part of `Evaluate` before the Lab test, with the computed tests as arguments.
unfoldable pub raise_factors : RiskLevel → Bool → Bool → ActionProposal → ℕ × List String
unfolding add_factor
raise_factors base known critical p =
    let is_write = effect_eq p.effect write in
    let batch = if leb p.batch_size 0 then 1 else p.batch_size in
    let unstable = equal_fold p.system_state "degraded" || equal_fold p.system_state "critical" in
    let a0 : ℕ × List String = (base_score base, ("BASE_" ++ level_text base) ∷ []) in
    let a1 = add_factor (not known) 0 "UNKNOWN_TOOL" a0 in
    let a2 = add_factor is_write 10 "WRITE_EFFECT" a1 in
    let a3 = add_factor critical 50 "CRITICAL_TARGET" a2 in
    let a4 =
      if leb 10 batch
      then add_factor true 35 "LARGE_BATCH" a3
      else add_factor (ltb 1 batch) 10 "MULTI_TARGET" a3 in
    let a5 = add_factor (is_write && not p.reversible) 15 "NOT_REVERSIBLE" a4 in
    let a6 = add_factor (p.reversible && p.rollback_strategy == "") 10 "ROLLBACK_UNDECLARED" a5 in
    add_factor unstable 10 "SYSTEM_UNSTABLE" a6

-- The part of `Evaluate` before the clamp.
unfoldable pub add_factors : RiskLevel → Bool → Bool → ActionProposal → ℕ × List String
unfolding raise_factors lab_factor
add_factors base known critical p =
    lab_factor (p.lab_mode && not critical) (raise_factors base known critical p)

unfoldable pub evaluate_risk : RiskEngine → ActionProposal → RiskResult
evaluate_risk e p =
    let (found, known) = policy e.catalog p.tool in
    let base = if known then found.base_risk else l3 in
    let critical = is_critical_target p.target in
    let (raw, factors) = add_factors base known critical p in
    let score = if ltb 100 raw then 100 else raw in
    record {
      level = level_for_score score;
      score = score;
      factors = factors;
      reason = "工具基础风险、目标关键性、范围、批量、可逆性、Lab 和系统状态合成得分 " ++ decimal score;
    }
