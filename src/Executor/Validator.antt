-- ===== src/Executor/Validator.antt =====
-- internal/executor/validator.go. The store of approvals, the scope and the targets are interfaces
-- there: the approvals are those of internal/approval, which every program of cmd/ passes, and the
-- two others are the answers that they give to this call. The readings of the clock and the random
-- IDs of the decisions are arguments.
use safeops_agent.Prelude.{
  ℕ, ◌+◌, ◌*◌, String, Bool, true, false, not, ◌&&◌, ◌||◌, List, [], ◌∷◌, Option, none, some, ◌==◌,
  eqb, leb, ltb, Error, Result, ok, err, ◌>>=◌, ◌>>◌, refuse_if, if◌then◌else◌,
}
use Prim.Native.String.{◌++◌}
use safeops_agent.Contracts.Action.{
  deny, require_approval, ActionProposal, RiskResult, level_eq, outcome_eq, proposal_digest,
  canonical_target,
}
use safeops_agent.Contracts.Snapshot.{TargetSnapshot, snapshot_digest}
use safeops_agent.Contracts.Envelope.{ActionEnvelope, Sealing, verify_signature}
use safeops_agent.Guard.Pipeline.{SafetyPipeline, PipelineResult, evaluate}
use safeops_agent.Approval.Types.{Binding}
use safeops_agent.Approval.Store
use safeops_agent.Executor.Nonce.{NonceStore, reserve}

-- The encodings are `json.Marshal`; `approvals` and `nonces` say whether the field is not nil.
pub record Validator : Type 0 where
  pub secret : List ℕ
  pub sealing : Sealing
  pub marshal_proposal : ActionProposal → Result String
  pub marshal_snapshot : TargetSnapshot → Result String
  pub sha256_hex : String → String
  pub pipeline : SafetyPipeline
  pub nonces : Bool
  pub approvals : Bool
  pub max_ttl : ℕ

-- What one call reads from outside: the clock, in the order of the readings, the IDs, and the
-- answers of `Scope.Authorize` and `Targets.Revalidate` (`none` where the field is nil).
pub record Readings : Type 0 where
  pub current : ℕ
  pub approvals_now : ℕ
  pub nonces_now : ℕ
  pub consume_now : ℕ
  pub consumed_now : ℕ
  pub static_id : String
  pub intent_id : String
  pub scope : Option (ActionEnvelope → Option Error)
  pub targets : Option (TargetSnapshot → Option Error)

pub record Stores : Type 0 where
  pub nonces : NonceStore
  pub approvals : Store.Store

pub record Validation : Type 0 where
  pub binding : Binding
  pub approval_required : Bool

texts_eq : List String → List String → Bool
texts_eq [] [] = true
texts_eq (a ∷ as') (b ∷ bs) = a == b && texts_eq as' bs
texts_eq _ _ = false

-- `reflect.DeepEqual` of two risk results.
unfoldable pub risk_eq : RiskResult → RiskResult → Bool
unfolding texts_eq
risk_eq a b =
    level_eq a.level b.level
    && eqb a.score b.score
    && texts_eq a.factors b.factors
    && a.reason == b.reason

-- `if err := ...; err != nil { return err }`, with a text in front of the error.
abbrev pub check : String → Option Error → Result (Unit {0})
check prefix none = ok tt
check prefix (some e) = err (prefix ++ e)

abbrev pub check_port {ℓ} :
    {A : Type ℓ} → Option (A → Option Error) → A → Error → String → Result (Unit {0})
check_port none a missing prefix = err missing
check_port (some f) a missing prefix = check prefix (f a)

unfoldable pub ttl_limit : ℕ → ℕ
ttl_limit max_ttl = if leb max_ttl 0 then 900 * Store.second else max_ttl

unfoldable pub envelope_binding : ActionEnvelope → String → Binding
envelope_binding e snapshot = record {
  task_id = e.task_id;
  proposal_digest = e.proposal_digest;
  target_snapshot_digest = snapshot;
  intent_digest = e.intent_digest;
  policy_version = e.policy_version;
  risk_level = e.risk.level;
  tool = e.proposal.tool;
  nonce = e.nonce;
}

-- The tests of `Validate` on the envelope alone, up to the signature.
unfoldable pub check_shape : Validator → ℕ → ActionEnvelope → Result (Unit {0})
check_shape v current e = do
  refuse_if (not (eqb e.schema_version 1)) "unsupported ActionEnvelope schema"
  refuse_if (e.trace_id == "" || e.task_id == "" || e.session_id == "")
      "envelope correlation IDs are required"
  refuse_if (not (e.proposal.task_id == e.task_id) || not (e.proposal.session_id == e.session_id))
      "envelope task/session binding mismatch"
  refuse_if (e.proposal.tool == "") "invalid envelope tool"
  refuse_if (e.nonce == "") "envelope nonce is required"
  refuse_if (not (ltb current e.expires_at)) "envelope expired"
  refuse_if (ltb (current + ttl_limit v.max_ttl) e.expires_at) "envelope expiry exceeds maximum TTL"

-- The tests from the signature to the risk; `safety` is the verdict of the executor's own pipeline.
unfoldable pub check_content : Validator → PipelineResult → ActionEnvelope → Result (Unit {0})
check_content v safety e = do
  check "" (verify_signature v.sealing v.secret e)
  digest ← proposal_digest v.marshal_proposal v.sha256_hex e.proposal
  refuse_if (not (digest == e.proposal_digest)) "proposal digest mismatch"
  refuse_if (not (e.policy_version == v.pipeline.static_guard.catalog.version))
      "policy version mismatch"
  refuse_if
      (not (
        canonical_target e.proposal.target
        == canonical_target (record {
          kind = e.target_snapshot.kind;
          id = e.target_snapshot.id;
          criticality = "";
        })))
      "target snapshot binding mismatch"
  refuse_if
      (outcome_eq safety.static_guard.outcome deny
        || outcome_eq safety.intent_guard.outcome deny
        || outcome_eq safety.final.outcome deny)
      ("executor safety revalidation denied: " ++ safety.final.reason)
  refuse_if (not (safety.intent_guard.intent_digest == e.intent_digest)) "intent digest mismatch"
  refuse_if (not (risk_eq safety.risk e.risk)) "risk result mismatch"

-- The test of the approval.
unfoldable pub check_approval :
    Validator → Readings → Stores → ActionEnvelope → Validation → Result (Unit {0})
check_approval v r s e found =
    if found.approval_required
    then refuse_if (e.approval_id == "" || not v.approvals) "valid approval is required"
      >> check "" (Store.validate e.approval_id found.binding r.approvals_now s.approvals)
    else ok tt

-- `Validate` up to the reservation of the nonce, which is its only change of state.
unfoldable pub pre_validate : Validator → Readings → Stores → ActionEnvelope → Result Validation
pre_validate v r s e = do
  check_shape v r.current e
  let safety = evaluate v.pipeline r.static_id r.intent_id e.proposal
  check_content v safety e
  snapshot ← snapshot_digest v.marshal_snapshot v.sha256_hex e.target_snapshot
  let found : Validation = record {
    binding = envelope_binding e snapshot;
    approval_required = outcome_eq safety.final.outcome require_approval;
  }
  check_approval v r s e found
  check_port r.scope e "executor target scope is not configured" "target scope denied: "
  check_port r.targets e.target_snapshot "target revalidator is not configured" "TARGET_CHANGED: "
  refuse_if (not v.nonces) "nonce store is not configured"
  ok found

-- `Validate`
unfoldable pub validate :
    Validator → Readings → ActionEnvelope → Stores → Result Validation × Stores
validate v r e s = elim (pre_validate v r s e) [
  | err x ↦ (err x, s)
  | ok found ↦
      let (x, nonces') = reserve e.nonce e.expires_at r.nonces_now s.nonces in
      (elim x [ none ↦ ok found | some y ↦ err y ], record s { nonces = nonces' })
]
