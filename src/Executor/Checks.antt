-- ===== src/Executor/Checks.antt =====
-- What a successful validation of an envelope has established.
use safeops_agent.Prelude.{
  ℕ, ◌+◌, ◌<◌, ◌≤◌, ◌≡◌, ◌≢◌, refl, subst, ◌⊎◌, inl, inr, String, true, false, not, Option, none,
  some, ==→eq, ==→ne, Bool, Error, ok, >>=-eq-ok, refuse_if, arith, Bool-cases, Result-cases,
}
use safeops_agent.Contracts.Action.{
  deny, require_approval, outcome_eq, proposal_digest, canonical_target,
}
use safeops_agent.Contracts.Snapshot.{snapshot_digest}
use safeops_agent.Contracts.Envelope.{ActionEnvelope, verify_signature}
use safeops_agent.Guard.Pipeline.{PipelineResult, evaluate}
use safeops_agent.Approval.Store
use safeops_agent.Executor.Validator.{
  Validator, Readings, Stores, Validation, check, check_port, risk_eq, ttl_limit, envelope_binding,
  check_shape, check_content, check_approval, pre_validate,
}

-- The envelope is of this schema, with all its IDs, a tool and a nonce, bound to one task and
-- session, and in its time.
pub record IsShaped (v : Validator) (current : ℕ) (e : ActionEnvelope) : Type 0 where
  pub schema : e.schema_version ≡ 1
  pub has_trace : e.trace_id ≢ ""
  pub has_task : e.task_id ≢ ""
  pub has_session : e.session_id ≢ ""
  pub has_tool : e.proposal.tool ≢ ""
  pub has_nonce : e.nonce ≢ ""
  pub task : e.proposal.task_id ≡ e.task_id
  pub session : e.proposal.session_id ≡ e.session_id
  pub unexpired : current < e.expires_at
  pub within_ttl : e.expires_at ≤ current + ttl_limit v.max_ttl

check_shape-IsShaped :
    (v : Validator) (current : ℕ) (e : ActionEnvelope)
    → check_shape v current e ≡ ok tt
    → IsShaped v current e
unfolding check_shape
check_shape-IsShaped v current e h = record {
  schema = ground arith;
  has_trace = ==→ne e.trace_id "" (ground arith);
  has_task = ==→ne e.task_id "" (ground arith);
  has_session = ==→ne e.session_id "" (ground arith);
  has_tool = ==→ne e.proposal.tool "" (ground arith);
  has_nonce = ==→ne e.nonce "" (ground arith);
  task = ==→eq e.proposal.task_id e.task_id (ground arith);
  session = ==→eq e.proposal.session_id e.session_id (ground arith);
  unexpired = ground arith;
  within_ttl = ground arith;
}

-- The envelope is signed, its digests and versions are those of its content, and the executor's own
-- pipeline denies it at no stage and finds the same risk.
pub record IsGenuine (v : Validator) (safety : PipelineResult) (e : ActionEnvelope) : Type 0 where
  pub signed : verify_signature v.sealing v.secret e ≡ none
  pub digest : proposal_digest v.marshal_proposal v.sha256_hex e.proposal ≡ ok e.proposal_digest
  pub policy : e.policy_version ≡ v.pipeline.static_guard.catalog.version
  pub target :
      canonical_target e.proposal.target
      ≡ canonical_target
          (record { kind = e.target_snapshot.kind; id = e.target_snapshot.id; criticality = "" })
  pub static_passed : safety.static_guard.outcome ≢ deny
  pub intent_passed : safety.intent_guard.outcome ≢ deny
  pub final_passed : safety.final.outcome ≢ deny
  pub intent : safety.intent_guard.intent_digest ≡ e.intent_digest
  pub risk : risk_eq safety.risk e.risk ≡ true

check_content-IsGenuine :
    (v : Validator) (safety : PipelineResult) (e : ActionEnvelope)
    → check_content v safety e ≡ ok tt
    → IsGenuine v safety e
unfolding check_content outcome_eq
check_content-IsGenuine v safety e h =
    elim (Result-cases (proposal_digest v.marshal_proposal v.sha256_hex e.proposal)) [
      | inl (x, bad) ↦ ground arith
      | inr (d, good) ↦ ground (
        arith,
        ==→eq d e.proposal_digest,
        ==→eq e.policy_version v.pipeline.static_guard.catalog.version,
        ==→eq (canonical_target e.proposal.target) (
            canonical_target (record {
              kind = e.target_snapshot.kind;
              id = e.target_snapshot.id;
              criticality = "";
            })),
        ==→eq safety.intent_guard.intent_digest e.intent_digest,
      )
    ]

-- All that `Validate` tests before it reserves the nonce.
pub record IsValidated (v : Validator) (r : Readings) (s : Stores) (e : ActionEnvelope)
    (found : Validation) : Type 0 where
  pub shaped : IsShaped v r.current e
  pub genuine : IsGenuine v (evaluate v.pipeline r.static_id r.intent_id e.proposal) e
  pub required :
      found.approval_required
      ≡ outcome_eq
          (evaluate v.pipeline r.static_id r.intent_id e.proposal).final.outcome
          require_approval
  pub binding :
      (digest : String) × (snapshot_digest v.marshal_snapshot v.sha256_hex e.target_snapshot
        ≡ ok digest)
      × (found.binding ≡ envelope_binding e digest)
  pub approval :
      (found.approval_required ≡ false)
      ⊎ ((v.approvals ≡ true)
          × (e.approval_id ≢ "")
          × (Store.validate e.approval_id found.binding r.approvals_now s.approvals ≡ none))
  pub has_nonces : v.nonces ≡ true
  pub in_scope :
      check_port r.scope e "executor target scope is not configured" "target scope denied: " ≡ ok tt
  pub unchanged :
      check_port r.targets e.target_snapshot "target revalidator is not configured"
        "TARGET_CHANGED: "
      ≡ ok tt

check-ok : (prefix : String) (o : Option Error) → check prefix o ≡ ok tt → o ≡ none
check-ok prefix none h = refl
check-ok prefix (some x) h = cc

ok_injective : {a b : Validation} → ok a ≡ ok b → a ≡ b
ok_injective h = cc

configured : (b : Bool) (x : Error) → refuse_if (not b) x ≡ ok tt → b ≡ true
configured b x h = ground arith

check_approval-ok :
    (v : Validator) (r : Readings) (s : Stores) (e : ActionEnvelope) (found : Validation)
    → check_approval v r s e found ≡ ok tt
    → (found.approval_required ≡ false)
      ⊎ ((v.approvals ≡ true)
          × (e.approval_id ≢ "")
          × (Store.validate e.approval_id found.binding r.approvals_now s.approvals ≡ none))
unfolding check_approval
check_approval-ok v r s e found h = elim (Bool-cases found.approval_required) [
  | inr free ↦ inl free
  | inl needed ↦ inr (ground arith, ==→ne e.approval_id "" (ground arith), ground arith)
]

-- What `Validate` accepts before it reserves the nonce: an envelope whose fields, signature,
-- digests, policy, risk, verdict, approval, scope and target pass every one of its tests, where a
-- store of nonces and, if one is needed, one of approvals is configured, with the binding and the
-- need of an approval that the result reports.
pub pre_validate-IsValidated :
    (v : Validator) (r : Readings) (s : Stores) (e : ActionEnvelope) (found : Validation)
    → pre_validate v r s e ≡ ok found
    → IsValidated v r s e found
unfolding pre_validate
pre_validate-IsValidated v r s e found h =
    let (_, shaped, h1) = >>=-eq-ok (check_shape v r.current e) _ h in
    let safety = evaluate v.pipeline r.static_id r.intent_id e.proposal in
    let (_, genuine, h2) = >>=-eq-ok (check_content v safety e) _ h1 in
    let (digest, hashed, h3) =
      >>=-eq-ok (snapshot_digest v.marshal_snapshot v.sha256_hex e.target_snapshot) _ h2 in
    let f : Validation = record {
      binding = envelope_binding e digest;
      approval_required = outcome_eq safety.final.outcome require_approval;
    } in
    let (_, approval, h4) = >>=-eq-ok (check_approval v r s e f) _ h3 in
    let (_, scope, h5) =
      >>=-eq-ok
        (check_port r.scope e "executor target scope is not configured" "target scope denied: ") _
        h4 in
    let (_, targets, h6) =
      >>=-eq-ok
        (check_port r.targets e.target_snapshot "target revalidator is not configured"
          "TARGET_CHANGED: ")
        _ h5 in
    let (_, noted, h7) =
      >>=-eq-ok (refuse_if (not v.nonces) "nonce store is not configured") _ h6 in
    let same : f ≡ found = ok_injective h7 in
    subst (IsValidated v r s e) same (record {
      shaped = check_shape-IsShaped v r.current e shaped;
      genuine = check_content-IsGenuine v safety e genuine;
      required = refl;
      binding = (digest, hashed, refl);
      approval = check_approval-ok v r s e f approval;
      has_nonces = configured v.nonces _ noted;
      in_scope = scope;
      unchanged = targets;
    })
