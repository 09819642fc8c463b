-- ===== src/Executor/Execute.antt =====
-- internal/executor/executor.go. A handler is an interface there: its answer to this call is an
-- argument. The calls of handlers are logged, the last first, since they are the effects.
use safeops_agent.Prelude.{
  ℕ, String, Bool, true, false, not, List, [], ◌∷◌, Option, none, some, ◌==◌, any, Error, Result,
  ok, err, Dict, lookup, if◌then◌else◌,
}
use Prim.Native.String.{◌++◌}
use safeops_agent.Contracts.Envelope.{ActionEnvelope}
use safeops_agent.Approval.Store
use safeops_agent.Executor.Validator.{Validator, Readings, Stores, Validation, validate}

pub data ExecutionMode : Type 0 where
  direct_restricted lab_sandbox dry_run : ExecutionMode

pub record Verification : Type 0 where
  pub verified : Bool
  pub checks : List String
  pub evidence : Dict String

-- The name `Result` of the source.
pub record Execution : Type 0 where
  pub tool : String
  pub mode : ExecutionMode
  pub status : String
  pub message : String
  pub action_id : String
  pub changed : Bool
  pub verification : Option Verification
  pub started_at : ℕ
  pub finished_at : ℕ

abbrev pub Handler : Type 0
Handler = ActionEnvelope → Result Execution

pub record Executor : Type 0 where
  pub validator : Validator
  pub handlers : Dict Handler

-- The stores, and the envelopes that a handler was called with.
pub record World : Type 0 where
  pub stores : Stores
  pub handled : List ActionEnvelope

unfoldable pub is_fixed_handler : String → Bool
is_fixed_handler tool =
    any (λ name. tool == name)
      ("service.restart" ∷ "service.start" ∷ "service.stop" ∷ "process.terminate"
        ∷ "file.quarantine" ∷ "file.restore_quarantine" ∷ "file.create" ∷ "file.delete" ∷ [])

-- The consumption of the approval, where one is required.
unfoldable pub consume_approval :
    Readings → ActionEnvelope → Validation → Stores → Option Error × Stores
consume_approval r e found s =
    let (x, approvals') =
      Store.consume e.approval_id found.binding r.consume_now r.consumed_now s.approvals in
    if found.approval_required then (x, record s { approvals = approvals' }) else (none, s)

unfoldable pub run_handler : Handler → ActionEnvelope → World → Result Execution × World
run_handler handler e w = (handler e, record w { handled = e ∷ w.handled })

-- `Execute` after the handler is found.
unfoldable pub execute_with :
    Validator → Handler → Readings → ActionEnvelope → World → Result Execution × World
execute_with v handler r e w =
    let (found, s) = validate v r e w.stores in
    elim found [
      | err x ↦ (err x, record w { stores = s })
      | ok validation ↦
          let (x, s') = consume_approval r e validation s in
          elim x [
            | some y ↦ (err ("consume approval: " ++ y), record w { stores = s' })
            | none ↦ run_handler handler e (record w { stores = s' })
          ]
    ]

-- `Execute`
unfoldable pub execute : Executor → Readings → ActionEnvelope → World → Result Execution × World
execute x r e w = elim (lookup e.proposal.tool x.handlers) [
  | none ↦ (err "executor has no fixed handler for tool", w)
  | some handler ↦
      if not (is_fixed_handler e.proposal.tool)
      then (err "executor has no fixed handler for tool", w)
      else execute_with x.validator handler r e w
]

-- `DryRunHandler.Execute` at a time.
unfoldable pub dry_run_handler : ℕ → Handler
dry_run_handler now e = ok (record {
  tool = e.proposal.tool;
  mode = dry_run;
  status = "DRY_RUN_OK";
  message = "固定 Handler 已完成校验；未执行系统写操作";
  action_id = "";
  changed = false;
  verification = some (record {
    verified = true;
    checks = "envelope and target validation completed" ∷ [];
    evidence = [];
  });
  started_at = now;
  finished_at = now;
})
