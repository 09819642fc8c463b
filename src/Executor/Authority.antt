-- ===== src/Executor/Authority.antt =====
-- internal/executor/executor.go: when a handler is called.
use safeops_agent.Prelude.{
  ◌≡◌, ◌≢◌, refl, ap, sym, subst, ◌∙◌, ◌⊎◌, inl, inr, true, false, ◌∷◌, none, Error, Result, ok,
  err, lookup, Bool-cases, Option-cases, Result-cases,
}
use Prim.Native.String.{◌++◌}
use safeops_agent.Contracts.Envelope.{ActionEnvelope}
use safeops_agent.Approval.Store
use safeops_agent.Executor.Nonce.{reserve}
use safeops_agent.Executor.Validator.{
  Validator, Readings, Stores, Validation, pre_validate, validate,
}
use safeops_agent.Executor.Execute.{
  Handler, Executor, World, is_fixed_handler, consume_approval, run_handler, execute_with, execute,
  Execution,
}
use safeops_agent.Executor.Checks.{IsValidated, pre_validate-IsValidated}

-- What holds when a handler is called with an envelope.
pub record IsAuthorized (v : Validator) (r : Readings) (e : ActionEnvelope) (s : Stores)
    : Type 0 where
  pub found : Validation
  pub passed : pre_validate v r s e ≡ ok found
  pub validated : IsValidated v r s e found
  pub reserved : (reserve e.nonce e.expires_at r.nonces_now s.nonces).0 ≡ none
  pub consumed :
      (found.approval_required ≡ false)
      ⊎ ((Store.consume e.approval_id found.binding r.consume_now r.consumed_now s.approvals).0
          ≡ none)

validate-cases :
    (v : Validator) (r : Readings) (e : ActionEnvelope) (s : Stores)
    → ((x : Error) × ((validate v r e s).0 ≡ err x))
      ⊎ ((found : Validation) × ((validate v r e s).0 ≡ ok found)
          × (pre_validate v r s e ≡ ok found)
          × ((reserve e.nonce e.expires_at r.nonces_now s.nonces).0 ≡ none)
          × ((validate v r e s).1
              ≡ record s { nonces = (reserve e.nonce e.expires_at r.nonces_now s.nonces).1 }))
validate-cases v r e s = elim (Result-cases (pre_validate v r s e)) [
  | inl (x, bad) ↦ inl (x, unfold validate in rw (bad, validate))
  | inr (f, good) ↦ elim (Option-cases (reserve e.nonce e.expires_at r.nonces_now s.nonces).0) [
    | inr (x, used) ↦ inl (x, unfold validate in rw (good, validate) (rw used))
    | inl free ↦ inr (
      f,
      unfold validate in rw (good, validate) (rw free),
      good,
      free,
      unfold validate in rw (good, validate),
    )
  ]
]

-- The nonces after a call: those before, or those after the reservation of this envelope's nonce.
pub validate-nonces :
    (v : Validator) (r : Readings) (e : ActionEnvelope) (s : Stores)
    → ((validate v r e s).1.nonces ≡ s.nonces)
      ⊎ ((validate v r e s).1.nonces ≡ (reserve e.nonce e.expires_at r.nonces_now s.nonces).1)
validate-nonces v r e s = elim (Result-cases (pre_validate v r s e)) [
  | inl (x, bad) ↦ inl (unfold validate in rw (bad, validate))
  | inr (f, good) ↦ inr (unfold validate in rw (good, validate))
]

consume_approval-none :
    (r : Readings) (e : ActionEnvelope) (f : Validation) (a : Store.Store) (s : Stores)
    → s.approvals ≡ a
    → (consume_approval r e f s).0 ≡ none
    → (f.approval_required ≡ false)
      ⊎ ((Store.consume e.approval_id f.binding r.consume_now r.consumed_now a).0 ≡ none)
consume_approval-none r e f a s same h = elim (Bool-cases f.approval_required) [
  | inr free ↦ inl free
  | inl needed ↦
      let step : (consume_approval r e f s).0
          ≡ (Store.consume e.approval_id f.binding r.consume_now r.consumed_now s.approvals).0 =
        unfold consume_approval in rw (needed, consume_approval) in
      inr (
        subst (λ b. (Store.consume e.approval_id f.binding r.consume_now r.consumed_now b).0 ≡ none)
          same (sym step ∙ h))
]

abbrev Refused : World → Result Execution × World → Type 0
Refused w out = (out.1.handled ≡ w.handled) × ((x : Error) × (out.0 ≡ err x))

execute_with-cases :
    (v : Validator) (h : Handler) (r : Readings) (e : ActionEnvelope) (w : World)
    → Refused w (execute_with v h r e w)
      ⊎ (((execute_with v h r e w).1.handled ≡ e ∷ w.handled) × IsAuthorized v r e w.stores)
execute_with-cases v h r e w = elim (validate-cases v r e w.stores) [
  | inl (x, refused) ↦
      let step : execute_with v h r e w
          ≡ (err x, record w { stores = (validate v r e w.stores).1 }) =
        unfold execute_with in rw (refused, execute_with) in
      inl (rw step (refl, (x, refl)))
  | inr (f, passed, good, free, after) ↦
      elim (Option-cases (consume_approval r e f (validate v r e w.stores).1).0) [
        | inr (y, spent) ↦
            let step : execute_with v h r e w ≡ (
              err ("consume approval: " ++ y),
              record w { stores = (consume_approval r e f (validate v r e w.stores).1).1 },
            ) =
              unfold execute_with in rw (passed, execute_with) (rw spent) in
            inl (rw step (refl, (_, refl)))
        | inl granted ↦ inr (
          unfold execute_with run_handler in rw (passed, execute_with) (rw granted),
          record {
            found = f;
            passed = good;
            validated = pre_validate-IsValidated v r w.stores e f good;
            reserved = free;
            consumed =
                consume_approval-none r e f w.stores.approvals (validate v r e w.stores).1
                  (ap (λ (t : Stores). t.approvals) after) granted;
          },
        )
      ]
]

-- A call of the executor either calls no handler and returns an error, or calls exactly one handler,
-- once, with this envelope; and then the tool is a fixed one with a handler, the envelope passed
-- every test of the validator, its nonce was reserved by this call, and where the verdict asks for
-- an approval this call consumed it.
pub execute-cases :
    (x : Executor) (r : Readings) (e : ActionEnvelope) (w : World)
    → (((execute x r e w).1.handled ≡ w.handled) × ((y : Error) × ((execute x r e w).0 ≡ err y)))
      ⊎ (((execute x r e w).1.handled ≡ e ∷ w.handled)
          × (is_fixed_handler e.proposal.tool ≡ true)
          × (lookup e.proposal.tool x.handlers ≢ none)
          × IsAuthorized x.validator r e w.stores)
execute-cases x r e w = elim (Option-cases (lookup e.proposal.tool x.handlers)) [
  | inl absent ↦
      let step : execute x r e w ≡ (err "executor has no fixed handler for tool", w) =
        unfold execute in rw (absent, execute) in
      inl (rw step (refl, (_, refl)))
  | inr (h, found) ↦ elim (Bool-cases (is_fixed_handler e.proposal.tool)) [
    | inr odd ↦
        let step : execute x r e w ≡ (err "executor has no fixed handler for tool", w) =
          unfold execute in rw (found, execute) (rw odd) in
        inl (rw step (refl, (_, refl)))
    | inl fixed ↦
        let step : execute x r e w ≡ execute_with x.validator h r e w =
          unfold execute in rw (found, execute) (rw fixed) in
        elim (execute_with-cases x.validator h r e w) [
          | inl refused ↦ inl (subst (Refused w) (sym step) refused)
          | inr (more, authorized) ↦ inr (
            ap (λ (t : Result Execution × World). t.1.handled) step ∙ more,
            fixed,
            (λ n. cc),
            authorized,
          )
        ]
  ]
]
