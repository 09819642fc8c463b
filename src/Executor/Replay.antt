-- ===== src/Executor/Replay.antt =====
-- internal/executor: sequences of calls and the nonces that they use up.
use safeops_agent.Prelude.{
  ℕ, ◌<◌, ◌≤◌, ◌≡◌, ◌≢◌, ap, ◌∙◌, ◌⊎◌, inl, inr, String, some, Error, Result, err, lookup, arith,
  Bool-cases, Option-cases, Result-cases,
}
use native.Mathlib.Decide.{dec_le}
use safeops_agent.Contracts.Envelope.{ActionEnvelope}
use safeops_agent.Executor.Nonce.{
  NonceStore, reserve, reserve-used, reserve-recorded, reserve-keeps,
}
use safeops_agent.Executor.Validator.{Validator, Readings, Stores, Validation, validate}
use safeops_agent.Executor.Execute.{
  Handler, Executor, World, is_fixed_handler, consume_approval, run_handler, execute_with, execute,
  Execution,
}
use safeops_agent.Executor.Authority.{validate-nonces, execute-cases}

abbrev nonces_of : Result Execution × World → NonceStore
nonces_of out = out.1.stores.nonces

consume_approval-nonces :
    (r : Readings) (e : ActionEnvelope) (f : Validation) (s : Stores)
    → (consume_approval r e f s).1.nonces ≡ s.nonces
unfolding consume_approval
consume_approval-nonces r e f s = ground arith

execute_with-nonces :
    (v : Validator) (h : Handler) (r : Readings) (e : ActionEnvelope) (w : World)
    → nonces_of (execute_with v h r e w) ≡ (validate v r e w.stores).1.nonces
execute_with-nonces v h r e w = elim (Result-cases (validate v r e w.stores).0) [
  | inl (x, bad) ↦ unfold execute_with in rw (bad, execute_with)
  | inr (f, good) ↦ elim (Option-cases (consume_approval r e f (validate v r e w.stores).1).0) [
    | inr (y, spent) ↦
        unfold execute_with in rw (good, execute_with) (rw spent (consume_approval-nonces r e f _))
    | inl granted ↦
        unfold execute_with run_handler in
        rw (good, execute_with) (rw granted (consume_approval-nonces r e f _))
  ]
]

-- A call leaves the nonces alone, or makes one reservation, that of its envelope's nonce.
execute-nonces :
    (x : Executor) (r : Readings) (e : ActionEnvelope) (w : World)
    → (nonces_of (execute x r e w) ≡ w.stores.nonces)
      ⊎ (nonces_of (execute x r e w) ≡ (validate x.validator r e w.stores).1.nonces)
execute-nonces x r e w = elim (Option-cases (lookup e.proposal.tool x.handlers)) [
  | inl absent ↦ inl (unfold execute in rw (absent, execute))
  | inr (h, found) ↦ elim (Bool-cases (is_fixed_handler e.proposal.tool)) [
    | inr odd ↦ inl (unfold execute in rw (found, execute) (rw odd))
    | inl fixed ↦
        inr (
          unfold execute in
          rw (found, execute) (rw fixed (execute_with-nonces x.validator h r e w)))
  ]
]

-- The nonce `n` is in use with expiry `y`, or that time is past.
abbrev IsSpent : String → ℕ → ℕ → NonceStore → Type 0
IsSpent n y now s = (lookup n s.used ≡ some y) ⊎ (y < now)

execute-IsSpent :
    (x : Executor) (r : Readings) (e : ActionEnvelope) (w : World) (n : String) (y t : ℕ)
    → IsSpent n y t w.stores.nonces
    → t ≤ r.nonces_now
    → IsSpent n y r.nonces_now (nonces_of (execute x r e w))
execute-IsSpent x r e w n y t (inr past) le = inr (omega arith)
execute-IsSpent x r e w n y t (inl used) le = elim (dec_le r.nonces_now y) [
  | no late ↦ inr (omega arith)
  | yes live ↦ inl (elim (execute-nonces x r e w) [
    | inl same ↦ ap (λ (s : NonceStore). lookup n s.used) same ∙ used
    | inr stepped ↦ elim (validate-nonces x.validator r e w.stores) [
      | inl same ↦ ap (λ (s : NonceStore). lookup n s.used) (stepped ∙ same) ∙ used
      | inr reserved ↦
          ap (λ (s : NonceStore). lookup n s.used) (stepped ∙ reserved)
          ∙ reserve-keeps n e.nonce y e.expires_at r.nonces_now w.stores.nonces used live
    ]
  ])
]

-- Once a handler was called, the nonce of the envelope is in use.
execute-recorded :
    (x : Executor) (r : Readings) (e : ActionEnvelope) (w : World)
    → (execute x r e w).1.handled ≢ w.handled
    → lookup e.nonce (nonces_of (execute x r e w)).used ≡ some e.expires_at
execute-recorded x r e w ran = elim (execute-cases x r e w) [
  | inl (same, _) ↦ absurd (ran same)
  | inr (_, fixed, present, a) ↦ elim (Option-cases (lookup e.proposal.tool x.handlers)) [
    | inl absent ↦ absurd (present absent)
    | inr (h, found) ↦
        let step : nonces_of (execute x r e w) ≡ (validate x.validator r e w.stores).1.nonces =
          unfold execute in
          rw (found, execute) (rw fixed (execute_with-nonces x.validator h r e w)) in
        let after : (validate x.validator r e w.stores).1.nonces
            ≡ (reserve e.nonce e.expires_at r.nonces_now w.stores.nonces).1 =
          unfold validate in rw (a.passed, validate) in
        ap (λ (s : NonceStore). lookup e.nonce s.used) (step ∙ after)
        ∙ reserve-recorded e.nonce e.expires_at r.nonces_now w.stores.nonces a.reserved
  ]
]

-- Any calls of the executor, at readings of the clock that do not go back. The indices are the time
-- of the last reading and the world.
pub data Calls (x : Executor) (t : ℕ) (w : World) : ℕ → World → Type 0 where
  here : Calls x t w t w
  call :
      {u : ℕ} {v : World}
      → Calls x t w u v
      → (r : Readings) (e : ActionEnvelope) → u ≤ r.current
      → r.current ≤ r.nonces_now
      → Calls x t w r.nonces_now (execute x r e v).1

Calls-IsSpent :
    {x : Executor} {t : ℕ} {w : World} {u : ℕ} {v : World} (n : String) (y : ℕ)
    → Calls x t w u v
    → IsSpent n y t w.stores.nonces
    → IsSpent n y u v.stores.nonces
Calls-IsSpent n y here h = h
Calls-IsSpent {x} n y (call {u = u} {v = v} cs r e a b) h =
    execute-IsSpent x r e v n y u (Calls-IsSpent n y cs h) (omega arith)

-- An envelope with which a handler was called is refused by every later call, whatever the executor
-- was called with between them, and no handler is called. The clock does not go back, and the later
-- call does not read it both before the envelope expires, in the validator, and after, in the
-- nonce store.
pub execute-no_replay :
    (x : Executor) (r q : Readings) (e : ActionEnvelope) (w v : World) {u : ℕ}
    → (execute x r e w).1.handled ≢ w.handled
    → Calls x r.nonces_now (execute x r e w).1 u v
    → u ≤ q.current
    → (q.nonces_now ≤ e.expires_at) ⊎ (e.expires_at ≤ q.current)
    → ((execute x q e v).1.handled ≡ v.handled) × ((y : Error) × ((execute x q e v).0 ≡ err y))
execute-no_replay x r q e w v {u} ran cs le instant = elim (execute-cases x q e v) [
  | inl refused ↦ refused
  | inr (_, _, _, a) ↦
      let unexpired = a.validated.shaped.unexpired in
      elim (Calls-IsSpent e.nonce e.expires_at cs (inl (execute-recorded x r e w ran))) [
        | inr past ↦ absurd (omega arith)
        | inl used ↦ elim instant [
          | inr late ↦ absurd (omega arith)
          | inl timely ↦ absurd (
              reserve-used e.nonce e.expires_at e.expires_at q.nonces_now v.stores.nonces used
                timely a.reserved)
        ]
      ]
]
