-- ===== src/Examples/Approving.antt =====
-- A store with one approved record.
use safeops_agent.Approval.Calls.{apply, call, here, list_call, resolve_call}
use safeops_agent.Approval.Lifecycle.{IsNamed}
use safeops_agent.Approval.SingleUse.{consume-single_use}
use safeops_agent.Approval.Store.{Store, consume, refusal, validate}
use safeops_agent.Approval.Types.{Approval, Binding, approved, binding_eq, status_eq}
use safeops_agent.Contracts.Action.{l1, level_eq}
use safeops_agent.Disk.{Disk}
use safeops_agent.Prelude.{
  ==→eq, [], arith, is_valid_id, lookup, none, ok, refl, some, true, ◌==◌, ◌∷◌, ◌≡◌, ◌≢◌, ◌≤◌,
}
use safeops_agent.Disk
use safeops_agent.Approval.Store

abbrev pub bound : Binding
bound = record {
  task_id = "t1";
  proposal_digest = "digest";
  target_snapshot_digest = "snapshot";
  intent_digest = "goal";
  policy_version = "v1";
  risk_level = l1;
  tool = "service.restart";
  nonce = "nonce";
}

abbrev pub granted : Approval
granted = record {
  id = "a1";
  binding = bound;
  status = approved;
  reason = "checked";
  created_at = 1000;
  expires_at = 9000;
  resolved_at = 1500;
  consumed_at = 0;
}

abbrev pub one_approval : Store
one_approval = record { files = ("a1", some granted) ∷ []; faults = [] }

one_approval-IsNamed : IsNamed one_approval
unfolding Disk.load lookup
one_approval-IsNamed k r found = ground (arith, ==→eq "a1" k)

consumed_once : (consume "a1" bound 2000 2001 one_approval).0 ≡ none
unfolding consume Store.load Disk.load lookup is_valid_id ◌==◌ refusal status_eq binding_eq level_eq
    Store.save Disk.save
consumed_once = refl

-- After the consumption someone lists the records and tries to resolve this one again.
consume-single_use_example :
    let s = (consume "a1" bound 2000 2001 one_approval).1 in
    let t =
      apply
        (resolve_call none "a1" true "again" 3000)
        (apply (list_call none (λ k. none) (λ k. (2500, 2500)) (ok ("a1" ∷ []))) s) in
    ((r : Approval) × (Disk.load "a1" one_approval ≡ ok r)
      × (r.status ≡ approved)
      × (r.binding ≡ bound)
      × (2000 ≤ r.expires_at))
    × (validate "a1" bound 3500 t ≢ none)
    × ((consume "a1" bound 3500 3501 t).0 ≢ none)
consume-single_use_example =
    consume-single_use "a1" bound 2000 2001 one_approval _ bound 3500 3501 one_approval-IsNamed
      consumed_once
      (call (call here (list_call none (λ k. none) (λ k. (2500, 2500)) (ok ("a1" ∷ []))) tt)
        (resolve_call none "a1" true "again" 3000) tt)
