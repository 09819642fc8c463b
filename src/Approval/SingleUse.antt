-- ===== src/Approval/SingleUse.antt =====
-- internal/approval/store.go: what a record grants after it was used up, rejected or expired.
use safeops_agent.Approval.Calls.{Reach, Reach-Writes, Writes, and_then, nothing}
use safeops_agent.Approval.Equality.{binding_eq→eq}
use safeops_agent.Approval.Lifecycle.{
  Advance, IsNamed, Successor, Write-Evolves, Write-IsNamed, approve, consume-Write, load-found,
  moved, refusal-none, reject, same, time_out, use_up,
}
use safeops_agent.Approval.Store.{Store, consume, load, refusal, save, validate}
use safeops_agent.Approval.Types.{Approval, Binding, Status, approved, consumed, expired, rejected}
use safeops_agent.Disk.{Disk, load-save_self}
use safeops_agent.Prelude.{
  Error, Option, Option-cases, Result, Result-cases, String, ap, arith, inl, inr, none, ok, refl,
  some, subst, sym, ℕ, ◌∙◌, ◌≡◌, ◌≢◌, ◌≤◌, ◌⊎◌,
}
use safeops_agent.Disk
use safeops_agent.Approval.Store

-- The statuses from which the only change is to be marked expired.
abbrev pub IsClosed : Status → Type 0
IsClosed a = (a ≡ rejected) ⊎ (a ≡ consumed) ⊎ (a ≡ expired)

Advance-IsClosed : {a b : Status} → Advance a b → IsClosed a → IsClosed b
Advance-IsClosed approve h = ground arith
Advance-IsClosed reject h = ground arith
Advance-IsClosed use_up h = ground arith
Advance-IsClosed (time_out a) h = ground arith

-- The record of an ID is there and closed.
abbrev pub IsShut : String → Store → Type 0
IsShut id s = (r : Approval) × (Disk.load id s ≡ ok r) × IsClosed r.status

Successor-IsShut :
    (r : Approval) (found : Result Approval)
    → Successor r found
    → IsClosed r.status
    → (q : Approval) × (found ≡ ok q) × IsClosed q.status
Successor-IsShut r found (same e) closed = (r, e, closed)
Successor-IsShut r found (moved q e adv _ _) closed = (q, e, Advance-IsClosed adv closed)

Writes-IsShut : {s t : Store} (id : String) → Writes s t → IsShut id s → IsShut id t
Writes-IsShut id nothing h = h
Writes-IsShut id (and_then ws w) h =
    let (r, at, closed) = Writes-IsShut id ws h in
    Successor-IsShut r _ (Write-Evolves w id r at) closed

pub validate-eq_none :
    (id : String) (b : Binding) (now : ℕ) (s : Store)
    → validate id b now s ≡ none
    → (r : Approval) × (Store.load id s ≡ ok r) × (refusal now b r ≡ none)
validate-eq_none id b now s h = elim (Result-cases (Store.load id s)) [
  | inl (e, bad) ↦
      let stop : validate id b now s ≡ some e = unfold validate in rw (bad, validate) in cc
  | inr (q, good) ↦
      let tested : validate id b now s ≡ refusal now b q = unfold validate in rw (good, validate) in
      (q, good, sym tested ∙ h)
]

refusal-IsClosed :
    (now : ℕ) (b : Binding) (r : Approval) → IsClosed r.status → refusal now b r ≢ none
refusal-IsClosed now b r closed h = ground (arith, refusal-none now b r h)

validate-IsShut :
    (id : String) (b : Binding) (now : ℕ) (s : Store) → IsShut id s → validate id b now s ≢ none
validate-IsShut id b now s (r, at, closed) h =
    let (q, good, granted) = validate-eq_none id b now s h in
    let one : r ≡ q = cc (load-found id s q good) in
    refusal-IsClosed now b q (subst (λ (z : Approval). IsClosed z.status) one closed) granted

consume-granted :
    (id : String) (b : Binding) (now now' : ℕ) (s : Store)
    → (consume id b now now' s).0 ≡ none
    → (r : Approval) × (Store.load id s ≡ ok r)
      × (refusal now b r ≡ none)
      × (consume id b now now' s
          ≡ Store.save (record r { status = consumed; consumed_at = now' }) s)
consume-granted id b now now' s h = elim (Result-cases (Store.load id s)) [
  | inl (e, bad) ↦
      let stop : (consume id b now now' s).0 ≡ some e = unfold consume in rw (bad, consume) in cc
  | inr (q, good) ↦ elim (Option-cases (refusal now b q)) [
    | inr (e, no') ↦
        let stop : (consume id b now now' s).0 ≡ some e =
          unfold consume in rw (good, consume) (rw no') in
        cc
    | inl granted ↦ (q, good, granted, unfold consume in rw (good, consume) (rw granted))
  ]
]

validate-of_refusal :
    (id : String) (b : Binding) (now : ℕ) (s : Store) (r : Approval)
    → Store.load id s ≡ ok r
    → refusal now b r ≡ none
    → validate id b now s ≡ none
unfolding validate
validate-of_refusal id b now s r good granted = rw (good, validate) granted

-- What a call of `Consume` that returns no error found and left behind.
pub consume-eq_none :
    (id : String) (b : Binding) (now now' : ℕ) (s : Store)
    → IsNamed s
    → (consume id b now now' s).0 ≡ none
    → (r : Approval) × (Disk.load id s ≡ ok r)
      × (r.status ≡ approved)
      × (r.binding ≡ b)
      × (now ≤ r.expires_at)
      × (Disk.load id (consume id b now now' s).1
          ≡ ok (record r { status = consumed; consumed_at = now' }))
consume-eq_none id b now now' s h done =
    let (r, good, granted, step) = consume-granted id b now now' s done in
    let (open', same', timely) = refusal-none now b r granted in
    let q = record r { status = consumed; consumed_at = now' } in
    let found = load-found id s r good in
    let saved : (Store.save q s).0 ≡ none =
      ap (λ (p : Option Error × Store). p.0) (sym step) ∙ done in
    let after : Disk.load r.id (Store.save q s).1 ≡ ok q =
      unfold Store.save in load-save_self r.id q s (unfold Store.save in saved) in
    (
      r,
      found,
      open',
      binding_eq→eq r.binding b same',
      timely,
      subst (λ (p : Option Error × Store). Disk.load id p.1 ≡ ok q) (sym step)
          (subst (λ j. Disk.load j (Store.save q s).1 ≡ ok q) (h id r found) after),
    )

-- A successful `Consume` found an approved record with exactly this binding, not past its time, and
-- from then on, after any calls of the store whose new IDs are not in use, every `Validate` and
-- every `Consume` of this ID is refused, at any time and with any binding.
pub consume-single_use :
    (id : String) (b : Binding) (now now' : ℕ) (s t : Store) (c : Binding) (later later' : ℕ)
    → IsNamed s
    → (consume id b now now' s).0 ≡ none
    → Reach (consume id b now now' s).1 t
    → ((r : Approval) × (Disk.load id s ≡ ok r)
        × (r.status ≡ approved)
        × (r.binding ≡ b)
        × (now ≤ r.expires_at))
      × (validate id c later t ≢ none)
      × ((consume id c later later' t).0 ≢ none)
consume-single_use id b now now' s t c later later' h done reach =
    let (r, found, open', same', timely, after) = consume-eq_none id b now now' s h done in
    let named = Write-IsNamed h (consume-Write id b now now' s h) in
    let shut : IsShut id t =
      Writes-IsShut id (Reach-Writes named reach) (_, after, inr (inl refl)) in
    (
      (r, found, open', same', timely),
      validate-IsShut id c later t shut,
      λ again.
          let (q, good, granted, _) = consume-granted id c later later' t again in
          validate-IsShut id c later t shut (validate-of_refusal id c later t q good granted),
    )
