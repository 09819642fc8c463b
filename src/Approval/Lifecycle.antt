-- ===== src/Approval/Lifecycle.antt =====
-- internal/approval/store.go: what each operation writes to a record.
use safeops_agent.Prelude.{
  trim_space, if◌then◌else◌, ◌||◌, not, ==→ne, subst, ℕ, ◌≤◌, String, Bool, true, false, ◌≡◌, refl,
  ap, sym, ◌∙◌, inl, inr, Option, none, some, ◌==◌, ==→eq, ltb, Error, Result, ok, err, lookup,
  arith, Bool-cases, Option-cases, Result-cases,
}
use safeops_agent.Disk
use safeops_agent.Disk.{missing_file, Disk, load-save_ne, load-save_either, load-save_self}
use safeops_agent.Approval.Types.{
  Status, pending, approved, rejected, consumed, expired, Binding, Approval, status_eq, binding_eq,
}
use safeops_agent.Approval.Store
use safeops_agent.Approval.Store.{
  resolve_record, Store, create, expire, get, resolve, refusal, validate, consume, list_records,
  list,
}

-- The changes of status that the operations make. Any record past its time can become expired.
pub data Advance : Status → Status → Type 0 where
  approve : Advance pending approved
  reject : Advance pending rejected
  use_up : Advance approved consumed
  time_out : (a : Status) → Advance a expired

-- What a later reading finds in place of the record `r`.
pub data Successor (r : Approval) (found : Result Approval) : Type 0 where
  same : found ≡ ok r → Successor r found
  moved :
      (q : Approval)
      → found ≡ ok q
      → Advance r.status q.status
      → q.binding ≡ r.binding
      → q.expires_at ≡ r.expires_at
      → Successor r found

-- Every file is named by the record in it.
abbrev pub IsNamed : Store → Type 0
IsNamed s = (k : String) (r : Approval) → Disk.load k s ≡ ok r → r.id ≡ k

abbrev pub Evolves : Store → Store → Type 0
Evolves s t = (k : String) (r : Approval) → Disk.load k s ≡ ok r → Successor r (Disk.load k t)

ok_injective : {r q : Approval} → ok r ≡ ok q → r ≡ q
ok_injective h = cc

-- A write of a record in place of one with the same ID, binding and expiry.
save-Successor :
    (s : Store) (q r : Approval)
    → Disk.load q.id s ≡ ok r
    → Advance r.status q.status
    → q.binding ≡ r.binding
    → q.expires_at ≡ r.expires_at
    → Successor r (Disk.load q.id (Disk.save q.id q s).1)
save-Successor s q r here adv b x = elim (load-save_either q.id q s) [
  | inl new ↦ moved q new adv b x
  | inr old ↦ same (old ∙ here)
]

pub save-Evolves :
    (s : Store) (q r : Approval)
    → Disk.load q.id s ≡ ok r
    → Advance r.status q.status
    → q.binding ≡ r.binding
    → q.expires_at ≡ r.expires_at
    → Evolves s (Store.save q s).1
unfolding Store.save
save-Evolves s q r here adv b x k p at = elim (Bool-cases (q.id == k)) [
  | inl e ↦
      subst (λ j. Disk.load j s ≡ ok p → Successor p (Disk.load j (Disk.save q.id q s).1))
        (==→eq q.id k e)
        (λ at'.
          subst (λ z. Successor z (Disk.load q.id (Disk.save q.id q s).1))
            (ok_injective (sym here ∙ at')) (save-Successor s q r here adv b x))
        at
  | inr e ↦ same (load-save_ne q.id k q s (==→ne _ _ e) ∙ at)
]

pub save-IsNamed : (s : Store) (q : Approval) → IsNamed s → IsNamed (Store.save q s).1
unfolding Store.save
save-IsNamed s q h k p at = elim (Bool-cases (q.id == k)) [
  | inl e ↦
      let names : q.id ≡ k = ==→eq q.id k e in
      elim (load-save_either q.id q s) [
        | inl new ↦
            ap (λ (z : Approval). z.id)
              (ok_injective
                (sym at ∙ ap (λ j. Disk.load j (Disk.save q.id q s).1) (sym names) ∙ new))
            ∙ names
        | inr old ↦ h k p (
            ap (λ j. Disk.load j s) (sym names)
            ∙ sym old
            ∙ ap (λ j. Disk.load j (Disk.save q.id q s).1) names
            ∙ at)
      ]
  | inr e ↦ h k p (sym (load-save_ne q.id k q s (==→ne _ _ e)) ∙ at)
]

pub stay-Evolves : (s : Store) → Evolves s s
stay-Evolves s k r at = same at

-- What an operation has done to the directory: nothing, or one write of a new record or of a
-- successor of the record that it read.
pub data Write (s t : Store) : Type 0 where
  untouched : t ≡ s → Write s t
  added : (q : Approval) → lookup q.id s.files ≡ none → t ≡ (Store.save q s).1 → Write s t
  replaced :
      (q r : Approval)
      → Disk.load q.id s ≡ ok r
      → Advance r.status q.status
      → q.binding ≡ r.binding
      → q.expires_at ≡ r.expires_at
      → t ≡ (Store.save q s).1
      → Write s t

pub added-Evolves :
    (s : Store) (q : Approval) → lookup q.id s.files ≡ none → Evolves s (Store.save q s).1
unfolding Store.save
added-Evolves s q fresh k p at = elim (Bool-cases (q.id == k)) [
  | inl e ↦
      let absent : Disk.load k s ≡ err missing_file =
        subst (λ j. Disk.load j s ≡ err missing_file) (==→eq q.id k e)
          (unfold Disk.load in rw fresh) in
      cc
  | inr e ↦ same (load-save_ne q.id k q s (==→ne _ _ e) ∙ at)
]

pub Write-IsNamed : {s t : Store} → IsNamed s → Write s t → IsNamed t
Write-IsNamed h (untouched e) = subst IsNamed (sym e) h
Write-IsNamed {s} h (added q _ e) = subst IsNamed (sym e) (save-IsNamed s q h)
Write-IsNamed {s} h (replaced q _ _ _ _ _ e) = subst IsNamed (sym e) (save-IsNamed s q h)

pub Write-Evolves : {s t : Store} → Write s t → Evolves s t
Write-Evolves {s} (untouched e) = subst (Evolves s) (sym e) (stay-Evolves s)
Write-Evolves {s} (added q fresh e) = subst (Evolves s) (sym e) (added-Evolves s q fresh)
Write-Evolves {s} (replaced q r here adv b x e) =
    subst (Evolves s) (sym e) (save-Evolves s q r here adv b x)

pub load-found :
    (id : String) (s : Store) (r : Approval) → Store.load id s ≡ ok r → Disk.load id s ≡ ok r
unfolding Store.load
load-found id s r h = ground arith

-- The record that an operation finds under a name stands under its own ID.
pub load-found_named :
    (id : String) (s : Store) (r : Approval)
    → IsNamed s
    → Store.load id s ≡ ok r
    → Disk.load r.id s ≡ ok r
load-found_named id s r h at =
    let found = load-found id s r at in subst (λ j. Disk.load j s ≡ ok r) (sym (h id r found)) found

pub create-Write :
    (ctx : Option Error) (id : String) (now : ℕ) (b : Binding) (ttl : ℕ) (s : Store)
    → lookup id s.files ≡ none
    → Write s (create ctx id now b ttl s).2
unfolding create
create-Write (some e) id now b ttl s fresh = untouched refl
create-Write none id now b ttl s fresh = elim (Bool-cases (Store.is_complete b)) [
  | inl whole ↦
      added (Store.new_approval id b ttl now) (unfold Store.new_approval in fresh) (rw whole)
  | inr partial ↦ untouched (rw partial)
]

pub expire-Write :
    (now now' : ℕ) (r : Approval) (s : Store)
    → Disk.load r.id s ≡ ok r
    → Write s (expire now now' r s).2
unfolding expire
expire-Write now now' r s here =
    elim (Bool-cases (not (status_eq r.status pending) || ltb now r.expires_at)) [
      | inl kept ↦ untouched (rw kept)
      | inr late ↦
          replaced (record r { status = expired; resolved_at = now' }) r here (time_out r.status)
            refl refl (rw late)
    ]

pub get-Write :
    (ctx : Option Error) (id : String) (now now' : ℕ) (s : Store)
    → IsNamed s
    → Write s (get ctx id now now' s).2
get-Write (some e) id now now' s h = untouched (unfold get in refl)
get-Write none id now now' s h = elim (Result-cases (Store.load id s)) [
  | inl (e, bad) ↦ untouched (unfold get in rw (bad, get))
  | inr (r, good) ↦
      let step : (get none id now now' s).2 ≡ (expire now now' r s).2 =
        unfold get in rw (good, get) in
      subst (Write s) (sym step) (expire-Write now now' r s (load-found_named id s r h good))
]

pub refusal-none :
    (now : ℕ) (b : Binding) (r : Approval)
    → refusal now b r ≡ none
    → (r.status ≡ approved) × (binding_eq r.binding b ≡ true) × (now ≤ r.expires_at)
unfolding refusal status_eq
refusal-none now b r h = ground arith

pub consume-Write :
    (id : String) (b : Binding) (now now' : ℕ) (s : Store)
    → IsNamed s
    → Write s (consume id b now now' s).1
unfolding consume
consume-Write id b now now' s h = elim (Result-cases (Store.load id s)) [
  | inl (e, bad) ↦ untouched (rw (bad, consume))
  | inr (r, good) ↦ elim (Option-cases (refusal now b r)) [
    | inr (e, no') ↦ untouched (rw (good, consume) (rw no'))
    | inl granted ↦
        replaced (record r { status = consumed; consumed_at = now' }) r
          (load-found_named id s r h good)
          (subst (λ a. Advance a consumed) (sym (refusal-none now b r granted).0) use_up) refl refl
          (rw (good, consume) (rw granted))
  ]
]

status_eq-pending : (a : Status) → status_eq a pending ≡ true → a ≡ pending
unfolding status_eq
status_eq-pending a h = ground arith

decide_pending : (b : Bool) → Advance pending (if b then approved else rejected)
decide_pending true = approve
decide_pending false = reject

pub resolve_record-Write :
    (r : Approval) (approve' : Bool) (reason : String) (now : ℕ) (s : Store)
    → Disk.load r.id s ≡ ok r
    → Write s (resolve_record r approve' reason now s).2
unfolding resolve_record
resolve_record-Write r yes' reason now s here = elim (Bool-cases (ltb now r.expires_at)) [
  | inr late ↦
      replaced (record r { status = expired; resolved_at = now }) r here (time_out r.status) refl
        refl (rw late)
  | inl timely ↦ elim (Bool-cases (status_eq r.status (if yes' then approved else rejected))) [
    | inl done ↦ untouched (rw timely (rw done))
    | inr open' ↦ elim (Bool-cases (status_eq r.status pending)) [
      | inr closed ↦ untouched (rw timely (rw open' (rw closed)))
      | inl waiting ↦
          replaced
            (record r {
              status = if yes' then approved else rejected;
              reason = trim_space reason;
              resolved_at = now;
            })
            r here (rw (status_eq-pending r.status waiting) (decide_pending yes')) refl refl
            (rw timely (rw open' (rw waiting)))
    ]
  ]
]

pub resolve-Write :
    (ctx : Option Error) (id : String) (approve' : Bool) (reason : String) (now : ℕ) (s : Store)
    → IsNamed s
    → Write s (resolve ctx id approve' reason now s).2
resolve-Write (some e) id yes' reason now s h = untouched (unfold resolve in refl)
resolve-Write none id yes' reason now s h = elim (Result-cases (Store.load id s)) [
  | inl (e, bad) ↦ untouched (unfold resolve in rw (bad, resolve))
  | inr (r, good) ↦
      let step : (resolve none id yes' reason now s).2 ≡ (resolve_record r yes' reason now s).2 =
        unfold resolve in rw (good, resolve) in
      subst (Write s) (sym step)
        (resolve_record-Write r yes' reason now s (load-found_named id s r h good))
]
