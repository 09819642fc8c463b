-- ===== src/Approval/Store.antt =====
-- internal/approval/store.go: the operations. The store is its directory; each reading of the
-- clock, the error of the context (`ctx`) and a new random ID are arguments. An operation runs
-- under the store's mutex from its first access to the directory.
use Prim.Native.String.{◌++◌}
use safeops_agent.Prelude.{
  ℕ, ◌+◌, ◌*◌, String, Bool, not, ◌||◌, List, [], ◌∷◌, Option, none, some, ◌==◌, ltb, leb, Error,
  Result, ok, err, is_valid_id, trim_space, if◌then◌else◌,
}
use safeops_agent.Disk
use safeops_agent.Disk.{Disk}
use safeops_agent.Approval.Types.{
  pending, approved, rejected, consumed, expired, Binding, Approval, status_eq, status_text,
  binding_eq,
}

abbrev pub Store : Type 0
Store = Disk Approval

abbrev pub second : ℕ
second = 1000000000

unfoldable pub is_complete : Binding → Bool
is_complete b = not (
    b.task_id == ""
    || b.proposal_digest == ""
    || b.target_snapshot_digest == ""
    || b.intent_digest == ""
    || b.policy_version == ""
    || b.tool == "")

-- `load`
unfoldable pub load : String → Store → Result Approval
load id s = if is_valid_id id then Disk.load id s else err "invalid approval id"

-- `save`
unfoldable pub save : Approval → Store → Option Error × Store
save r s = Disk.save r.id r s

-- The record that `Create` makes; a `ttl` of at most 0 stands for ten minutes.
unfoldable pub new_approval : String → Binding → ℕ → ℕ → Approval
new_approval id b ttl now = record {
  id = id;
  binding = b;
  status = pending;
  reason = "";
  created_at = now;
  expires_at = now + (if leb ttl 0 then 600 * second else ttl);
  resolved_at = 0;
  consumed_at = 0;
}

-- `Create`: the record, the error and the new store.
unfoldable pub create :
    Option Error → String → ℕ → Binding → ℕ → Store → Option Approval × Option Error × Store
create (some e) id now b ttl s = (none, some e, s)
create none id now b ttl s =
    let (e, s') = save (new_approval id b ttl now) s in
    if not (is_complete b)
    then (none, some "approval binding is incomplete", s)
    else (some (new_approval id b ttl now), e, s')

-- `expire`: the record to return, the error of a write, the new store.
unfoldable pub expire : ℕ → ℕ → Approval → Store → Approval × Option Error × Store
expire now now' r s =
    let late = record r { status = expired; resolved_at = now' } in
    if not (status_eq r.status pending) || ltb now r.expires_at
    then (r, none, s)
    else let (e, s') = save late s in (late, e, s')

-- `Get`
unfoldable pub get : Option Error → String → ℕ → ℕ → Store → Option Approval × Option Error × Store
get (some e) id now now' s = (none, some e, s)
get none id now now' s = elim (load id s) [
  | err e ↦ (none, some e, s)
  | ok r ↦ let (r', e, s') = expire now now' r s in (some r', e, s')
]

-- The part of `Resolve` after the record is read.
unfoldable pub resolve_record :
    Approval → Bool → String → ℕ → Store → Option Approval × Option Error × Store
resolve_record r approve reason now s =
    let desired = if approve then approved else rejected in
    let late = record r { status = expired; resolved_at = now } in
    let done = record r { status = desired; reason = trim_space reason; resolved_at = now } in
    if not (ltb now r.expires_at)
    then (some late, some "approval expired", (save late s).1)
    else if status_eq r.status desired
    then (some r, none, s)
    else if not (status_eq r.status pending)
    then (some r, some ("approval is " ++ status_text r.status), s)
    else (some done, (save done s).0, (save done s).1)

-- `Resolve` returns a record besides an error, except where it finds none.
unfoldable pub resolve :
    Option Error → String → Bool → String → ℕ → Store → Option Approval × Option Error × Store
resolve (some e) id approve reason now s = (none, some e, s)
resolve none id approve reason now s = elim (load id s) [
  | err e ↦ (none, some e, s)
  | ok r ↦ resolve_record r approve reason now s
]

-- The tests that `Validate` and `Consume` share; `none` is a nil error.
unfoldable pub refusal : ℕ → Binding → Approval → Option Error
refusal now b r =
    if ltb r.expires_at now
    then some "approval expired"
    else if not (status_eq r.status approved)
    then some ("approval is " ++ status_text r.status)
    else if not (binding_eq r.binding b)
    then some "approval binding mismatch"
    else none

-- `Validate`
unfoldable pub validate : String → Binding → ℕ → Store → Option Error
validate id b now s = elim (load id s) [ err e ↦ some e | ok r ↦ refusal now b r ]

-- `Consume`
unfoldable pub consume : String → Binding → ℕ → ℕ → Store → Option Error × Store
consume id b now now' s = elim (load id s) [
  | err e ↦ (some e, s)
  | ok r ↦ elim (refusal now b r) [
    | some e ↦ (some e, s)
    | none ↦ save (record r { status = consumed; consumed_at = now' }) s
  ]
]

-- The loop of `List` over the names of the files, with the error of the context and the two readings
-- of the clock for each.
unfoldable pub list_records :
    (String → Option Error)
    → (String → ℕ × ℕ)
    → List String
    → Store
    → Result (List Approval) × Store
list_records context clock [] s = (ok [], s)
list_records context clock (k ∷ ks) s = elim (context k) [
  | some e ↦ (err e, s)
  | none ↦ elim (load k s) [
    | err e ↦ (err e, s)
    | ok r ↦
        let (r', e, s') = expire (clock k).0 (clock k).1 r s in
        let (rest, s'') = list_records context clock ks s' in
        elim e [
          | some x ↦ (err x, s')
          | none ↦ (elim rest [ err x ↦ err x | ok rs ↦ ok (r' ∷ rs) ], s'')
        ]
  ]
]

insert_newest : Approval → List Approval → List Approval
insert_newest r [] = r ∷ []
insert_newest r (q ∷ qs) =
    let rest = insert_newest r qs in if leb q.created_at r.created_at then r ∷ q ∷ qs else q ∷ rest

-- `sort.Slice`, the newest first.
sort_newest : List Approval → List Approval
unfolding insert_newest
sort_newest [] = []
sort_newest (r ∷ rs) = insert_newest r (sort_newest rs)

-- `List`, over the names of the directory's records, or the error of reading the directory.
unfoldable pub list :
    Option Error
    → (String → Option Error)
    → (String → ℕ × ℕ)
    → Result (List String)
    → Store
    → Result (List Approval) × Store
unfolding sort_newest
list (some e) context clock names s = (err e, s)
list none context clock (err e) s = (err e, s)
list none context clock (ok names) s =
    let (r, s') = list_records context clock names s in
    (elim r [ err e ↦ err e | ok rs ↦ ok (sort_newest rs) ], s')
