-- ===== src/Approval/Calls.antt =====
-- Sequences of calls of internal/approval/store.go.
use safeops_agent.Approval.Lifecycle.{
  IsNamed, Write, Write-IsNamed, consume-Write, create-Write, expire-Write, get-Write,
  load-found_named, resolve-Write,
}
use safeops_agent.Approval.Store.{
  Store, consume, create, expire, get, list, list_records, load, resolve,
}
use safeops_agent.Approval.Types.{Binding}
use safeops_agent.Prelude.{
  ok, Result, err, Bool, Error, List, Option, Option-cases, Result-cases, String, [], inl, inr,
  lookup, none, some, subst, sym, ℕ, ◌∷◌, ◌≡◌,
}
use safeops_agent.Approval.Store

-- Any number of writes.
pub data Writes (s : Store) : Store → Type 0 where
  nothing : Writes s s
  and_then : {t u : Store} → Writes s t → Write t u → Writes s u

Writes-append : {s t u : Store} → Writes s t → Writes t u → Writes s u
Writes-append a nothing = a
Writes-append a (and_then b w) = and_then (Writes-append a b) w

Writes-IsNamed : {s t : Store} → IsNamed s → Writes s t → IsNamed t
Writes-IsNamed h nothing = h
Writes-IsNamed h (and_then ws w) = Write-IsNamed (Writes-IsNamed h ws) w

list_records-Writes :
    (context : String → Option Error) (clock : String → ℕ × ℕ) (names : List String) (s : Store)
    → IsNamed s
    → Writes s (list_records context clock names s).1
list_records-Writes context clock [] s h = unfold list_records in nothing
list_records-Writes context clock (k ∷ ks) s h = elim (Option-cases (context k)) [
  | inr (x, over) ↦
      let stop : (list_records context clock (k ∷ ks) s).1 ≡ s =
        unfold list_records in rw (over, list_records) in
      subst (Writes s) (sym stop) nothing
  | inl goes_on ↦ elim (Result-cases (Store.load k s)) [
    | inl (e, bad) ↦
        let stop : (list_records context clock (k ∷ ks) s).1 ≡ s =
          unfold list_records in rw (goes_on, list_records) (rw bad) in
        subst (Writes s) (sym stop) nothing
    | inr (r, good) ↦
        let (now, now') = clock k in
        let w = expire-Write now now' r s (load-found_named k s r h good) in
        let s' = (expire now now' r s).2 in
        let rest = list_records-Writes context clock ks s' (Write-IsNamed h w) in
        elim (Option-cases (expire now now' r s).1) [
          | inr (x, failed) ↦
              let stop : (list_records context clock (k ∷ ks) s).1 ≡ s' =
                unfold list_records in rw (goes_on, list_records) (rw good (rw failed)) in
              subst (Writes s) (sym stop) (and_then nothing w)
          | inl fine ↦
              let more : (list_records context clock (k ∷ ks) s).1
                  ≡ (list_records context clock ks s').1 =
                unfold list_records in rw (goes_on, list_records) (rw good (rw fine)) in
              subst (Writes s) (sym more) (Writes-append (and_then nothing w) rest)
        ]
  ]
]

-- The calls of the store, with the readings of the clock and the new IDs that each takes.
pub data Call : Type 0 where
  create_call : Option Error → String → ℕ → Binding → ℕ → Call
  get_call : Option Error → String → ℕ → ℕ → Call
  list_call :
      Option Error → (String → Option Error) → (String → ℕ × ℕ) → Result (List String) → Call
  resolve_call : Option Error → String → Bool → String → ℕ → Call
  validate_call : String → Binding → ℕ → Call
  consume_call : String → Binding → ℕ → ℕ → Call

unfoldable pub apply : Call → Store → Store
apply (create_call ctx id now b ttl) s = (create ctx id now b ttl s).2
apply (get_call ctx id now now') s = (get ctx id now now' s).2
apply (list_call ctx context clock names) s = (list ctx context clock names s).1
apply (resolve_call ctx id yes' reason now) s = (resolve ctx id yes' reason now s).2
apply (validate_call id b now) s = s
apply (consume_call id b now now') s = (consume id b now now' s).1

-- A new ID is not in use.
abbrev pub IsFresh : Call → Store → Type 0
IsFresh (create_call ctx id now b ttl) s = lookup id s.files ≡ none
IsFresh _ s = Unit

apply-Writes : (c : Call) (s : Store) → IsNamed s → IsFresh c s → Writes s (apply c s)
unfolding apply
apply-Writes (create_call ctx id now b ttl) s h fresh =
    and_then nothing (create-Write ctx id now b ttl s fresh)
apply-Writes (get_call ctx id now now') s h fresh = and_then nothing (get-Write ctx id now now' s h)
apply-Writes (list_call (some e) context clock names) s h fresh = unfold list in nothing
apply-Writes (list_call none context clock (err e)) s h fresh = unfold list in nothing
apply-Writes (list_call none context clock (ok names)) s h fresh =
    unfold list in list_records-Writes context clock names s h
apply-Writes (resolve_call ctx id yes' reason now) s h fresh =
    and_then nothing (resolve-Write ctx id yes' reason now s h)
apply-Writes (validate_call id b now) s h fresh = nothing
apply-Writes (consume_call id b now now') s h fresh =
    and_then nothing (consume-Write id b now now' s h)

-- The stores that any sequence of calls reaches.
pub data Reach (s : Store) : Store → Type 0 where
  here : Reach s s
  call : {t : Store} → Reach s t → (c : Call) → IsFresh c t → Reach s (apply c t)

pub Reach-Writes : {s t : Store} → IsNamed s → Reach s t → Writes s t
Reach-Writes h here = nothing
Reach-Writes h (call {t = t} r c fresh) =
    let ws = Reach-Writes h r in Writes-append ws (apply-Writes c t (Writes-IsNamed h ws) fresh)
