-- ===== src/Storage/Fencing.antt =====
-- Workers of internal/storage/file.go whose lease was taken over.
use safeops_agent.Disk.{Disk, save-cases}
use safeops_agent.Prelude.{
  ==-refl, ==→eq, Bool-cases, Error, Option, Option-cases, Result-cases, String, ap, arith, inl,
  inr, is_valid_id, lookup, lookup-insert, ltb, ne→==, none, not, some, subst, sym, true, ℕ, ◌&&◌,
  ◌+◌, ◌<◌, ◌==◌, ◌∙◌, ◌≡◌, ◌≢◌, ◌≤◌,
}
use safeops_agent.Storage.FileStore.{
  FileStore, claim_error, claim_locked, claim_task, claimed, lease_conflict, load_locked,
  save_locked, save_task, task_leased, validate_task_write, with_exclusive, write_task_as,
}
use safeops_agent.Storage.Leases.{
  Call, TaskWrite, apply, apply-TaskWrite, loaded-fence, untouched, wrote,
}
use safeops_agent.Task.{Task}
use native.Mathlib.Nat.{le_trans}
use safeops_agent.Disk

-- The task of an ID is there, and its fence is at least `f`.
abbrev pub HasFence : String → ℕ → FileStore → Type 0
HasFence id f s =
    (t : Task) × (lookup id s.tasks.files ≡ some (some t)) × (f ≤ t.worker_lease.fence)

TaskWrite-HasFence :
    {s t : FileStore} (id : String) (f : ℕ) → TaskWrite s t → HasFence id f s → HasFence id f t
TaskWrite-HasFence id f (untouched e) (cur, at, le) =
    (cur, ap (λ (d : Disk Task). lookup id d.files) e ∙ at, le)
TaskWrite-HasFence {s} id f (wrote k v grows e) (cur, at, le) = elim (save-cases k v s.tasks) [
  | inr (same, _) ↦
      (cur, ap (λ (d : Disk Task). lookup id d.files) e ∙ ap (lookup id) same ∙ at, le)
  | inl new ↦
      let after =
        ap (λ (d : Disk Task). lookup id d.files) e
        ∙ ap (lookup id) new
        ∙ lookup-insert k id (some v) s.tasks.files in
      elim (Bool-cases (k == id)) [
        | inl here' ↦ (
          v,
          rw here' at after,
          le_trans le (
              grows cur (
                subst (λ j. lookup j s.tasks.files ≡ some (some cur)) (sym (==→eq k id here')) at)),
        )
        | inr other ↦ (cur, (rw other at after) ∙ at, le)
      ]
]

-- The stores that any sequence of operations of a running store reaches.
pub data Reach (s : FileStore) : FileStore → Type 0 where
  here : Reach s s
  call : {t : FileStore} → Reach s t → (c : Call) → Reach s (apply c t)

-- The fence of a task never falls: where a task is there with a fence of at least `f`, it is there
-- with one of at least `f` after any operations of a running store.
Reach-HasFence :
    {s t : FileStore} (id : String) (f : ℕ) → Reach s t → HasFence id f s → HasFence id f t
Reach-HasFence id f here h = h
Reach-HasFence id f (call {t = t} r c) h =
    TaskWrite-HasFence id f (apply-TaskWrite c t) (Reach-HasFence id f r h)

-- A claim that reports no error found the task free and wrote it with the next fence.
claim_locked-HasFence :
    (id owner token : String) (ttl now f : ℕ) (s : FileStore)
    → (claim_locked id owner token ttl now s).0 ≡ none
    → HasFence id f s
    → HasFence id (f + 1) (claim_locked id owner token ttl now s).1
claim_locked-HasFence id owner token ttl now f s done (cur, at, le) =
    elim (Result-cases (load_locked id s.tasks)) [
      | inl (x, bad) ↦
          let stop : (claim_locked id owner token ttl now s).0 ≡ some x =
            unfold claim_locked in rw (bad, claim_locked) in
          cc
      | inr (t, good) ↦
          elim (Bool-cases
            (not (t.worker_lease.token == "") && ltb now t.worker_lease.expires_at)) [
              | inl leased ↦
                  let stop : (claim_locked id owner token ttl now s).0 ≡ some task_leased =
                    unfold claim_locked in rw (good, claim_locked) (rw leased) in
                  cc
              | inr free ↦
                  let q = claimed owner token ttl now t in
                  let step : claim_locked id owner token ttl now s ≡ write_task_as id q s =
                    unfold claim_locked in rw (good, claim_locked) (rw free) in
                  let saved : (Disk.save id q s.tasks).0 ≡ none =
                    unfold write_task_as in
                    ap (λ (o : Option Error × FileStore). o.0) (sym step) ∙ done in
                  elim (save-cases id q s.tasks) [
                    | inr (_, failed) ↦ absurd (failed saved)
                    | inl new ↦
                        let at' : lookup id (Disk.save id q s.tasks).1.files ≡ some (some q) =
                          rw (new, lookup-insert, ==-refl id) in
                        subst (λ (o : Option Error × FileStore). HasFence id (f + 1) o.1) (sym step)
                          (unfold write_task_as claimed in
                            (q, at', omega (arith, loaded-fence id s.tasks t cur good at)))
                  ]
            ]
    ]

validate_task_write-stale :
    (now : ℕ) (current next : Task)
    → next.worker_lease.token ≢ ""
    → next.worker_lease.fence < current.worker_lease.fence
    → validate_task_write now current next ≡ some lease_conflict
unfolding validate_task_write
validate_task_write-stale now current next named old =
    ground (arith, ne→== next.worker_lease.token "" named)

save_task-old_fence :
    (now : ℕ) (stale : Task) (s : FileStore)
    → is_valid_id stale.id ≡ true
    → stale.worker_lease.token ≢ ""
    → HasFence stale.id (stale.worker_lease.fence + 1) s
    → save_task none now stale s ≡ (some lease_conflict, s)
unfolding save_task with_exclusive save_locked
save_task-old_fence now stale s valid named (cur, at, le) =
    rw valid
      (rw (at, save_locked) (rw (validate_task_write-stale now cur stale named (omega arith))))

claim_error-valid :
    (id owner token : String) (ttl : ℕ)
    → claim_error id owner token ttl ≡ none
    → is_valid_id id ≡ true
unfolding claim_error
claim_error-valid id owner token ttl h = ground arith

claim_task-none :
    (id owner token : String) (ttl now : ℕ) (s : FileStore)
    → (claim_task none id owner token ttl now s).0 ≡ none
    → (is_valid_id id ≡ true)
      × (claim_task none id owner token ttl now s ≡ claim_locked id owner token ttl now s)
claim_task-none id owner token ttl now s done =
    elim (Option-cases (claim_error id owner token ttl)) [
      | inr (x, bad) ↦
          let stop : (claim_task none id owner token ttl now s).0 ≡ some x =
            unfold claim_task in rw (bad, claim_task) in
          cc
      | inl fine ↦ (
        claim_error-valid id owner token ttl fine,
        unfold claim_task with_exclusive in rw (fine, claim_task),
      )
    ]

-- A worker that holds an older lease of a task than the last one that was claimed cannot write the
-- task any more: whatever operations of the running store come after the claim, at any time, its `SaveTask` is refused
-- with a lease conflict and changes nothing. This is said of a task that names a lease by a token
-- that is not empty.
pub save_task-stale :
    (id owner token : String) (ttl now later : ℕ) (s t : FileStore) (stale : Task)
    → (claim_task none id owner token ttl now s).0 ≡ none
    → Reach (claim_task none id owner token ttl now s).1 t
    → stale.id ≡ id
    → stale.worker_lease.token ≢ ""
    → HasFence id stale.worker_lease.fence s
    → save_task none later stale t ≡ (some lease_conflict, t)
save_task-stale id owner token ttl now later s t stale done reach same named old =
    let f = stale.worker_lease.fence in
    let (valid, step) = claim_task-none id owner token ttl now s done in
    let locked = ap (λ (o : Option Error × FileStore). o.0) (sym step) ∙ done in
    let after : HasFence id (f + 1) (claim_task none id owner token ttl now s).1 =
      subst (λ (o : Option Error × FileStore). HasFence id (f + 1) o.1) (sym step)
        (claim_locked-HasFence id owner token ttl now f s locked old) in
    let kept = Reach-HasFence id (f + 1) reach after in
    save_task-old_fence later stale t (subst (λ j. is_valid_id j ≡ true) (sym same) valid) named
      (subst (λ j. HasFence j (f + 1) t) (sym same) kept)
