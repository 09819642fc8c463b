-- ===== src/Storage/Leases.antt =====
-- What the operations of internal/storage/file.go write to the tasks.
use safeops_agent.Prelude.{
  if◌then◌else◌, ◌&&◌, ℕ, ◌≤◌, ◌≡◌, refl, ap, sym, subst, ◌∙◌, ◌⊎◌, inl, inr, String, Bool, true,
  false, not, ◌||◌, Option, none, some, ◌==◌, ltb, eqb, Error, Result, ok, lookup, arith,
  Bool-cases, Option-cases, Result-cases,
}
use safeops_agent.Disk
use safeops_agent.Disk.{Disk, save-cases}
use safeops_agent.Session.{Session}
use safeops_agent.Task.{Task}
use safeops_agent.Storage.FileStore.{
  prepare_steps, run_steps, claim_error, with_exclusive, FileStore, load_locked, save_session,
  save_session_locked, update_locked, update_session, write_journal, write_task, remove_preparation,
  write_prepared, prepare_locked, prepare_task, validate_task_write, save_locked, save_task,
  write_task_as, claimed, claim_locked, claim_task, released, release_locked, release_task,
}

-- What an operation has done to the tasks: nothing, or one write that does not lower the fence of
-- the task that was there.
pub data TaskWrite (s t : FileStore) : Type 0 where
  untouched : t.tasks ≡ s.tasks → TaskWrite s t
  wrote :
      (k : String) (v : Task)
      → ((cur : Task)
          → lookup k s.tasks.files ≡ some (some cur)
          → cur.worker_lease.fence ≤ v.worker_lease.fence)
      → t.tasks ≡ (Disk.save k v s.tasks).1
      → TaskWrite s t

pub load_locked-ok :
    (id : String) (d : Disk Task) (t : Task)
    → load_locked id d ≡ ok t
    → lookup id d.files ≡ some (some t)
unfolding load_locked
load_locked-ok id d t h = ground arith

pub content_injective : {a b : Task} → some (some a) ≡ some (some b) → a ≡ b
content_injective h = cc

pub loaded-fence :
    (id : String) (d : Disk Task) (t cur : Task)
    → load_locked id d ≡ ok t
    → lookup id d.files ≡ some (some cur)
    → cur.worker_lease.fence ≡ t.worker_lease.fence
loaded-fence id d t cur good h =
    ap (λ (c : Task). c.worker_lease.fence) (content_injective (sym h ∙ load_locked-ok id d t good))

validate_task_write-fence :
    (now : ℕ) (current next : Task)
    → validate_task_write now current next ≡ none
    → current.worker_lease.fence ≤ next.worker_lease.fence
unfolding validate_task_write
validate_task_write-fence now current next h = ground arith

save_locked-TaskWrite : (now : ℕ) (t : Task) (s : FileStore) → TaskWrite s (save_locked now t s).1
save_locked-TaskWrite now t s = elim (Option-cases (lookup t.id s.tasks.files)) [
  | inl absent ↦
      wrote t.id t (λ cur h. cc) (unfold save_locked write_task in rw (absent, save_locked))
  | inr (content, found) ↦ elim (Option-cases content) [
    | inl broken ↦ untouched (unfold save_locked in rw (found, save_locked) (rw broken))
    | inr (current, whole) ↦ elim (Option-cases (validate_task_write now current t)) [
      | inr (x, refused) ↦
          untouched (unfold save_locked in rw (found, save_locked) (rw whole (rw refused)))
      | inl allowed ↦
          wrote t.id t
            (λ cur h.
              subst (λ (c : Task). c.worker_lease.fence ≤ t.worker_lease.fence)
                (content_injective (ap some (sym whole) ∙ sym found ∙ h))
                (validate_task_write-fence now current t allowed))
            (unfold save_locked write_task in rw (found, save_locked) (rw whole (rw allowed)))
    ]
  ]
]

claim_locked-TaskWrite :
    (id owner token : String) (ttl now : ℕ) (s : FileStore)
    → TaskWrite s (claim_locked id owner token ttl now s).1
claim_locked-TaskWrite id owner token ttl now s = elim (Result-cases (load_locked id s.tasks)) [
  | inl (x, bad) ↦ untouched (unfold claim_locked in rw (bad, claim_locked))
  | inr (t, good) ↦
      elim (Bool-cases (not (t.worker_lease.token == "") && ltb now t.worker_lease.expires_at)) [
        | inl leased ↦ untouched (unfold claim_locked in rw (good, claim_locked) (rw leased))
        | inr free ↦
            wrote id (claimed owner token ttl now t)
              (λ cur h. unfold claimed in omega (arith, loaded-fence id s.tasks t cur good h))
              (unfold claim_locked write_task_as in rw (good, claim_locked) (rw free))
      ]
]

release_locked-TaskWrite :
    (id token : String) (fence : ℕ) (s : FileStore)
    → TaskWrite s (release_locked id token fence s).1
release_locked-TaskWrite id token fence s = elim (Result-cases (load_locked id s.tasks)) [
  | inl (x, bad) ↦ untouched (unfold release_locked in rw (bad, release_locked))
  | inr (t, good) ↦
      elim (Bool-cases
        (not (t.worker_lease.token == token) || not (eqb t.worker_lease.fence fence))) [
          | inl other ↦ untouched (unfold release_locked in rw (good, release_locked) (rw other))
          | inr own ↦
              wrote id (released t)
                (λ cur h. unfold released in omega (arith, loaded-fence id s.tasks t cur good h))
                (unfold release_locked write_task_as in rw (good, release_locked) (rw own))
        ]
]

-- Of the writes of `PrepareTask` at most the one of the task touches the tasks.
write_prepared-tasks :
    (t : Task) (p : Session) (s : FileStore)
    → ((write_prepared t p s).1.tasks ≡ s.tasks)
      ⊎ ((write_prepared t p s).1.tasks ≡ (Disk.save t.id t s.tasks).1)
unfolding write_prepared run_steps prepare_steps write_journal write_task save_session_locked
    remove_preparation
write_prepared-tasks t p s = ground arith

prepare_locked-tasks :
    (t : Task) (mutate : Session → Result Session) (s : FileStore)
    → lookup t.id s.tasks.files ≡ none
    → ((prepare_locked t mutate s).1.tasks ≡ s.tasks)
      ⊎ ((prepare_locked t mutate s).1.tasks ≡ (Disk.save t.id t s.tasks).1)
unfolding prepare_locked
prepare_locked-tasks t mutate s absent = elim (Result-cases (load_locked t.session_id s.sessions)) [
  | inl (x, bad) ↦ ground arith
  | inr (v, good) ↦ elim (Result-cases (mutate v)) [
    | inl (x, bad) ↦ ground arith
    | inr (p, made) ↦ ground (arith, write_prepared-tasks t p s)
  ]
]

prepare_locked-TaskWrite :
    (t : Task) (mutate : Session → Result Session) (s : FileStore)
    → TaskWrite s (prepare_locked t mutate s).1
prepare_locked-TaskWrite t mutate s = elim (Option-cases (lookup t.id s.tasks.files)) [
  | inr (content, found) ↦ untouched (unfold prepare_locked in rw (found, prepare_locked))
  | inl absent ↦ elim (prepare_locked-tasks t mutate s absent) [
    | inl same ↦ untouched same
    | inr stepped ↦ wrote t.id t (λ cur h. cc) stepped
  ]
]

-- The public operations of a running store that can touch a task or a session. What `NewFileStore`
-- does at start-up, `recover_preparations`, is not among them: it writes a journal's task whatever
-- lease the task that is there has.
pub data Call : Type 0 where
  save_session_call : Option Error → Session → Call
  update_session_call : Option Error → String → (Session → Result Session) → Call
  prepare_task_call : Option Error → Task → (Session → Result Session) → Call
  save_task_call : Option Error → ℕ → Task → Call
  claim_task_call : Option Error → String → String → String → ℕ → ℕ → Call
  release_task_call : Option Error → String → String → ℕ → Call

unfoldable pub apply : Call → FileStore → FileStore
apply (save_session_call ctx v) s = (save_session ctx v s).1
apply (update_session_call ctx id mutate) s = (update_session ctx id mutate s).1
apply (prepare_task_call ctx t mutate) s = (prepare_task ctx t mutate s).1
apply (save_task_call ctx now t) s = (save_task ctx now t s).1
apply (claim_task_call ctx id owner token ttl now) s = (claim_task ctx id owner token ttl now s).1
apply (release_task_call ctx id token fence) s = (release_task ctx id token fence s).1

update_locked-tasks :
    (id : String) (mutate : Session → Result Session) (s : FileStore)
    → (update_locked id mutate s).1.tasks ≡ s.tasks
unfolding update_locked save_session_locked
update_locked-tasks id mutate s = elim (Result-cases (load_locked id s.sessions)) [
  | inl (x, bad) ↦ ground arith
  | inr (v, good) ↦ elim (Result-cases (mutate v)) [
    | inl (x, bad) ↦ ground arith
    | inr (p, made) ↦ ground arith
  ]
]

-- A call is refused, or is what it does under the lock.
under_lock :
    (ctx : Option Error) (operation : FileStore → Option Error × FileStore) (s : FileStore)
    → TaskWrite s (operation s).1
    → TaskWrite s (with_exclusive ctx operation s).1
unfolding with_exclusive
under_lock none operation s w = w
under_lock (some x) operation s w = untouched refl

unless :
    (bad : Bool) (x : Option Error) (out : Option Error × FileStore) (s : FileStore)
    → TaskWrite s out.1
    → TaskWrite s (if◌then◌else◌ {A = Option Error × FileStore} bad (x, s) out).1
unless true x out s w = untouched refl
unless false x out s w = w

claim_task-TaskWrite :
    (ctx : Option Error) (id owner token : String) (ttl now : ℕ) (s : FileStore)
    → TaskWrite s (claim_task ctx id owner token ttl now s).1
claim_task-TaskWrite ctx id owner token ttl now s =
    elim (Option-cases (claim_error id owner token ttl)) [
      | inr (x, bad) ↦ untouched (unfold claim_task in rw (bad, claim_task))
      | inl fine ↦
          let step : (claim_task ctx id owner token ttl now s).1
              ≡ (with_exclusive ctx (claim_locked id owner token ttl now) s).1 =
            unfold claim_task in rw (fine, claim_task) in
          subst (TaskWrite s) (sym step) (
            under_lock ctx (claim_locked id owner token ttl now) s
              (claim_locked-TaskWrite id owner token ttl now s))
    ]

pub apply-TaskWrite : (c : Call) (s : FileStore) → TaskWrite s (apply c s)
unfolding apply save_session update_session prepare_task save_task claim_task release_task
apply-TaskWrite (save_session_call ctx v) s =
    unless _ _ _ s
      (under_lock ctx (save_session_locked v) s (unfold save_session_locked in untouched refl))
apply-TaskWrite (update_session_call ctx id mutate) s =
    unless _ _ _ s
      (under_lock ctx (update_locked id mutate) s (untouched (update_locked-tasks id mutate s)))
apply-TaskWrite (prepare_task_call ctx t mutate) s =
    unless _ _ _ s
      (under_lock ctx (prepare_locked t mutate) s (prepare_locked-TaskWrite t mutate s))
apply-TaskWrite (save_task_call ctx now t) s =
    unless _ _ _ s (under_lock ctx (save_locked now t) s (save_locked-TaskWrite now t s))
apply-TaskWrite (claim_task_call ctx id owner token ttl now) s =
    claim_task-TaskWrite ctx id owner token ttl now s
apply-TaskWrite (release_task_call ctx id token fence) s =
    unless _ _ _ s
      (under_lock ctx (release_locked id token fence) s (release_locked-TaskWrite id token fence s))
