-- ===== src/Storage/FileStore.antt =====
-- internal/storage/file.go. The store is its three directories; the lock of the store is held for
-- the whole of an operation. The context's error (`ctx`), the readings of the clock and the
-- mutations of a session are arguments.
use Prim.Native.String.{◌++◌}
use safeops_agent.Prelude.{
  ℕ, ◌+◌, String, not, ◌&&◌, ◌||◌, List, [], ◌∷◌, Option, none, some, ◌==◌, eqb, leb, ltb, Error,
  Result, ok, err, lookup, is_valid_id, trim_space, if◌then◌else◌,
}
use safeops_agent.Disk
use safeops_agent.Disk.{Disk}
use safeops_agent.Session.{Session, Message}
use safeops_agent.Task.{Task}

-- `taskPreparation`
pub record Preparation : Type 0 where
  pub schema_version : ℕ
  pub task : Task
  pub session : Session

pub record FileStore : Type 0 where
  pub sessions : Disk Session
  pub tasks : Disk Task
  pub state : Disk Preparation

abbrev pub not_found : Error
not_found = "not found"

abbrev pub task_leased : Error
task_leased = "task is leased by another worker"

abbrev pub lease_conflict : Error
lease_conflict = "task worker lease conflict"

abbrev pub lease_expired : Error
lease_expired = "task worker lease expired"

abbrev pub invalid_id : Error
invalid_id = "invalid id"

-- `loadLocked`
unfoldable pub load_locked {ℓ} : {V : Type ℓ} → String → Disk V → Result V
load_locked id d = elim (lookup id d.files) [
  | none ↦ err not_found
  | some content ↦ elim content [ none ↦ err "file cannot be decoded" | some v ↦ ok v ]
]

-- `withExclusive`, once the locks are held: the operation runs unless the context has ended.
unfoldable pub with_exclusive :
    Option Error → (FileStore → Option Error × FileStore) → FileStore → Option Error × FileStore
with_exclusive (some x) operation s = (some x, s)
with_exclusive none operation s = operation s

unfoldable pub save_session_locked : Session → FileStore → Option Error × FileStore
save_session_locked v s = let (e, d) = Disk.save v.id v s.sessions in (e, record s { sessions = d })

unfoldable pub save_session : Option Error → Session → FileStore → Option Error × FileStore
save_session ctx v s =
    if not (is_valid_id v.id)
    then (some invalid_id, s)
    else with_exclusive ctx (save_session_locked v) s

-- The operation under the lock of `UpdateSession`.
unfoldable pub update_locked :
    String → (Session → Result Session) → FileStore → Option Error × FileStore
update_locked id mutate s = elim (load_locked id s.sessions) [
  | err x ↦ (some x, s)
  | ok v ↦ elim (mutate v) [
    | err x ↦ (some x, s)
    | ok v' ↦
        if not (v'.id == id)
        then (some "session mutation changed the session id", s)
        else save_session_locked v' s
  ]
]

unfoldable pub update_session :
    Option Error → String → (Session → Result Session) → FileStore → Option Error × FileStore
update_session ctx id mutate s =
    if not (is_valid_id id)
    then (some invalid_id, s)
    else with_exclusive ctx (update_locked id mutate) s

-- `GetSession` and `GetTask`
unfoldable pub get {ℓ} : {V : Type ℓ} → Option Error → String → Disk V → Result V
get (some e) id d = err e
get none id d = if is_valid_id id then load_locked id d else err invalid_id

unfoldable pub preparation_id : String → String
preparation_id task_id = "prepare-" ++ task_id

unfoldable pub count_messages : String → List Message → ℕ
count_messages id [] = 0
count_messages id (m ∷ ms) = (if m.task_id == id then 1 else 0) + count_messages id ms

-- The writes of `PrepareTask`.
unfoldable pub write_journal : Task → Session → FileStore → Option Error × FileStore
write_journal t p s =
    let (e, d) =
      Disk.save (preparation_id t.id) (record { schema_version = 1; task = t; session = p })
        s.state in
    (e, record s { state = d })

unfoldable pub write_task : Task → FileStore → Option Error × FileStore
write_task t s = let (e, d) = Disk.save t.id t s.tasks in (e, record s { tasks = d })

unfoldable pub remove_preparation : String → FileStore → Option Error × FileStore
remove_preparation id s =
    let (e, d) = Disk.remove (preparation_id id) s.state in (e, record s { state = d })

-- `if err := f(); err != nil { return err }; return g()`, on the store.
infixl 5 ◌then_do◌
abbrev pub ◌then_do◌ :
    Option Error × FileStore → (FileStore → Option Error × FileStore) → Option Error × FileStore
out then_do g = elim out.0 [ some x ↦ out | none ↦ g out.1 ]

-- One after the other; each runs only if the one before it reported no error.
unfoldable pub run_steps :
    List (FileStore → Option Error × FileStore) → FileStore → Option Error × FileStore
run_steps [] s = (none, s)
run_steps (f ∷ fs) s = f s then_do run_steps fs

unfoldable pub prepare_steps : Task → Session → List (FileStore → Option Error × FileStore)
prepare_steps t p =
    write_journal t p ∷ write_task t ∷ save_session_locked p ∷ remove_preparation t.id ∷ []

unfoldable pub write_prepared : Task → Session → FileStore → Option Error × FileStore
write_prepared t p s = run_steps (prepare_steps t p) s

-- The operation under the lock of `PrepareTask`.
unfoldable pub prepare_locked :
    Task → (Session → Result Session) → FileStore → Option Error × FileStore
prepare_locked t mutate s = elim (lookup t.id s.tasks.files) [
  | some content ↦
      (some (elim content [ none ↦ "file cannot be decoded" | some _ ↦ "task already exists" ]), s)
  | none ↦ elim (load_locked t.session_id s.sessions) [
    | err x ↦ (some x, s)
    | ok v ↦ elim (mutate v) [
      | err x ↦ (some x, s)
      | ok p ↦
          if not (p.id == t.session_id)
          then (some "session mutation changed the session id", s)
          else if not (eqb (count_messages t.id p.messages) 1)
          then (some "prepared session must contain exactly one message bound to the task", s)
          else write_prepared t p s
    ]
  ]
]

unfoldable pub prepare_task :
    Option Error → Task → (Session → Result Session) → FileStore → Option Error × FileStore
prepare_task ctx t mutate s =
    if not (is_valid_id t.id) || not (is_valid_id t.session_id)
    then (some invalid_id, s)
    else with_exclusive ctx (prepare_locked t mutate) s

-- `validateTaskWrite`
unfoldable pub validate_task_write : ℕ → Task → Task → Option Error
validate_task_write now current next =
    let lease = current.worker_lease in
    let wanted = next.worker_lease in
    if lease.token == ""
    then (if not (wanted.token == "") || ltb wanted.fence lease.fence
        then some lease_conflict
        else none)
    else if not (wanted.token == lease.token) || not (eqb wanted.fence lease.fence)
    then some lease_conflict
    else if not (ltb now lease.expires_at)
    then some lease_expired
    else none

-- The operation under the lock of `SaveTask`.
unfoldable pub save_locked : ℕ → Task → FileStore → Option Error × FileStore
save_locked now t s = elim (lookup t.id s.tasks.files) [
  | none ↦ write_task t s
  | some content ↦ elim content [
    | none ↦ (some "file cannot be decoded", s)
    | some current ↦ elim (validate_task_write now current t) [
      | some x ↦ (some x, s)
      | none ↦ write_task t s
    ]
  ]
]

unfoldable pub save_task : Option Error → ℕ → Task → FileStore → Option Error × FileStore
save_task ctx now t s =
    if not (is_valid_id t.id)
    then (some invalid_id, s)
    else with_exclusive ctx (save_locked now t) s

-- A write of a task under the name that it was read from.
unfoldable pub write_task_as : String → Task → FileStore → Option Error × FileStore
write_task_as id t s = let (e, d) = Disk.save id t s.tasks in (e, record s { tasks = d })

unfoldable pub claimed : String → String → ℕ → ℕ → Task → Task
claimed owner token ttl now t = record t {
  worker_lease = record {
    owner = trim_space owner;
    token = trim_space token;
    fence = t.worker_lease.fence + 1;
    expires_at = now + ttl;
  };
}

-- The operation under the lock of `ClaimTask`.
unfoldable pub claim_locked :
    String → String → String → ℕ → ℕ → FileStore → Option Error × FileStore
claim_locked id owner token ttl now s = elim (load_locked id s.tasks) [
  | err x ↦ (some x, s)
  | ok t ↦
      if not (t.worker_lease.token == "") && ltb now t.worker_lease.expires_at
      then (some task_leased, s)
      else write_task_as id (claimed owner token ttl now t) s
]

-- The tests of `ClaimTask` before the lock; a lease lasts at most ten minutes.
unfoldable pub claim_error : String → String → String → ℕ → Option Error
claim_error id owner token ttl =
    if not (is_valid_id id)
    then some invalid_id
    else if trim_space owner == "" || trim_space token == ""
    then some "worker owner and token are required"
    else if leb ttl 0 || ltb 600000000000 ttl
    then some "worker lease TTL must be within (0, 10m]"
    else none

-- `ClaimTask`
unfoldable pub claim_task :
    Option Error → String → String → String → ℕ → ℕ → FileStore → Option Error × FileStore
claim_task ctx id owner token ttl now s = elim (claim_error id owner token ttl) [
  | some x ↦ (some x, s)
  | none ↦ with_exclusive ctx (claim_locked id owner token ttl now) s
]

unfoldable pub released : Task → Task
released t = record t {
  worker_lease = record { owner = ""; token = ""; fence = t.worker_lease.fence; expires_at = 0 };
}

-- The operation under the lock of `ReleaseTask`.
unfoldable pub release_locked : String → String → ℕ → FileStore → Option Error × FileStore
release_locked id token fence s = elim (load_locked id s.tasks) [
  | err x ↦ (some x, s)
  | ok t ↦
      if not (t.worker_lease.token == token) || not (eqb t.worker_lease.fence fence)
      then (some lease_conflict, s)
      else write_task_as id (released t) s
]

unfoldable pub release_task :
    Option Error → String → String → ℕ → FileStore → Option Error × FileStore
release_task ctx id token fence s =
    if not (is_valid_id id)
    then (some invalid_id, s)
    else with_exclusive ctx (release_locked id token fence) s

-- One round of `recoverTaskPreparationsLocked`, at a file of the journal.
unfoldable pub recover_preparation : String → FileStore → Option Error × FileStore
recover_preparation name s = elim (load_locked name s.state) [
  | err x ↦ (some x, s)
  | ok r ↦
      if not (eqb r.schema_version 1)
        || not (is_valid_id r.task.id)
        || not (is_valid_id r.session.id)
        || not (r.task.session_id == r.session.id)
      then (some ("invalid task preparation journal " ++ name), s)
      else write_task r.task s
        then_do save_session_locked r.session
        then_do remove_preparation r.task.id
]

-- `recoverTaskPreparationsLocked`, over the names of the journal's files.
unfoldable pub recover_preparations : List String → FileStore → Option Error × FileStore
recover_preparations [] s = (none, s)
recover_preparations (n ∷ ns) s = recover_preparation n s then_do (λ s'. recover_preparations ns s')
