-- ===== src/Executor/Targets.antt =====
-- internal/executor/target.go: snapshots of targets, their revalidation, and the fixed scope. What
-- the operating system says at the time of a call is an argument.
use safeops_agent.Contracts.Snapshot.{TargetSnapshot, pos, ℤ}
use safeops_agent.Prelude.{
  Bool, Error, List, Option, Result, String, any, clean, err, false, has_prefix, if◌then◌else◌,
  none, not, ok, refuse_if, some, to_lower, true, within, ℕ, ◌==◌, ◌>>=◌, ◌>>◌, ◌||◌,
}
use Prim.Native.String.{◌++◌}

pub record ProcessIdentity : Type 0 where
  pub start_ticks : ℕ
  pub command_digest : String
  pub uid : ℤ
  pub executable : String

pub record ServiceStatus : Type 0 where
  pub name : String
  pub active_state : String
  pub main_pid : ℤ

-- What `os.Lstat` says of a file.
pub record Stat : Type 0 where
  pub is_dir : Bool
  pub size : ℤ
  pub mtime : ℤ
  pub mode : ℕ
  pub inode : ℕ

pub data Look : Type 0 where
  seen : Stat → Look
  missing : Look
  unreadable : Error → Look

-- The platform's queries, `filepath.EvalSymlinks`, `filepath.Dir`, `filepath.Base` and `os.Lstat`.
pub record Surroundings : Type 0 where
  pub process_identity : ℤ → Result ProcessIdentity
  pub service_status : String → Result ServiceStatus
  pub eval_symlinks : String → Result String
  pub dir : String → String
  pub base : String → String
  pub look : String → Look

-- A snapshot of which nothing is known but its type and ID.
abbrev blank : String → String → TargetSnapshot
blank kind id = record {
  kind = kind;
  id = id;
  canonical_path = "";
  expect_absent = false;
  parent_path = "";
  parent_inode = 0;
  size = pos 0;
  mtime_unix_nano = pos 0;
  mode = 0;
  inode = 0;
  pid = pos 0;
  start_ticks = 0;
  command_digest = "";
  executable = "";
  uid = pos 0;
  service_name = "";
  active_state = "";
  main_pid = pos 0;
}

-- `withinRoots`
unfoldable pub within_roots : String → List String → Bool
within_roots path roots = any (λ root. within (clean root) (clean path)) roots

-- `SnapshotProcess`
unfoldable pub snapshot_process : Surroundings → String → ℤ → Result TargetSnapshot
snapshot_process w id pid = w.process_identity pid >>= λ i. ok (record (blank "process" id) {
  pid = pid;
  start_ticks = i.start_ticks;
  command_digest = i.command_digest;
  uid = i.uid;
  executable = i.executable;
})

-- `SnapshotService`
unfoldable pub snapshot_service : Surroundings → String → String → Result TargetSnapshot
snapshot_service w id unit = w.service_status unit >>= λ s. ok (record (blank "service" id) {
  service_name = s.name;
  active_state = s.active_state;
  main_pid = s.main_pid;
})

unfoldable pub stat_of : Look → Result Stat
stat_of (seen s) = ok s
stat_of missing = err "file does not exist"
stat_of (unreadable e) = err e

-- `SnapshotFile`
unfoldable pub snapshot_file : Surroundings → List String → String → String → Result TargetSnapshot
unfolding stat_of
snapshot_file w roots id path = w.eval_symlinks (clean path) >>= λ canonical.
    refuse_if (not (within_roots canonical roots)) "file path is outside allowed roots"
    >> (stat_of (w.look canonical) >>= λ s. ok (record (blank "file" id) {
      canonical_path = canonical;
      size = s.size;
      mtime_unix_nano = s.mtime;
      mode = s.mode;
      inode = s.inode;
    }))

unfoldable pub require_missing : Look → Result (Unit {0})
require_missing (seen s) = err "target file already exists"
require_missing missing = ok tt
require_missing (unreadable e) = err e

-- `filepath.Join` of two texts that are not empty.
abbrev pub join_name : String → String → String
join_name dir name = clean (dir ++ "/" ++ name)

-- `SnapshotNewFile`
unfoldable pub snapshot_new_file :
    Surroundings → List String → String → String → Result TargetSnapshot
unfolding stat_of require_missing
snapshot_new_file w roots id path = w.eval_symlinks (w.dir (clean path)) >>= λ parent.
    let name = w.base (clean path) in
    let canonical = join_name parent name in
    refuse_if (name == "." || name == "/" || name == "") "target file name is invalid"
    >> (refuse_if (not (within_roots canonical roots)) "file path is outside allowed roots"
        >> (require_missing (w.look canonical)
            >> (stat_of (w.look parent) >>= λ s.
                refuse_if (not s.is_dir) "target parent is not a directory"
                >> ok (record (blank "file" id) {
                  canonical_path = canonical;
                  expect_absent = true;
                  parent_path = parent;
                  parent_inode = s.inode;
                }))))

-- The snapshot that `Revalidate` takes.
unfoldable pub snapshot_again : Surroundings → List String → TargetSnapshot → Result TargetSnapshot
snapshot_again w roots t =
    if t.kind == "process"
    then snapshot_process w t.id t.pid
    else if t.kind == "service"
    then snapshot_service w t.id t.service_name
    else if t.kind == "file"
    then if t.expect_absent
      then snapshot_new_file w roots t.id t.canonical_path
      else snapshot_file w roots t.id t.canonical_path
    else err "unsupported target snapshot type"

-- A digest whose error is ignored.
unfoldable pub digest_text : Result String → String
digest_text (ok d) = d
digest_text (err e) = ""

-- `Revalidate`, with the digest of a snapshot as a parameter; `none` is a nil error.
unfoldable pub revalidate :
    (TargetSnapshot → Result String) → Surroundings → List String → TargetSnapshot → Option Error
revalidate digest w roots t = elim (snapshot_again w roots t) [
  | err e ↦ some e
  | ok current ↦
      let before = digest_text (digest t) in
      let now = digest_text (digest current) in
      if not (before == now)
      then some ("snapshot digest changed: expected " ++ before ++ " got " ++ now)
      else none
]

pub record FixedScope : Type 0 where
  pub allowed_services : List String
  pub allowed_file_roots : List String
  pub allowed_process_executables : List String

-- `Authorize` of the snapshot in an envelope; `none` is a nil error.
unfoldable pub authorize : FixedScope → TargetSnapshot → Option Error
authorize s t =
    if t.kind == "service"
    then if any (λ name. name == to_lower t.service_name) s.allowed_services
      then none
      else some "service is not allowlisted"
    else if t.kind == "file"
    then if within_roots t.canonical_path s.allowed_file_roots
      then none
      else some "file path is not allowlisted"
    else if t.kind == "process"
    then if any (λ p. t.executable == p || has_prefix t.executable (p ++ "/"))
        s.allowed_process_executables
      then none
      else some "process executable is not allowlisted"
    else some "unsupported target type"
