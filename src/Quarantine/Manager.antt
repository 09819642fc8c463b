-- ===== src/Quarantine/Manager.antt =====
-- internal/rollback/quarantine.go: the manager. Its state is the file system and the directory of
-- manifests; the error of the context (`ctx`) and each reading of the clock are arguments, and what
-- the code takes from the Go library is an `Environment`. An operation runs under the manager's
-- mutex.
use safeops_agent.Contracts.Hex.{hex_encode}
use safeops_agent.Contracts.Snapshot.{TargetSnapshot, snapshot_digest}
use safeops_agent.Disk.{Disk, Fault, not_renamed, not_synced, remove, written}
use safeops_agent.Prelude.{
  refl, ◌≡◌, Bool, Error, List, Option, Result, String, [], any, eqb, err, false, if◌then◌else◌,
  insert, leb, lookup, none, not, ok, refuse_if, some, within, ℕ, ◌&&◌, ◌-◌, ◌==◌, ◌>>=◌, ◌>>◌,
  ◌||◌, ◌∷◌,
}
use safeops_agent.Quarantine.Files.{
  FileSystem, absent, lstat, present, rename, unknown, verify_identity,
}
use Prim.Native.String.{◌++◌}
use Prim.Native.Char.{code}
use safeops_agent.Disk

pub data QuarantineStatus : Type 0 where
  prepared committed restored : QuarantineStatus
  other_status : String → QuarantineStatus

pub record Manifest : Type 0 where
  pub id : String
  pub task_id : String
  pub original_path : String
  pub quarantined_path : String
  pub original_snapshot : TargetSnapshot
  pub status : QuarantineStatus
  pub created_at : ℕ
  pub committed_at : ℕ
  pub restored_at : ℕ

pub record Operation : Type 0 where
  pub manifest : Manifest
  pub checks : List String

-- `filepath.EvalSymlinks`, `filepath.Dir`, the JSON of a snapshot and SHA-256 as bytes.
pub record Environment : Type 0 where
  pub eval_symlinks : String → Result String
  pub dir : String → String
  pub marshal_snapshot : TargetSnapshot → Result String
  pub sha256 : String → List ℕ

-- `QuarantineManager`; `objects_dir` is a clean path.
pub record QuarantineManager : Type 0 where
  pub lab_roots : List String
  pub objects_dir : String

pub record State : Type 0 where
  pub system : FileSystem
  pub manifests : Disk Manifest

-- Equality of the Go texts.
unfoldable pub status_text : QuarantineStatus → String
status_text prepared = "PREPARED"
status_text committed = "COMMITTED"
status_text restored = "RESTORED"
status_text (other_status s) = s

unfoldable pub is_status : QuarantineStatus → QuarantineStatus → Bool
unfolding status_text
is_status a b = status_text a == status_text b

-- `withinAny`
unfoldable pub within_any : String → List String → Bool
within_any path roots = any (λ root. within root path) roots

-- Lower-case hexadecimal digits, this many.
hex_digits : ℕ → String → Bool
hex_digits n String.[] = eqb n 0
hex_digits n (String.◌∷◌ c s) =
    not (eqb n 0)
    && ((leb b'0' (code c) && leb (code c) b'9') || (leb b'a' (code c) && leb (code c) b'f'))
    && hex_digits (n - 1) s

-- `quarantineIDPattern`
unfoldable pub is_quarantine_id : String → Bool
unfolding hex_digits
is_quarantine_id (String.◌∷◌ q (String.◌∷◌ u s)) =
    eqb (code q) b'q' && eqb (code u) b'_' && hex_digits 24 s
is_quarantine_id _ = false

take : ℕ → List ℕ → List ℕ
take n [] = []
take n (x ∷ xs) = if eqb n 0 then [] else x ∷ take (n - 1) xs

unfoldable pub object_id : Environment → String → String → String → String
unfolding take
object_id env task nonce digest =
    "q_" ++ hex_encode (take 12 (env.sha256 (task ++ "\0" ++ nonce ++ "\0" ++ digest)))

unfoldable pub fail_on : Error → Option Error → Result (Unit {0})
fail_on label none = ok tt
fail_on label (some x) = err (label ++ x)

-- `os.Lstat` has to say that there is no such file.
unfoldable pub require_absent : String → Error → FileSystem → Result (Unit {0})
require_absent path occupied fs = elim (lstat path fs) [
  | absent ↦ ok tt
  | present ↦ err occupied
  | unknown ↦ err "file cannot be examined"
]

-- The part of `Quarantine` before it changes anything: the manifest to write.
unfoldable pub prepare :
    Environment
    → QuarantineManager
    → String
    → String
    → TargetSnapshot
    → ℕ
    → FileSystem
    → Result Manifest
prepare env m task nonce expected now fs =
    refuse_if
      (not (expected.kind == "file") || expected.canonical_path == "" || task == "" || nonce == "")
      "complete file snapshot, task ID, and nonce are required"
    >> (env.eval_symlinks expected.canonical_path >>= λ path.
        refuse_if (not (within_any path m.lab_roots)) "file is outside configured Lab roots"
        >> (fail_on "TARGET_CHANGED: " (verify_identity path expected fs)
            >> (snapshot_digest env.marshal_snapshot (λ t. hex_encode (env.sha256 t)) expected
                >>= λ digest.
                    let id = object_id env task nonce digest in
                    let destination = m.objects_dir ++ "/" ++ id in
                    require_absent destination "quarantine object already exists" fs
                    >> ok (record {
                      id = id;
                      task_id = task;
                      original_path = path;
                      quarantined_path = destination;
                      original_snapshot = expected;
                      status = prepared;
                      created_at = now;
                      committed_at = 0;
                      restored_at = 0;
                    }))))

-- `saveNew`: a file that is there is never overwritten, and a file whose writing fails is removed.
-- What such a write leaves where its removal fails too is taken to be the whole manifest.
written_new : List Fault → Manifest → Disk Manifest → Option Error × Disk Manifest
written_new [] r d = (none, record { files = insert r.id (some r) d.files; faults = [] })
written_new (written ∷ fs) r d =
    (none, record { files = insert r.id (some r) d.files; faults = fs })
written_new (not_renamed e ∷ fs) r d = (some e, record { files = d.files; faults = fs })
written_new (not_synced e ∷ fs) r d =
    (some e, (Disk.remove r.id (record { files = insert r.id (some r) d.files; faults = fs })).1)

unfoldable pub save_new : Manifest → Disk Manifest → Option Error × Disk Manifest
unfolding written_new
save_new r d = elim (lookup r.id d.files) [
  | some _ ↦ (some "file exists", d)
  | none ↦ written_new d.faults r d
]

-- A new manifest that nothing disturbs.
pub save_new-free :
    (r : Manifest) (d : Disk Manifest)
    → d.faults ≡ []
    → lookup r.id d.files ≡ none
    → save_new r d ≡ (none, record { files = insert r.id (some r) d.files; faults = [] })
unfolding save_new written_new
save_new-free r d quiet fresh = rw (fresh, save_new) (rw quiet refl)

-- `errors.Join` of an error and what the way back reports.
unfoldable pub join_errors : Error → Option Error → Error
join_errors e none = e
join_errors e (some x) = e ++ "\n" ++ x

-- The states between the writes of `Quarantine`: its manifest is written; a file is renamed.
abbrev pub after_manifest : Manifest → State → State
after_manifest r s = record { system = s.system; manifests = (save_new r s.manifests).1 }

abbrev pub after_rename : String → String → State → State
after_rename source target s = record {
  system = (rename source target s.system).1;
  manifests = s.manifests;
}

-- What `Quarantine` and `Restore` do in the same way: rename the file, verify it at its new path,
-- write the next manifest; where one of the last two fails, rename the file back.
unfoldable pub transfer :
    (String × String × String)
    → String
    → String
    → TargetSnapshot
    → Manifest
    → List String
    → State
    → Result Operation × State
unfolding join_errors
transfer (moving, checking, closing) source target expected finished checks s =
    let fs = (after_rename source target s).system in
    elim (rename source target s.system).0 [
      | some x ↦ (err (moving ++ x), record { system = fs; manifests = s.manifests })
      | none ↦
          let (back, undone) = rename target source fs in
          elim (verify_identity target expected fs) [
            | some x ↦ (
              err (join_errors (checking ++ x) back),
              record { system = undone; manifests = s.manifests },
            )
            | none ↦
                let (w, d) = Disk.save finished.id finished s.manifests in
                elim w [
                  | some x ↦ (
                    err (join_errors (closing ++ x) back),
                    record { system = undone; manifests = d },
                  )
                  | none ↦ (
                    ok (record { manifest = finished; checks = checks }),
                    record { system = fs; manifests = d },
                  )
                ]
          ]
    ]

abbrev pub quarantine_labels : String × String × String
quarantine_labels =
    ("atomic quarantine rename: ", "quarantine verification: ", "commit quarantine manifest: ")

abbrev pub quarantine_checks : List String
quarantine_checks =
    "source snapshot matched" ∷ "atomic rename completed"
    ∷ "destination inode/size/mtime/mode matched" ∷ []

-- `Quarantine`
unfoldable pub quarantine :
    Environment
    → QuarantineManager
    → Option Error
    → String
    → String
    → TargetSnapshot
    → ℕ
    → ℕ
    → State
    → Result Operation × State
quarantine env m (some e) task nonce expected now now' s = (err e, s)
quarantine env m none task nonce expected now now' s =
    elim (prepare env m task nonce expected now s.system) [
      | err e ↦ (err e, s)
      | ok r ↦
          let s' = after_manifest r s in
          elim (save_new r s.manifests).0 [
            | some x ↦ (err x, s')
            | none ↦
                transfer quarantine_labels r.original_path r.quarantined_path expected
                  (record r { status = committed; committed_at = now' }) quarantine_checks s'
          ]
    ]
