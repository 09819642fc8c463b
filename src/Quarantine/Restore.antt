-- ===== src/Quarantine/Restore.antt =====
-- internal/rollback/quarantine.go: what works on a manifest that is there.
use safeops_agent.Contracts.Snapshot.{TargetSnapshot}
use safeops_agent.Disk.{Disk, remove}
use safeops_agent.Prelude.{
  Error, List, Option, Result, String, [], clean, err, if◌then◌else◌, none, not, ok, refuse_if,
  some, true, ℕ, ◌==◌, ◌>>◌, ◌||◌, ◌∷◌,
}
use safeops_agent.Quarantine.Files.{
  FileInfo, FileSystem, absent, lstat, present, unknown, verify_identity, verify_same_identity,
}
use safeops_agent.Quarantine.Manager.{
  Environment, Manifest, Operation, QuarantineManager, State, committed, fail_on, is_quarantine_id,
  is_status, prepared, require_absent, restored, status_text, transfer, within_any,
}
use Prim.Native.String.{◌++◌}
use mathlib.Core.List.{◌++◌ as append}
use safeops_agent.Disk

-- `load`
unfoldable pub load : String → Disk Manifest → Result Manifest
load id d = if is_quarantine_id id then Disk.load id d else err "invalid quarantine ID"

-- `Get`
unfoldable pub get : String → State → Result Manifest
get id s = load id s.manifests

-- What `verifySameIdentity` reads of a snapshot.
abbrev pub identity : TargetSnapshot → FileInfo
identity t = record {
  regular = true;
  inode = t.inode;
  size = t.size;
  mtime = t.mtime_unix_nano;
  mode = t.mode;
}

unfoldable pub parent_allowed : Result String → List String → Result (Unit {0})
parent_allowed (err e) roots = err "original parent is unavailable or outside Lab roots"
parent_allowed (ok parent) roots =
    refuse_if (not (within_any parent roots)) "original parent is unavailable or outside Lab roots"

-- `Restore` where the manifest is committed, before it changes anything.
unfoldable pub can_restore :
    Environment → QuarantineManager → Manifest → TargetSnapshot → FileSystem → Result (Unit {0})
unfolding parent_allowed
can_restore env m r expected fs =
    refuse_if
      (not (expected.kind == "file") || not (clean expected.canonical_path == r.quarantined_path))
      "restore target does not match quarantine manifest"
    >> (fail_on "TARGET_CHANGED: " (verify_identity r.quarantined_path expected fs)
        >> (fail_on "quarantined object differs from original manifest: "
              (verify_same_identity (identity expected) r.original_snapshot)
            >> (parent_allowed (env.eval_symlinks (env.dir r.original_path)) m.lab_roots
                >> require_absent r.original_path "original path is already occupied" fs)))

abbrev pub restore_labels : String × String × String
restore_labels = ("atomic restore rename: ", "restore verification: ", "commit restore manifest: ")

abbrev pub restore_checks : List String
restore_checks =
    "quarantine snapshot matched" ∷ "original path was vacant" ∷ "atomic restore completed"
    ∷ "restored inode/size/mtime/mode matched" ∷ []

unfoldable pub restore_manifest :
    Environment
    → QuarantineManager
    → Manifest
    → TargetSnapshot
    → ℕ
    → State
    → Result Operation × State
restore_manifest env m r expected now s =
    if is_status r.status restored
    then (ok (record { manifest = r; checks = "restore already committed" ∷ [] }), s)
    else if not (is_status r.status committed)
    then (err ("quarantine is " ++ status_text r.status), s)
    else elim (can_restore env m r expected s.system) [
      | err e ↦ (err e, s)
      | ok _ ↦
          transfer restore_labels r.quarantined_path r.original_path r.original_snapshot
            (record r { status = restored; restored_at = now }) restore_checks s
    ]

-- `Restore`
unfoldable pub restore :
    Environment
    → QuarantineManager
    → Option Error
    → String
    → TargetSnapshot
    → ℕ
    → State
    → Result Operation × State
restore env m (some e) id expected now s = (err e, s)
restore env m none id expected now s = elim (load id s.manifests) [
  | err e ↦ (err e, s)
  | ok r ↦ restore_manifest env m r expected now s
]

-- The body of the loop of `Recover` for a manifest that is read; `none` is no error.
unfoldable pub reconcile : ℕ → Manifest → State → Option Error × State
reconcile now r s =
    if not (is_status r.status prepared) then (none, s) else elim (lstat r.original_path s.system) [
      | present ↦ elim (lstat r.quarantined_path s.system) [
        | absent ↦ let (e, d) = Disk.remove r.id s.manifests in (e, record s { manifests = d })
        | _ ↦ (some ("cannot reconcile prepared quarantine " ++ r.id), s)
      ]
      | absent ↦ elim (lstat r.quarantined_path s.system) [
        | present ↦ elim (verify_identity r.quarantined_path r.original_snapshot s.system) [
          | some x ↦ (some x, s)
          | none ↦
              let (e, d) =
                Disk.save r.id (record r { status = committed; committed_at = now }) s.manifests in
              (e, record s { manifests = d })
        ]
        | _ ↦ (some ("cannot reconcile prepared quarantine " ++ r.id), s)
      ]
      | unknown ↦ (some ("cannot reconcile prepared quarantine " ++ r.id), s)
    ]

unfoldable pub recover_one : ℕ → String → State → Option Error × State
recover_one now id s = elim (load id s.manifests) [ err e ↦ (some e, s) | ok r ↦ reconcile now r s ]

-- `Recover`: over the names of the manifests, each with the error of the context and the reading of
-- the clock; it returns the errors that it joins.
unfoldable pub recover : List (String × Option Error × ℕ) → List Error → State → List Error × State
recover [] errors s = (errors, s)
recover ((id, some e, now) ∷ names) errors s = (e ∷ [], s)
recover ((id, none, now) ∷ names) errors s =
    let (e, s') = recover_one now id s in
    recover names (elim e [ none ↦ errors | some x ↦ append errors (x ∷ []) ]) s'
