-- ===== src/Quarantine/Kept.antt =====
-- internal/rollback/quarantine.go: what a transfer does with the files.
use safeops_agent.Contracts.Snapshot.{TargetSnapshot}
use safeops_agent.Disk.{Disk, load-save_self, save, save-free}
use safeops_agent.Prelude.{
  ==-refl, ==→eq, Dict, Error, List, Option, Option-cases, Result, String, [], ap, arith, erase,
  err, if◌then◌else◌, inl, inr, insert, lookup, lookup-erase, lookup-insert, lookup-insert_self,
  none, ok, refl, some, true, ◌==◌, ◌∙◌, ◌≡◌, ◌⊎◌,
}
use safeops_agent.Quarantine.Files.{
  FileInfo, FileSystem, found-verify_identity, rename, rename-cases, rename-free, verify_identity,
  verify_same_identity,
}
use safeops_agent.Quarantine.Manager.{Manifest, Operation, State, join_errors, transfer}
use safeops_agent.Storage.Recovery.{calm}
use safeops_agent.Disk
use Prim.Native.String.{◌++◌}

abbrev pub Paths : Type 0
Paths = Dict (Option FileInfo)

-- Every path holds what it held.
abbrev pub Unchanged : Paths → Paths → Type 0
Unchanged before after = (j : String) → lookup j after ≡ lookup j before

-- What stood at the source stands at the target, and nothing at the source; every other path holds
-- what it held.
abbrev pub Moved : String → String → Paths → Paths → Type 0
Moved source target before after =
    (j : String)
    → lookup j after ≡ (
        if target == j then lookup source before else if source == j then none else lookup j before)

renamed-Moved :
    (source target : String) (i : Option FileInfo) (before after : Paths)
    → lookup source before ≡ some i
    → after ≡ insert target i (erase source before)
    → Moved source target before after
renamed-Moved source target i before after found now j =
    ap (lookup j) now ∙ rw (lookup-insert, lookup-erase, found)

pub Moved-back :
    (source target : String) (before after undone : Paths)
    → lookup target before ≡ none
    → Moved source target before after
    → Moved target source after undone
    → Unchanged before undone
Moved-back source target before after undone vacant there back j =
    let hit : lookup target after ≡ lookup source before = there target ∙ rw (==-refl target) in
    let a = back j in
    let b = there j in ground (arith, ==→eq source j, ==→eq target j, a, b, hit, vacant)

-- What a transfer comes to: the file is moved, verified and recorded; or there is an error, and
-- the files are as they were, or only the way back failed and the file stands at the target.
pub data Transferred (source target : String) (expected : TargetSnapshot) (finished : Manifest)
    (before : State) (result : Result Operation) (after : State) : Type 0 where
  moved :
      (op : Operation)
      → result ≡ ok op
      → op.manifest ≡ finished
      → Moved source target before.system.files after.system.files
      → verify_identity target expected after.system ≡ none
      → Disk.load finished.id after.manifests ≡ ok finished
      → Transferred source target expected finished before result after
  undone :
      (e : Error)
      → result ≡ err e
      → Unchanged before.system.files after.system.files
      → Transferred source target expected finished before result after
  stuck :
      (e : Error)
      → result ≡ err e
      → Moved source target before.system.files after.system.files
      → Transferred source target expected finished before result after

-- After a rename that moved the file, the way back undoes it, or reports an error and changes
-- nothing.
undo_cases :
    (source target : String) (before : Paths) (now : FileSystem)
    → lookup target before ≡ none
    → Moved source target before now.files
    → Unchanged before (rename target source now).1.files
      ⊎ Moved source target before (rename target source now).1.files
undo_cases source target before now vacant there = elim (rename-cases target source now) [
  | inl (_, kept) ↦ inr (λ j. ap (lookup j) kept ∙ there j)
  | inr (i, found, _, after) ↦ inl (
      Moved-back source target before now.files _ vacant there
        (renamed-Moved target source i now.files _ found after))
]

pub transfer-Transferred :
    (labels : String × String × String) (source target : String) (expected : TargetSnapshot)
    (finished : Manifest) (checks : List String) (s : State)
    → lookup target s.system.files ≡ none
    → Transferred source target expected finished s
        (transfer labels source target expected finished checks s).0
        (transfer labels source target expected finished checks s).1
transfer-Transferred labels source target expected finished checks s vacant =
    let fs = (rename source target s.system).1 in
    elim (rename-cases source target s.system) [
      | inl (bad, kept) ↦ elim (Option-cases (rename source target s.system).0) [
        | inl fine ↦ absurd (bad fine)
        | inr (x, failed) ↦
            undone (labels.0 ++ x) (unfold transfer in rw (failed, transfer))
              (λ j. unfold transfer in rw (failed, transfer) (ap (lookup j) kept))
      ]
      | inr (i, found, fine, now) ↦
          let there = renamed-Moved source target i s.system.files fs.files found now in
          let back_error = (rename target source fs).0 in
          let back = undo_cases source target s.system.files fs vacant there in
          elim (Option-cases (verify_identity target expected fs)) [
            | inr (x, changed) ↦ elim back [
              | inl same ↦
                  undone (join_errors (labels.1 ++ x) back_error)
                    (unfold transfer in rw (fine, transfer) (rw changed))
                    (λ j. unfold transfer in rw (fine, transfer) (rw changed (same j)))
              | inr gone ↦
                  stuck (join_errors (labels.1 ++ x) back_error)
                    (unfold transfer in rw (fine, transfer) (rw changed))
                    (λ j. unfold transfer in rw (fine, transfer) (rw changed (gone j)))
            ]
            | inl alike ↦ elim (Option-cases (Disk.save finished.id finished s.manifests).0) [
              | inr (x, unsaved) ↦ elim back [
                | inl same ↦
                    undone (join_errors (labels.2 ++ x) back_error)
                      (unfold transfer in rw (fine, transfer) (rw alike (rw unsaved)))
                      (λ j. unfold transfer in rw (fine, transfer) (rw alike (rw unsaved (same j))))
                | inr gone ↦
                    stuck (join_errors (labels.2 ++ x) back_error)
                      (unfold transfer in rw (fine, transfer) (rw alike (rw unsaved)))
                      (λ j. unfold transfer in rw (fine, transfer) (rw alike (rw unsaved (gone j))))
              ]
              | inl saved ↦
                  moved (record { manifest = finished; checks = checks })
                    (unfold transfer in rw (fine, transfer) (rw alike (rw saved))) refl
                    (λ j. unfold transfer in rw (fine, transfer) (rw alike (rw saved (there j))))
                    (unfold transfer in rw (fine, transfer) (rw alike (rw saved alike)))
                    (unfold transfer in
                      rw (fine, transfer)
                        (rw alike
                          (rw saved (load-save_self finished.id finished s.manifests saved))))
            ]
          ]
    ]

-- A transfer of a file that is as expected, where nothing goes wrong, succeeds.
pub transfer-free :
    (labels : String × String × String) (source target : String) (expected : TargetSnapshot)
    (finished : Manifest) (checks : List String) (s : State) (i : FileInfo)
    → s.system.faults ≡ []
    → s.manifests.faults ≡ []
    → lookup source s.system.files ≡ some (some i)
    → i.regular ≡ true
    → verify_same_identity i expected ≡ none
    → (transfer labels source target expected finished checks s).0
      ≡ ok (record { manifest = finished; checks = checks })
transfer-free labels source target expected finished checks s i calm quiet found plain alike =
    let fs : FileSystem = record {
      files = insert target (some i) (erase source s.system.files);
      faults = [];
    } in
    let step = rename-free source target (some i) s.system calm found in
    let there : verify_identity target expected (rename source target s.system).1 ≡ none =
      ap (λ (q : Option Error × FileSystem). verify_identity target expected q.1) step
      ∙ found-verify_identity target expected fs i (lookup-insert_self target (some i) _) plain
          alike in
    let saved : (Disk.save finished.id finished s.manifests).0 ≡ none =
      ap (λ q. q.0) (save-free finished.id finished s.manifests quiet) in
    unfold transfer in rw (ap (λ q. q.0) step, transfer) (rw there (rw saved))
