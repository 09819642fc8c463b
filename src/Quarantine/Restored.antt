-- ===== src/Quarantine/Restored.antt =====
-- internal/rollback/quarantine.go: a file taken into the quarantine comes back.
use safeops_agent.Contracts.Snapshot.{TargetSnapshot, int_eq, negsuc, pos, ℤ}
use safeops_agent.Disk.{Disk}
use safeops_agent.Guard.Intent.{undecided}
use safeops_agent.Prelude.{
  ==-refl, ==→eq, Error, Option, Result, String, [], ap, arith, clean, eq→==, false, lookup, none,
  ok, refl, some, subst, sym, true, ℕ, ◌==◌, ◌∙◌, ◌≡◌,
}
use safeops_agent.Quarantine.Files.{
  FileInfo, found-verify_identity, lstat-absent, verify_identity, verify_identity-found,
  verify_same_identity,
}
use safeops_agent.Quarantine.Kept.{
  Moved, Moved-back, Paths, Unchanged, moved, stuck, transfer-Transferred, transfer-free, undone,
}
use safeops_agent.Quarantine.Manager.{
  Environment, Manifest, Operation, QuarantineManager, QuarantineStatus, State, committed, fail_on,
  is_quarantine_id, is_status, quarantine, require_absent, restored, status_text, transfer,
  within_any,
}
use safeops_agent.Quarantine.Quarantined.{
  Quarantined, Taken, held, no_result, ok_injective, quarantine-Quarantined, refused, taken,
}
use safeops_agent.Quarantine.Restore.{
  can_restore, identity, load, parent_allowed, restore, restore_checks, restore_labels,
  restore_manifest,
}
use safeops_agent.Disk

int_eq→eq : (a b : ℤ) → int_eq a b ≡ true → a ≡ b
unfolding int_eq
int_eq→eq (pos a) (pos b) h = ap pos (ground arith)
int_eq→eq (negsuc a) (negsuc b) h = ap negsuc (ground arith)
int_eq→eq (pos a) (negsuc b) h = absurd (ground arith)
int_eq→eq (negsuc a) (pos b) h = absurd (ground arith)

int_eq_refl : (a : ℤ) → int_eq a a ≡ true
unfolding int_eq
int_eq_refl (pos a) = ground arith
int_eq_refl (negsuc a) = ground arith

int_eq-join : (a b c : ℤ) → int_eq a c ≡ true → int_eq b c ≡ true → int_eq a b ≡ true
int_eq-join a b c h k =
    subst (λ x. int_eq a x ≡ true) (int_eq→eq a c h ∙ sym (int_eq→eq b c k)) (int_eq_refl a)

-- Two files alike to a snapshot are alike to each other.
verify_same_identity-join :
    (i : FileInfo) (again expected : TargetSnapshot)
    → verify_same_identity i expected ≡ none
    → verify_same_identity (identity again) expected ≡ none
    → verify_same_identity i again ≡ none
unfolding verify_same_identity
verify_same_identity-join i again expected h k = ground (
  arith,
  int_eq-join i.size again.size expected.size,
  int_eq-join i.mtime again.mtime_unix_nano expected.mtime_unix_nano,
  h,
  k,
)

-- A file that is moved leaves its path.
Moved-source :
    (source target : String) (i : Option FileInfo) (before after : Paths)
    → lookup source before ≡ some i
    → lookup target before ≡ none
    → Moved source target before after
    → lookup source after ≡ none
Moved-source source target i before after found vacant there =
    let at = there source in ground (arith, ==→eq target source, ==-refl source, at, found, vacant)

-- What a request to restore has to bring: the snapshot of the object, and a parent directory that
-- is within a Lab root.
pub record Restorable (env : Environment) (m : QuarantineManager) (r : Manifest)
    (again : TargetSnapshot) (s : State) : Type 0 where
  pub named : is_quarantine_id r.id ≡ true
  pub is_file : again.kind ≡ "file"
  pub at_object : clean again.canonical_path ≡ r.quarantined_path
  pub same_file : verify_same_identity (identity again) r.original_snapshot ≡ none
  pub parent : String
  pub parent_found : env.eval_symlinks (env.dir r.original_path) ≡ ok parent
  pub parent_within : within_any parent m.lab_roots ≡ true
  pub calm : s.system.faults ≡ []
  pub quiet : s.manifests.faults ≡ []

can_restore-ok :
    (env : Environment) (m : QuarantineManager) (r : Manifest) (again : TargetSnapshot) (s : State)
    → Restorable env m r again s
    → verify_identity r.quarantined_path again s.system ≡ none
    → lookup r.original_path s.system.files ≡ none
    → can_restore env m r again s.system ≡ ok tt
unfolding can_restore fail_on require_absent parent_allowed
can_restore-ok env m r again s can alike vacant =
    rw
      (
        eq→== again.kind "file" can.is_file,
        eq→== (clean again.canonical_path) r.quarantined_path can.at_object,
        alike,
      )
      (rw (can.same_file, can.parent_found, can.parent_within)
        (unfold require_absent in
          rw (lstat-absent r.original_path s.system vacant, require_absent) refl))

abbrev pub as_restored : ℕ → Manifest → Manifest
as_restored now r = record r { status = restored; restored_at = now }

committed_tests :
    (q : QuarantineStatus)
    → q ≡ committed
    → (is_status q restored ≡ false) × (is_status q committed ≡ true)
unfolding is_status status_text ◌==◌
committed_tests q h =
    subst
      (λ (p : QuarantineStatus). (is_status p restored ≡ false) × (is_status p committed ≡ true))
      (sym h) (refl, refl)

restore-free :
    (env : Environment) (m : QuarantineManager) (r : Manifest) (again : TargetSnapshot) (now : ℕ)
    (s : State) (i : FileInfo)
    → Restorable env m r again s
    → Disk.load r.id s.manifests ≡ ok r
    → r.status ≡ committed
    → lookup r.quarantined_path s.system.files ≡ some (some i)
    → i.regular ≡ true
    → verify_same_identity i r.original_snapshot ≡ none
    → lookup r.original_path s.system.files ≡ none
    → (restore env m none r.id again now s)
      ≡ transfer restore_labels r.quarantined_path r.original_path r.original_snapshot
          (as_restored now r)
          restore_checks
          s
unfolding restore load
restore-free env m r again now s i can noted status found plain alike vacant =
    let object =
      found-verify_identity r.quarantined_path again s.system i found plain
        (verify_same_identity-join i again r.original_snapshot alike can.same_file) in
    let allowed = can_restore-ok env m r again s can object vacant in
    let (undecided, whole) = committed_tests r.status status in
    rw (can.named, restore)
      (rw noted (
        unfold restore_manifest in
        rw (undecided, whole, restore_manifest) (rw (allowed, restore_manifest) refl)))

-- What the restore of a manifest comes to: it succeeds, every path holds what it held before the
-- quarantine, and the manifest is recorded as restored.
pub record Returned (r : Manifest) (now : ℕ) (before : State) (result : Result Operation)
    (after : State) : Type 0 where
  pub succeeds : result ≡ ok (record { manifest = as_restored now r; checks = restore_checks })
  pub as_before : Unchanged before.system.files after.system.files
  pub noted : Disk.load r.id after.manifests ≡ ok (as_restored now r)

Taken-Returned :
    (env : Environment) (m : QuarantineManager) (expected again : TargetSnapshot) (now : ℕ)
    (before : State) (r : Manifest) (s : State)
    → Taken env m expected before r s
    → Restorable env m r again s
    → Returned r now before
        (restore env m none r.id again now s).0
        (restore env m none r.id again now s).1
Taken-Returned env m expected again now before r s t can =
    let snapshot = t.admitted.snapshot in
    let (i, found, plain, alike) =
      verify_identity-found r.quarantined_path expected s.system t.alike in
    let (j, stood, _, _) =
      verify_identity-found r.original_path expected before.system t.admitted.alike in
    let alike' =
      subst (λ (x : TargetSnapshot). verify_same_identity i x ≡ none) (sym snapshot) alike in
    let vacant =
      Moved-source r.original_path r.quarantined_path _ _ _ stood t.admitted.vacant t.there in
    let step = restore-free env m r again now s i can t.noted t.status found plain alike' vacant in
    let fine =
      transfer-free restore_labels r.quarantined_path r.original_path r.original_snapshot
        (as_restored now r) restore_checks s i can.calm can.quiet found plain alike' in
    elim (transfer-Transferred restore_labels r.quarantined_path r.original_path r.original_snapshot
      (as_restored now r) restore_checks s vacant) [
        | undone e bad same ↦ absurd (no_result (sym bad ∙ fine))
        | stuck e bad there ↦ absurd (no_result (sym bad ∙ fine))
        | moved op good is back _ noted ↦
            subst (λ (q : Result Operation × State). Returned r now before q.0 q.1) (sym step)
              (record {
                succeeds = fine;
                as_before =
                    Moved-back r.original_path r.quarantined_path _ _ _ t.admitted.vacant t.there
                      back;
                noted = noted;
              })
      ]

-- A file that `Quarantine` has taken is given back by `Restore`, where the snapshot is that of the
-- object, the parent directory is within a Lab root and the system reports no error: the call
-- succeeds, every path holds what it held before the quarantine, and the manifest is recorded as
-- restored.
pub restore-quarantine :
    (env : Environment) (m : QuarantineManager) (ctx : Option Error) (task nonce : String)
    (expected again : TargetSnapshot) (now now' now'' : ℕ) (before after : State) (op : Operation)
    → quarantine env m ctx task nonce expected now now' before ≡ (ok op, after)
    → Restorable env m op.manifest again after
    → Returned op.manifest now'' before
        (restore env m none op.manifest.id again now'' after).0
        (restore env m none op.manifest.id again now'' after).1
restore-quarantine env m ctx task nonce expected again now now' now'' before after op h can =
    elim (subst (λ (q : Result Operation × State). Quarantined env m expected before q.0 q.1) h
      (quarantine-Quarantined env m ctx task nonce expected now now' before)) [
        | taken p good facts ↦
            let one : p ≡ op = sym (ok_injective good) in
            Taken-Returned env m expected again now'' before op.manifest after
              (subst (λ (q : Operation). Taken env m expected before q.manifest after) one facts)
              can
        | refused e bad _ ↦ absurd (no_result (sym bad))
        | held e r bad _ _ ↦ absurd (no_result (sym bad))
      ]
