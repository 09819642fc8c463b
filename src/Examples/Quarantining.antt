-- ===== src/Examples/Quarantining.antt =====
-- A file in the Lab, and its way into the quarantine and back.
use safeops_agent.Contracts.Hex.{hex_encode}
use safeops_agent.Contracts.Snapshot.{TargetSnapshot, int_eq, pos, snapshot_digest}
use safeops_agent.Disk.{Disk, save}
use safeops_agent.Prelude.{
  ==→eq, Bool-cases, Option, String, [], ap, clean, elements_within, erase, false, has_prefix, inl,
  inr, insert, is_abs, lookup, none, ok, path_elements, refl, some, starts_up, strip_elements, sym,
  true, within, ◌==◌, ◌∙◌, ◌∷◌, ◌≡◌,
}
use safeops_agent.Quarantine.Files.{FileInfo, lstat, rename, verify_identity, verify_same_identity}
use safeops_agent.Quarantine.Manager.{
  Environment, Manifest, Operation, QuarantineManager, State, committed, fail_on, is_quarantine_id,
  join_errors, object_id, prepare, prepared, quarantine, quarantine_checks, require_absent,
  save_new, transfer, within_any,
}
use safeops_agent.Quarantine.Quarantined.{Quarantined, quarantine-Quarantined}
use safeops_agent.Quarantine.Restore.{recover, restore}
use safeops_agent.Quarantine.Restored.{Restorable, Returned, restore-quarantine}
use safeops_agent.Quarantine.Rounds.{IsNamed, Keeps, recover-Keeps}
use safeops_agent.Disk

abbrev snapshot : TargetSnapshot
snapshot = record {
  kind = "file";
  id = "/lab/a";
  canonical_path = "/lab/a";
  expect_absent = false;
  parent_path = "";
  parent_inode = 0;
  size = pos 5;
  mtime_unix_nano = pos 7;
  mode = 420;
  inode = 11;
  pid = pos 0;
  start_ticks = 0;
  command_digest = "";
  executable = "";
  uid = pos 0;
  service_name = "";
  active_state = "";
  main_pid = pos 0;
}

abbrev info : FileInfo
info = record { regular = true; inode = 11; size = pos 5; mtime = pos 7; mode = 420 }

abbrev env : Environment
env = record {
  eval_symlinks = λ p. ok p;
  dir = λ p. "/lab";
  marshal_snapshot = λ t. ok "{}";
  sha256 = λ t. 1 ∷ 2 ∷ 3 ∷ 4 ∷ 5 ∷ 6 ∷ 7 ∷ 8 ∷ 9 ∷ 10 ∷ 11 ∷ 12 ∷ 13 ∷ [];
}

abbrev manager : QuarantineManager
manager = record { lab_roots = "/lab" ∷ []; objects_dir = "/q/objects" }

abbrev state : State
state = record {
  system = record { files = ("/lab/a", some info) ∷ []; faults = [] };
  manifests = record { files = []; faults = [] };
}

abbrev object : String
object = "/q/objects/q_0102030405060708090a0b0c"

abbrev manifest : Manifest
manifest = record {
  id = "q_0102030405060708090a0b0c";
  task_id = "t1";
  original_path = "/lab/a";
  quarantined_path = object;
  original_snapshot = snapshot;
  status = committed;
  created_at = 10;
  committed_at = 20;
  restored_at = 0;
}

abbrev operation : Operation
operation = record { manifest = manifest; checks = quarantine_checks }

abbrev taken_state : State
taken_state = record {
  system = record { files = (object, some info) ∷ []; faults = [] };
  manifests = record { files = ("q_0102030405060708090a0b0c", some manifest) ∷ []; faults = [] };
}

taken_file :
    quarantine env manager none "t1" "n1" snapshot 10 20 state ≡ (ok operation, taken_state)
unfolding quarantine prepare fail_on require_absent lstat snapshot_digest object_id hex_encode
    Disk.save erase insert starts_up strip_elements has_prefix rename join_errors save_new transfer
    verify_identity verify_same_identity int_eq lookup within_any within is_abs elements_within
    path_elements ◌==◌
taken_file = refl

abbrev again : TargetSnapshot
again = record snapshot { canonical_path = object }

can_restore : Restorable env manager manifest again taken_state
unfolding is_quarantine_id clean starts_up strip_elements has_prefix verify_identity
    verify_same_identity int_eq lookup within_any within is_abs elements_within path_elements ◌==◌
can_restore = record {
  named = refl;
  is_file = refl;
  at_object = refl;
  same_file = refl;
  parent = "/lab";
  parent_found = refl;
  parent_within = refl;
  calm = refl;
  quiet = refl;
}

restore-quarantine_example :
    Returned manifest 30 state
      (restore env manager none manifest.id again 30 taken_state).0
      (restore env manager none manifest.id again 30 taken_state).1
restore-quarantine_example =
    restore-quarantine env manager none "t1" "n1" snapshot again 10 20 30 state taken_state
      operation taken_file can_restore

quarantine-Quarantined_example :
    Quarantined env manager snapshot state
      (quarantine env manager none "t1" "n1" snapshot 10 20 state).0
      (quarantine env manager none "t1" "n1" snapshot 10 20 state).1
quarantine-Quarantined_example =
    quarantine-Quarantined env manager none "t1" "n1" snapshot 10 20 state

-- The file is moved, and the manifest still says that it is to be moved.
abbrev open_manifest : Manifest
open_manifest = record manifest { status = prepared; committed_at = 0 }

abbrev cut_state : State
cut_state = record {
  system = taken_state.system;
  manifests = record { files = (manifest.id, some open_manifest) ∷ []; faults = [] };
}

value_eq :
    {a b : Manifest} → ◌≡◌ {A = Option (Option Manifest)} (some (some a)) (some (some b)) → a ≡ b
value_eq h = cc

no_entry : {v : Option Manifest} → ◌≡◌ {A = Option (Option Manifest)} none (some v) → ⊥
no_entry h = cc

cut_IsNamed : IsNamed cut_state.manifests
cut_IsNamed k r h = elim (Bool-cases (manifest.id == k)) [
  | inl hit ↦
      let found : lookup k cut_state.manifests.files ≡ some (some open_manifest) =
        unfold lookup in rw hit refl in
      ap (λ (q : Manifest). q.id) (sym (value_eq (sym found ∙ h))) ∙ ==→eq manifest.id k hit
  | inr miss ↦
      let gone : lookup k cut_state.manifests.files ≡ none = unfold lookup in rw miss refl in
      absurd (no_entry (sym gone ∙ h))
]

recover-Keeps_example : Keeps cut_state (recover ((manifest.id, none, 40) ∷ []) [] cut_state).1
recover-Keeps_example = recover-Keeps ((manifest.id, none, 40) ∷ []) [] cut_state cut_IsNamed
