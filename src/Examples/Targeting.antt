-- ===== src/Examples/Targeting.antt =====
-- A file in an allowed root that is as its snapshot says.
use safeops_agent.Contracts.Snapshot.{TargetSnapshot, pos}
use safeops_agent.Executor.Targeted.{IsCurrent, revalidate-IsCurrent}
use safeops_agent.Executor.Targets.{
  Stat, Surroundings, digest_text, revalidate, seen, snapshot_again, snapshot_file, stat_of,
  within_roots,
}
use safeops_agent.Prelude.{
  Result, String, [], clean, elements_within, err, false, has_prefix, is_abs, none, ok,
  path_elements, refl, starts_up, strip_elements, within, ◌==◌, ◌∷◌, ◌≡◌,
}
use Prim.Native.String.{◌++◌}

abbrev stat : Stat
stat = record { is_dir = false; size = pos 5; mtime = pos 7; mode = 420; inode = 11 }

abbrev surroundings : Surroundings
surroundings = record {
  process_identity = λ p. err "no such process";
  service_status = λ u. err "no such unit";
  eval_symlinks = λ p. ok p;
  dir = λ p. "/lab";
  base = λ p. "a";
  look = λ p. seen stat;
}

abbrev target : TargetSnapshot
target = record {
  kind = "file";
  id = "f1";
  canonical_path = "/lab/a";
  expect_absent = false;
  parent_path = "";
  parent_inode = 0;
  size = pos 5;
  mtime_unix_nano = pos 7;
  mode = 420;
  inode = 11;
  pid = pos 0;
  start_ticks = 0;
  command_digest = "";
  executable = "";
  uid = pos 0;
  service_name = "";
  active_state = "";
  main_pid = pos 0;
}

abbrev digest : TargetSnapshot → Result String
digest t = ok (t.id ++ t.canonical_path)

revalidated : revalidate digest surroundings ("/lab" ∷ []) target ≡ none
unfolding revalidate digest_text snapshot_again snapshot_file stat_of within_roots within clean
    is_abs elements_within path_elements starts_up strip_elements has_prefix ◌==◌
revalidated = refl

revalidate-IsCurrent_example : IsCurrent digest surroundings ("/lab" ∷ []) target
revalidate-IsCurrent_example =
    revalidate-IsCurrent digest surroundings ("/lab" ∷ []) target revalidated
