-- ===== src/Quarantine/Recovered.antt =====
-- internal/rollback/quarantine.go: `Recover` after a quarantine that was cut short.
use safeops_agent.Contracts.Snapshot.{TargetSnapshot}
use safeops_agent.Disk.{Disk, remove}
use safeops_agent.Prelude.{ok, String, [], lookup, none, true, ℕ, ◌≡◌}
use safeops_agent.Quarantine.Manager.{
  prepare, QuarantineManager, Environment, Manifest, State, is_quarantine_id,
}
use safeops_agent.Disk

-- The same file system, and the same manifests under the same names.
pub record IsRolledBack (before after : State) : Type 0 where
  pub same_system : after.system ≡ before.system
  pub same_manifests :
      (k : String) → lookup k after.manifests.files ≡ lookup k before.manifests.files

-- What a quarantine begins with: the manifest that it is about to write, under a free name and of
-- the form of an ID, and a system that reports no error.
pub record Starts (env : Environment) (m : QuarantineManager) (task nonce : String)
    (expected : TargetSnapshot) (now : ℕ) (s : State) (r : Manifest) : Type 0 where
  pub prepares : prepare env m task nonce expected now s.system ≡ ok r
  pub fresh : lookup r.id s.manifests.files ≡ none
  pub named : is_quarantine_id r.id ≡ true
  pub calm : s.system.faults ≡ []
  pub quiet : s.manifests.faults ≡ []
