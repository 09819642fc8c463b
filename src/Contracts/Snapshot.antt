-- ===== src/Contracts/Snapshot.antt =====
-- contracts/envelope.go: the snapshot of a target. The code only compares and encodes the numbers
-- of a snapshot.
use safeops_agent.Prelude.{ℕ, String, Bool, false, eqb, Result, ok, err}

pub data ℤ : Type 0 where
  pos : ℕ → ℤ
  negsuc : ℕ → ℤ

unfoldable pub int_eq : ℤ → ℤ → Bool
int_eq (pos a) (pos b) = eqb a b
int_eq (negsuc a) (negsuc b) = eqb a b
int_eq _ _ = false

pub record TargetSnapshot : Type 0 where
  pub kind : String
  pub id : String
  pub canonical_path : String
  pub expect_absent : Bool
  pub parent_path : String
  pub parent_inode : ℕ
  pub size : ℤ
  pub mtime_unix_nano : ℤ
  pub mode : ℕ
  pub inode : ℕ
  pub pid : ℤ
  pub start_ticks : ℕ
  pub command_digest : String
  pub executable : String
  pub uid : ℤ
  pub service_name : String
  pub active_state : String
  pub main_pid : ℤ

-- `Digest`, with the same parameters as a proposal's.
unfoldable pub snapshot_digest :
    (TargetSnapshot → Result String) → (String → String) → TargetSnapshot → Result String
snapshot_digest marshal sha256_hex s = elim (marshal s) [ ok b ↦ ok (sha256_hex b) | err e ↦ err e ]
