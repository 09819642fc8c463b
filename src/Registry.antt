-- ===== src/Registry.antt =====
-- internal/registry/manifest.go: the manifests of the servers, and the state that is kept of each.
use safeops_agent.Prelude.{
  Bool, Dict, Error, List, Result, String, [], any, decimal, err, not, ok, refuse_if, ℕ, ◌+◌, ◌==◌,
  ◌>>=◌, ◌>>◌, ◌||◌, ◌∷◌,
}
use Prim.Native.String.{◌++◌}
pub mod Health
pub mod States
pub mod Servers
pub mod Manage
pub mod Sound
pub mod Reached
pub mod Kept
pub mod Sequences
pub mod Tools

pub record ServerManifest : Type 0 where
  pub id : String
  pub name : String
  pub display_name : String
  pub version : String
  pub description : String
  pub transport : String
  pub command : String
  pub arguments : List String
  pub enabled : Bool
  pub health_check : String
  pub source : String
  pub capabilities : List String
  pub dependencies : List String
  pub environment : Dict String

pub data Status : Type 0 where
  disabled starting healthy unhealthy : Status

pub record ToolRecord : Type 0 where
  pub server_id : String
  pub name : String
  pub description : String
  pub input_schema : String
  pub schema_hash : String
  pub discovered_at : ℕ
  pub server_version : String

pub record DependencyState : Type 0 where
  pub name : String
  pub kind : String
  pub available : Bool
  pub resolved : String
  pub mode : String
  pub is_dir : Bool
  pub size_bytes : ℕ
  pub modified_at : ℕ
  pub error : String
  pub checked_at : ℕ

pub record HealthRecord : Type 0 where
  pub checked_at : ℕ
  pub status : Status
  pub error : String
  pub dependencies_healthy : Bool
  pub duration_millis : ℕ

pub record DiscoveryRecord : Type 0 where
  pub discovered_at : ℕ
  pub status : Status
  pub error : String
  pub server_name : String
  pub server_version : String
  pub protocol_version : String
  pub tool_set_hash : String
  pub tool_count : ℕ
  pub tools_changed : Bool
  pub dependencies_healthy : Bool
  pub duration_millis : ℕ

pub record ServerState : Type 0 where
  pub manifest : ServerManifest
  pub status : Status
  pub error : String
  pub actual_server_name : String
  pub actual_server_version : String
  pub protocol_version : String
  pub tools : List ToolRecord
  pub tool_set_hash : String
  pub previous_tool_set_hash : String
  pub tools_changed : Bool
  pub dependencies_checked : Bool
  pub dependencies_healthy : Bool
  pub dependency_checks : List DependencyState
  pub health_history : List HealthRecord
  pub discovery_history : List DiscoveryRecord
  pub last_checked : ℕ

-- `%q` of a text without special characters.
abbrev pub quoted : String → String
quoted s = "\"" ++ s ++ "\""

-- The checks of `Load` on one server, given its index and the IDs of the servers before it.
unfoldable pub check_server : ℕ → List String → ServerManifest → Result (Unit {0})
check_server i known m =
    refuse_if (m.id == "" || m.name == "") ("server " ++ decimal i ++ ": id and name are required")
    >> (refuse_if (any (λ s. s == m.id) known) ("duplicate server id " ++ quoted m.id)
        >> (refuse_if (not (m.transport == "stdio"))
              ("server " ++ m.id ++ ": unsupported transport " ++ quoted m.transport)
            >> refuse_if (m.command == "") ("server " ++ m.id ++ ": command required")))

unfoldable pub check_servers : ℕ → List String → List ServerManifest → Result (Unit {0})
check_servers i known [] = ok tt
check_servers i known (m ∷ ms) = check_server i known m >> check_servers (i + 1) (m.id ∷ known) ms

-- An error with a text before it.
labelled {ℓ} : {A : Type ℓ} → Error → Result A → Result A
labelled label (err e) = err (label ++ e)
labelled label (ok a) = ok a

-- `Load`, from what reading the file gives, with the YAML decoder as a parameter.
unfoldable pub load_config :
    (String → Result (List ServerManifest)) → Result String → Result (List ServerManifest)
unfolding labelled
load_config parse content = labelled "read registry config: " content >>= λ b.
    labelled "parse registry config: " (parse b) >>= λ servers.
    check_servers 0 [] servers >> ok servers
