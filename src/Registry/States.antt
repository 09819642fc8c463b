-- ===== src/Registry/States.antt =====
-- internal/registry/registry.go: the registry, and what the operations do to the state of one server.
-- A session is known by a number; a client is kept and dropped with its session, so that one map
-- stands for both.
use safeops_agent.Prelude.{
  Bool, Dict, Error, List, Option, Result, String, [], false, insert, length, lookup, none, not,
  some, true, ℕ, ◌&&◌, ◌==◌, ◌∷◌,
}
use safeops_agent.Registry.{
  DependencyState, HealthRecord, ServerManifest, ServerState, ToolRecord, disabled, healthy,
  unhealthy,
}
use safeops_agent.Registry.Health.{Host, append_bounded, bounded_detail, dependency_failure, is_nil}

pub record Registry : Type 0 where
  pub manifests : Dict ServerManifest
  pub states : Dict ServerState
  pub sessions : Dict ℕ

-- A tool as an MCP server lists it.
pub record Tool : Type 0 where
  pub name : String
  pub description : String
  pub encoded : Result String
  pub input_schema : Result String

-- The functions of the Go library and of the MCP client library: what the JSON encoder makes of the
-- names, hashes and versions of a set of tools, and SHA-256 in hexadecimal digits.
pub record Environment : Type 0 where
  pub machine : Host
  pub marshal_tool_set : List (String × String × String) → Result String
  pub sha256_hex : String → String

-- What the clock, the context and the server answer during one call. `info` is the server's name,
-- its version and the version of the protocol; `none` stands for a missing one.
pub record Answer : Type 0 where
  pub connected : Result ℕ
  pub info : Option (String × String × String)
  pub tools : List (Result Tool)
  pub ping : Option Error
  pub is_cancelled : Bool
  pub closing : Option Error
  pub now : ℕ
  pub later : ℕ
  pub lasted : ℕ
  pub lasted' : ℕ

unfoldable pub blank_state : ServerManifest → ServerState
blank_state m = record {
  manifest = m;
  status = disabled;
  error = "";
  actual_server_name = "";
  actual_server_version = "";
  protocol_version = "";
  tools = [];
  tool_set_hash = "";
  previous_tool_set_hash = "";
  tools_changed = false;
  dependencies_checked = false;
  dependencies_healthy = false;
  dependency_checks = [];
  health_history = [];
  discovery_history = [];
  last_checked = 0;
}

unfoldable pub add_server : ServerManifest → Registry → Registry
add_server m r = record r {
  manifests = insert m.id m r.manifests;
  states = insert m.id (blank_state m) r.states;
}

unfoldable pub add_servers : List ServerManifest → Registry → Registry
add_servers [] r = r
add_servers (m ∷ ms) r = add_servers ms (add_server m r)

-- `New`
unfoldable pub new : List ServerManifest → Registry
unfolding add_servers add_server blank_state
new servers = add_servers servers (record { manifests = []; states = []; sessions = [] })

failed_health : Environment → List DependencyState → Error → Answer → HealthRecord
failed_health env checks e a = record {
  checked_at = a.later;
  status = unhealthy;
  error = bounded_detail env.machine e;
  dependencies_healthy = is_nil (dependency_failure checks);
  duration_millis = a.lasted;
}

-- What `recordHealthFailure` does to a state.
unfoldable pub health_failed :
    Environment → List DependencyState → Error → Answer → ServerState → ServerState
unfolding failed_health
health_failed env checks e a s = record s {
  status = unhealthy;
  error = bounded_detail env.machine e;
  dependencies_checked = true;
  dependencies_healthy = is_nil (dependency_failure checks);
  dependency_checks = checks;
  last_checked = a.later;
  health_history = append_bounded s.health_history (failed_health env checks e a);
}

-- What `recordDiscoveryFailure` does to a state.
unfoldable pub discovery_failed :
    Environment
    → List DependencyState
    → String × String × String
    → Error
    → Answer
    → ServerState
    → ServerState
discovery_failed env checks (name, version, protocol) e a s =
    let t = health_failed env checks e a s in
    record t {
      discovery_history = append_bounded s.discovery_history (record {
        discovered_at = a.later;
        status = unhealthy;
        error = bounded_detail env.machine e;
        server_name = name;
        server_version = version;
        protocol_version = protocol;
        tool_set_hash = "";
        tool_count = 0;
        tools_changed = false;
        dependencies_healthy = is_nil (dependency_failure checks);
        duration_millis = a.lasted';
      });
    }

-- A change of one state, where there is one.
unfoldable pub update_state : String → (ServerState → ServerState) → Registry → Registry
update_state id f r = elim (lookup id r.states) [
  | none ↦ r
  | some s ↦ record r { states = insert id (f s) r.states }
]

-- The state of a server that `Discover` has connected to.
unfoldable pub discovered :
    List DependencyState
    → Bool
    → String × String × String
    → List ToolRecord
    → String
    → Answer
    → ServerState
    → ServerState
discovered checks fine (name, version, protocol) tools digest a s =
    let changed = not (s.tool_set_hash == "") && not (s.tool_set_hash == digest) in
    record {
      manifest = s.manifest;
      status = healthy;
      error = "";
      actual_server_name = name;
      actual_server_version = version;
      protocol_version = protocol;
      tools = tools;
      tool_set_hash = digest;
      previous_tool_set_hash = s.tool_set_hash;
      tools_changed = changed;
      dependencies_checked = true;
      dependencies_healthy = fine;
      dependency_checks = checks;
      health_history = append_bounded s.health_history (record {
        checked_at = a.later;
        status = healthy;
        error = "";
        dependencies_healthy = fine;
        duration_millis = a.lasted';
      });
      discovery_history = append_bounded s.discovery_history (record {
        discovered_at = a.later;
        status = healthy;
        error = "";
        server_name = name;
        server_version = version;
        protocol_version = protocol;
        tool_set_hash = digest;
        tool_count = length tools;
        tools_changed = changed;
        dependencies_healthy = fine;
        duration_millis = a.lasted;
      });
      last_checked = a.later;
    }
