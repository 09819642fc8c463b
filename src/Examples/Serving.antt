-- ===== src/Examples/Serving.antt =====
-- A registry with one server.
use safeops_agent.Prelude.{
  Bool, String, [], erase, false, insert, is_abs, lookup, none, ok, refl, some, sort_by, subst, sym,
  trim_space, true, ◌==◌, ◌∷◌, ◌≡◌,
}
use safeops_agent.Registry.{ServerManifest}
use safeops_agent.Registry.Health.{
  Host, dependency_failure, dependency_failure-inspect_dependencies, inspect_dependencies,
  inspect_dependency, is_nil, set_metadata, valid_dependency_command,
}
use safeops_agent.Registry.Manage.{
  mark_enabled, ToolCapability, available_tools, call_tool, capabilities, is_healthy, offered,
}
use safeops_agent.Registry.Sequences.{
  switching, mark_call, Reach, Reach-IsSound, apply, begin, discover_call, next,
}
use safeops_agent.Registry.Servers.{contact, discover, list_tools, server_info, tool_set_hash}
use safeops_agent.Registry.Sound.{IsSound}
use safeops_agent.Registry.States.{
  Answer, Environment, Registry, add_server, add_servers, blank_state, discovered, new,
  update_state,
}
use safeops_agent.Registry.Tools.{IsOffered, MayCall, Reach-call_tool, available_tools-IsOffered}
use mathlib.Core.List.{Memᴰ}

abbrev machine : Host
machine = record {
  stat = λ p. ok (record { mode = "-rwxr-xr-x"; is_dir = false; size = 10; modified = 5 });
  look_path = λ c. ok "/usr/bin/ss";
  absolute = λ p. ok p;
  redact = λ t. t;
}

abbrev env : Environment
env = record { machine = machine; marshal_tool_set = λ ts. ok "[]"; sha256_hex = λ t. "00" }

abbrev answer : Answer
answer = record {
  connected = ok 7;
  info = some ("file", "1.0", "2025-06-18");
  tools =
      ok
        (record { name = "file.stat"; description = ""; encoded = ok "{}"; input_schema = ok "{}" })
      ∷ [];
  ping = none;
  is_cancelled = false;
  closing = none;
  now = 100;
  later = 110;
  lasted = 3;
  lasted' = 4;
}

abbrev server : ServerManifest
server = record {
  id = "file";
  name = "file";
  display_name = "";
  version = "1";
  description = "";
  transport = "stdio";
  command = "/usr/bin/mcp-file";
  arguments = [];
  enabled = true;
  health_check = "";
  source = "";
  capabilities = [];
  dependencies = "ss" ∷ [];
  environment = [];
}

abbrev registry : Registry
registry = apply (discover_call env answer "file") (new (server ∷ []))

-- The server is marked as disabled, and its session is still there.
abbrev between : Registry
between = apply (mark_call "file" false) registry

abbrev leaving : String → Bool
leaving =
    switching (mark_call "file" false) (switching (discover_call env answer "file") (λ k. false))

reached : Reach (new (server ∷ [])) leaving between
reached = next (next begin (discover_call env answer "file")) (mark_call "file" false)

Reach-IsSound_example : IsSound leaving between
Reach-IsSound_example = Reach-IsSound (server ∷ []) reached

call_goes : call_tool "file" "file.stat" between ≡ ok 7
unfolding mark_enabled call_tool apply discover new update_state lookup insert erase ◌==◌
    dependency_failure inspect_dependencies inspect_dependency is_abs trim_space
    valid_dependency_command set_metadata server_info list_tools tool_set_hash is_healthy discovered
    sort_by contact
call_goes = refl

Reach-call_tool_example : MayCall leaving "file" "file.stat" between 7
Reach-call_tool_example = Reach-call_tool (server ∷ []) "file" "file.stat" 7 reached call_goes

abbrev capability : ToolCapability
capability = record {
  server_id = "file";
  name = "file.stat";
  description = "";
  input_schema = "{}";
}

capability_there : available_tools registry ≡ (capability ∷ [])
unfolding available_tools offered capabilities add_servers add_server blank_state apply discover new
    update_state lookup insert erase ◌==◌ dependency_failure inspect_dependencies inspect_dependency
    is_abs trim_space valid_dependency_command set_metadata server_info list_tools tool_set_hash
    is_healthy discovered sort_by contact
capability_there = refl

available_tools-IsOffered_example : IsOffered capability registry.states
available_tools-IsOffered_example =
    available_tools-IsOffered capability registry
      (subst (λ ys. Memᴰ capability ys) (sym capability_there) (Memᴰ.head refl))

dependency_failure-inspect_dependencies_example :
    is_nil (dependency_failure (inspect_dependencies machine ("ss" ∷ "" ∷ []) 100).0)
    ≡ (inspect_dependencies machine ("ss" ∷ "" ∷ []) 100).1
dependency_failure-inspect_dependencies_example =
    dependency_failure-inspect_dependencies machine ("ss" ∷ "" ∷ []) 100
