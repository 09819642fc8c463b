-- ===== src/Registry/Manage.antt =====
-- internal/registry/registry.go and health.go: what works on servers that are there.
use safeops_agent.Contracts.Snapshot.{negsuc, pos, ℤ}
use safeops_agent.Prelude.{
  Bool, Dict, Error, List, Option, Result, String, [], any, eqb, erase, err, false, if◌then◌else◌,
  insert, lookup, none, not, ok, some, sort_by, text_lt, true, ℕ, ◌==◌, ◌||◌, ◌∷◌,
}
use safeops_agent.Registry.{
  DependencyState, ServerManifest, ServerState, Status, ToolRecord, disabled, healthy, quoted,
}
use safeops_agent.Registry.Health.{append_bounded, dependency_failure, inspect_dependencies}
use safeops_agent.Registry.Servers.{discover}
use safeops_agent.Registry.States.{Answer, Environment, Registry, health_failed, update_state}
use Prim.Native.String.{◌++◌}
use mathlib.Core.List.{◌++◌ as append}

-- The state of a server that is switched off.
unfoldable pub switched_off : Answer → ServerState → ServerState
switched_off a s = record s {
  status = disabled;
  error = "";
  tools = [];
  previous_tool_set_hash = s.tool_set_hash;
  tools_changed = false;
  last_checked = a.later;
  health_history = append_bounded s.health_history (record {
    checked_at = a.later;
    status = disabled;
    error = "";
    dependencies_healthy = s.dependencies_healthy;
    duration_millis = 0;
  });
}

-- `SetEnabled` is two steps, as its first part holds only the mutex of the maps and gives it back
-- before the second: other calls can stand between. The first writes the manifest.
unfoldable pub mark_enabled : String → Bool → Registry → Option Error × Registry
mark_enabled id enabled r = elim (lookup id r.manifests) [
  | none ↦ (some ("unknown MCP server " ++ quoted id), r)
  | some m ↦
      let m' : ServerManifest = record m { enabled = enabled } in
      (
        none,
        update_state id (λ s. record s { manifest = m' })
            (record r { manifests = insert id m' r.manifests }),
      )
]

-- The second, under the lifecycle's mutex, where the server is switched off. It is `discover` where
-- the server is switched on.
unfoldable pub switch_off : Answer → String → Registry → Option Error × Registry
switch_off a id r = (
  elim (lookup id r.sessions) [ none ↦ none | some _ ↦ a.closing ],
  update_state id (switched_off a) (record r { sessions = erase id r.sessions }),
)

-- `SetEnabled` with no other call between its steps.
unfoldable pub set_enabled :
    Environment → Answer → String → Bool → Registry → Option Error × Registry
set_enabled env a id enabled r =
    let (x, marked) = mark_enabled id enabled r in
    elim x [
      | some e ↦ (some e, marked)
      | none ↦ if enabled then discover env a id marked else switch_off a id marked
    ]

-- The state of a server that answers.
unfoldable pub answered : List DependencyState → Answer → ServerState → ServerState
answered checks a s = record s {
  status = healthy;
  error = "";
  dependencies_checked = true;
  dependencies_healthy = true;
  dependency_checks = checks;
  last_checked = a.later;
  health_history = append_bounded s.health_history (record {
    checked_at = a.later;
    status = healthy;
    error = "";
    dependencies_healthy = true;
    duration_millis = a.lasted;
  });
}

-- The part of `Health` that asks a server whose dependencies are there.
unfoldable pub ping_server :
    Environment → Answer → String → List DependencyState → Registry → Option Error × Registry
ping_server env a id checks r = elim (lookup id r.sessions) [
  | none ↦
      let e : Error = "MCP server " ++ id ++ " is not connected" in
      (some e, update_state id (health_failed env checks e a) r)
  | some session ↦ elim a.ping [
    | some e ↦ if a.is_cancelled then (some "context canceled", r) else (
      some e,
      update_state id (health_failed env checks e a) (record r { sessions = erase id r.sessions }),
    )
    | none ↦ (none, update_state id (answered checks a) r)
  ]
]

-- `Health`
unfoldable pub health : Environment → Answer → String → Registry → Option Error × Registry
health env a id r = elim (lookup id r.manifests) [
  | none ↦ (some ("unknown MCP server " ++ quoted id), r)
  | some m ↦
      if not m.enabled
      then (some ("MCP server " ++ id ++ " is disabled"), r)
      else let checks = (inspect_dependencies env.machine m.dependencies a.now).0 in
        elim (dependency_failure checks) [
          | some e ↦ (some e, update_state id (health_failed env checks e a) r)
          | none ↦ ping_server env a id checks r
        ]
]

-- Equality of the Go texts with `HEALTHY`.
unfoldable pub is_healthy : Status → Bool
is_healthy healthy = true
is_healthy _ = false

-- `CallTool` up to the session's own call: the session that is asked.
unfoldable pub call_tool : String → String → Registry → Result ℕ
call_tool server name r =
    let sick : Error = "MCP server " ++ server ++ " is not healthy" in
    elim (lookup server r.sessions) [
      | none ↦ err sick
      | some session ↦ elim (lookup server r.states) [
        | none ↦ err sick
        | some s ↦
            if not (is_healthy s.status)
            then err sick
            else if not (any (λ (t : ToolRecord). t.name == name) s.tools)
            then err ("tool " ++ quoted name ++ " is not registered for server " ++ server)
            else ok session
      ]
    ]

-- `ToolCapability` of internal/llm/provider.go.
pub record ToolCapability : Type 0 where
  pub server_id : String
  pub name : String
  pub description : String
  pub input_schema : String

unfoldable pub capabilities : String → List ToolRecord → List ToolCapability
capabilities server [] = []
capabilities server (t ∷ ts) =
    record {
      server_id = server;
      name = t.name;
      description = t.description;
      input_schema = t.input_schema;
    }
    ∷ capabilities server ts

unfoldable pub offered : Dict ServerState → List ToolCapability
unfolding capabilities
offered [] = []
offered ((id, s) ∷ states) =
    let rest = offered states in
    if not (is_healthy s.status) || not s.manifest.enabled
    then rest
    else append (capabilities s.manifest.id s.tools) rest

unfoldable pub capability_before : ToolCapability → ToolCapability → Bool
capability_before a b =
    if a.server_id == b.server_id then text_lt a.name b.name else text_lt a.server_id b.server_id

-- `AvailableTools`
unfoldable pub available_tools : Registry → List ToolCapability
unfolding capability_before
available_tools r = sort_by capability_before (offered r.states)

close_errors : (String → Option Error) → Dict ℕ → List Error
close_errors closing [] = []
close_errors closing ((id, session) ∷ sessions) =
    let rest = close_errors closing sessions in
    elim (closing id) [ none ↦ rest | some e ↦ (id ++ ": " ++ e) ∷ rest ]

-- `Close`, with what closing each session reports.
unfoldable pub close : (String → Option Error) → Registry → List Error × Registry
unfolding close_errors
close closing r = (close_errors closing r.sessions, record r { sessions = [] })

enabled_ids : Dict ServerManifest → List String
enabled_ids [] = []
enabled_ids ((id, m) ∷ ms) = let rest = enabled_ids ms in if m.enabled then id ∷ rest else rest

-- `Start`, with an answer for each server; the errors that it joins.
start_all : Environment → (String → Answer) → List String → Registry → List Error × Registry
start_all env answers [] r = ([], r)
start_all env answers (id ∷ ids) r =
    let (e, r') = discover env (answers id) id r in
    let (errors, r'') = start_all env answers ids r' in
    (elim e [ none ↦ errors | some x ↦ x ∷ errors ], r'')

unfoldable pub start : Environment → (String → Answer) → Registry → List Error × Registry
unfolding start_all enabled_ids
start env answers r = start_all env answers (sort_by text_lt (enabled_ids r.manifests)) r

-- One round of the loop of `CheckAll`.
unfoldable pub check_one : Environment → Answer → String → Registry → Option Error × Registry
check_one env a id r = elim (lookup id r.sessions) [
  | none ↦ discover env a id r
  | some _ ↦ health env a id r
]

unfoldable pub check_each :
    Environment
    → (String → Option Error)
    → (String → Answer)
    → List String
    → Registry
    → List Error × Registry
check_each env context answers [] r = ([], r)
check_each env context answers (id ∷ ids) r =
    let (e, r') = check_one env (answers id) id r in
    let (errors, r'') = check_each env context answers ids r' in
    elim (context id) [
      | some x ↦ (x ∷ [], r)
      | none ↦ (elim e [ none ↦ errors | some x ↦ (id ++ ": " ++ x) ∷ errors ], r'')
    ]

is_positive : ℤ → Bool
is_positive (pos n) = not (eqb n 0)
is_positive (negsuc n) = false

-- `CheckAll`, with the error of the context before each server and an answer for each.
unfoldable pub check_all :
    Environment → ℤ → (String → Option Error) → (String → Answer) → Registry → List Error × Registry
unfolding enabled_ids is_positive
check_all env timeout context answers r =
    if not (is_positive timeout)
    then ("MCP per-server health timeout must be positive" ∷ [], r)
    else check_each env context answers (sort_by text_lt (enabled_ids r.manifests)) r
