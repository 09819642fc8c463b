-- ===== src/Examples/Observing.antt =====
-- A graph of two nodes and an edge, a tool call within a read scope, and a reference.
use safeops_agent.Agent.Mentioned.{IsDerived, derive_read_scope-IsDerived}
use safeops_agent.Agent.Mentions.{
  bare_path, derive_read_scope, is_resumed, mention_negated, no_paths, normalized_unique_paths,
  path_mentions, request_path_scopes, scope_of, select_mentions, unique_paths,
}
use safeops_agent.Agent.Scope.{
  ReadScopeViolation, Decision, ReadScope, append_guard_feedback, argument, argument_violation,
  decision_tool, exclusion_only, is_tool_call, path_violation, path_within_scope, reaches, text_of,
  tool_call, tool_is_scoped, tool_traverses, validate_read_scope,
}
use safeops_agent.Agent.Scoped.{
  MayRead, append_guard_feedback-IsAppended, IsAppended, validate_read_scope-MayRead,
}
use safeops_agent.Evidence.{Edge, Graph, Node, new, port, service}
use safeops_agent.Evidence.Whole.{
  Grows, IsWhole, Reach, Reach-Grows, Reach-IsWhole, apply, call, here, link_call, upsert_call,
}
use safeops_agent.Json.{end, field, str}
use safeops_agent.Prelude.{
  List, String, [], clean, elements_within, false, has_prefix, is_abs, none, path_elements, refl,
  some, sort_by, starts_up, strip_elements, text_lt, to_lower, trim_space, true, within, ◌==◌, ◌∷◌,
  ◌≡◌, ◌⊎◌,
}
use safeops_agent.Task.{RuntimeCheckpoint}
use safeops_agent.Trace.Redaction.{contains_text}

abbrev service_node : Node
service_node = record {
  id = "svc";
  kind = service;
  label = "ssh";
  attributes = end;
  evidence_refs = [];
}

abbrev port_node : Node
port_node = record { id = "p22"; kind = port; label = "22"; attributes = end; evidence_refs = [] }

abbrev listens : Edge
listens = record { source = "svc"; target = "p22"; relation = "LISTENS"; evidence_refs = [] }

abbrev graph : Graph
graph =
    apply (link_call listens) (apply (upsert_call port_node) (apply (upsert_call service_node) new))

reached : Reach new graph
reached =
    call (call (call here (upsert_call service_node)) (upsert_call port_node)) (link_call listens)

Reach-IsWhole_example : IsWhole graph
Reach-IsWhole_example = Reach-IsWhole reached

Reach-Grows_example : Grows new graph
Reach-Grows_example = Reach-Grows reached

abbrev scope : ReadScope
scope = record {
  resource_type = "file";
  authorized_paths = "/lab" ∷ [];
  excluded_paths = "/lab/private" ∷ [];
  source = "request";
}

abbrev decision : Decision
decision = record {
  kind = tool_call;
  decision_summary = "";
  server_id = "file";
  tool = "file.stat";
  arguments = field "path" (str "/lab/logs/a") end;
  target = record { kind = ""; id = "" };
  expected_observation = "";
  final_answer = "";
}

decision_allowed : validate_read_scope (some scope) decision ≡ none
unfolding validate_read_scope is_tool_call exclusion_only tool_is_scoped decision_tool argument
    argument_violation text_of path_violation reaches tool_traverses path_within_scope is_abs clean
    within elements_within path_elements starts_up strip_elements has_prefix ◌==◌
decision_allowed = refl

call_checked : is_tool_call decision.kind ≡ true
unfolding is_tool_call
call_checked = refl

validate_read_scope-MayRead_example :
    ((exclusion_only scope ≡ true) × (tool_is_scoped (decision_tool decision) ≡ false))
    ⊎ MayRead scope decision
validate_read_scope-MayRead_example =
    validate_read_scope-MayRead scope decision call_checked decision_allowed

abbrev checkpoint : RuntimeCheckpoint
checkpoint = record {
  iterations = 0;
  tool_calls = 0;
  replans = 0;
  no_progress_repeats = 0;
  last_progress_digest = "";
  max_iterations = 12;
  max_tool_calls = 30;
  started_at = 1000;
  deadline_at = 9000;
  observations = [];
  guard_feedback = [];
}

abbrev fifth : ReadScopeViolation
fifth = record { code = "X"; summary = ""; tool = "t"; attempted_path = "/" }

append_guard_feedback-IsAppended_example :
    IsAppended fifth checkpoint.guard_feedback
      (append_guard_feedback checkpoint (some scope) fifth).guard_feedback
append_guard_feedback-IsAppended_example =
    append_guard_feedback-IsAppended checkpoint (some scope) fifth

-- One path is asked for, the other is negated.
abbrev matches : String → List (String × String)
matches request = ("read ", "/lab/logs,") ∷ ("read /lab/logs, do not read ", "/lab/private") ∷ []

derived :
    derive_read_scope matches "read /lab/logs, do not read /lab/private" []
    ≡ some (record scope { authorized_paths = "/lab/logs" ∷ [] })
unfolding derive_read_scope request_path_scopes is_resumed scope_of no_paths path_mentions
    select_mentions mention_negated normalized_unique_paths unique_paths bare_path clean is_abs
    sort_by text_lt to_lower trim_space contains_text has_prefix ◌==◌
derived = refl

derive_read_scope-IsDerived_example :
    IsDerived matches "read /lab/logs, do not read /lab/private" []
      (record scope { authorized_paths = "/lab/logs" ∷ [] })
derive_read_scope-IsDerived_example =
    derive_read_scope-IsDerived matches "read /lab/logs, do not read /lab/private" []
      (record scope { authorized_paths = "/lab/logs" ∷ [] }) derived
