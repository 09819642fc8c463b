-- ===== src/Agent/Scope.antt =====
-- internal/agent/general_scope.go: the paths that a request allows the tools to read. The scope is
-- an optional argument (`nil` is `none`); the arguments of a decision are the entries of its map.
use safeops_agent.Json.{Fields, Json, end, field, str}
use safeops_agent.Prelude.{
  Bool, List, Option, String, [], any, clean, false, if◌then◌else◌, is_abs, keep_last, none, not,
  some, trim_space, true, within, ◌&&◌, ◌==◌, ◌||◌, ◌∷◌,
}
use safeops_agent.Task.{RuntimeCheckpoint, RuntimeGuardFeedback}
use Prim.Native.String.{◌++◌}
use mathlib.Core.List.{◌++◌ as append}

pub data DecisionKind : Type 0 where
  tool_call action_request final replan : DecisionKind
  other_kind : String → DecisionKind

pub record ActionTarget : Type 0 where
  pub kind : String
  pub id : String

-- `Decision` of internal/llm/provider.go.
pub record Decision : Type 0 where
  pub kind : DecisionKind
  pub decision_summary : String
  pub server_id : String
  pub tool : String
  pub arguments : Fields
  pub target : ActionTarget
  pub expected_observation : String
  pub final_answer : String

pub record ReadScope : Type 0 where
  pub resource_type : String
  pub authorized_paths : List String
  pub excluded_paths : List String
  pub source : String

pub record ReadScopeViolation : Type 0 where
  pub code : String
  pub summary : String
  pub tool : String
  pub attempted_path : String

-- Equality of the Go texts with `tool`.
unfoldable pub is_tool_call : DecisionKind → Bool
unfolding ◌==◌
is_tool_call tool_call = true
is_tool_call (other_kind s) = s == "tool"
is_tool_call _ = false

abbrev traversing_tools : List String
traversing_tools =
    "file/file.list_directory" ∷ "file/file.find_large" ∷ "config/config.snapshot"
    ∷ "config/config.diff_snapshot" ∷ []

-- `scopedPathReadToolTraverses`
unfoldable pub tool_traverses : String → Bool
tool_traverses tool = any (λ t. t == tool) traversing_tools

abbrev scoped_tools : List String
scoped_tools =
    "file/file.stat" ∷ "file/file.list_directory" ∷ "file/file.sha256" ∷ "file/file.find_large"
    ∷ "config/config.get_metadata" ∷ "config/config.snapshot" ∷ "config/config.diff_snapshot"
    ∷ "system/system.get_disk_usage" ∷ "diagnostic/diagnostic.disk_pressure" ∷ []

-- `scopedPathReadTool`
unfoldable pub tool_is_scoped : String → Bool
tool_is_scoped tool = any (λ t. t == tool) scoped_tools

-- `pathWithinScope`
unfoldable pub path_within_scope : String → String → Bool
path_within_scope authorized candidate =
    clean authorized == clean candidate || within (clean authorized) (clean candidate)

unfoldable pub argument : String → Fields → Option Json
argument key end = none
argument key (field k v fs) = if k == key then some v else argument key fs

is_empty : List String → Bool
is_empty [] = true
is_empty (p ∷ ps) = false

-- No authorised path, and some excluded one.
unfoldable pub exclusion_only : ReadScope → Bool
unfolding is_empty
exclusion_only scope = is_empty scope.authorized_paths && not (is_empty scope.excluded_paths)

unfoldable pub decision_tool : Decision → String
decision_tool d = d.server_id ++ "/" ++ d.tool

unfoldable pub violation : String → String → String → String → ReadScopeViolation
violation code summary tool path = record {
  code = code;
  summary = summary;
  tool = tool;
  attempted_path = path;
}

-- The test of one excluded path: within it, or traversed down to it.
unfoldable pub reaches : String → String → String → Bool
reaches tool path excluded =
    path_within_scope excluded path || (tool_traverses tool && path_within_scope path excluded)

-- The part of `validateGeneralReadScope` where the path is absolute.
unfoldable pub path_violation : ReadScope → String → String → Option ReadScopeViolation
unfolding violation
path_violation scope tool path =
    if any (reaches tool path) scope.excluded_paths
    then some (violation "REQUEST_READ_SCOPE_EXCLUDED" "工具 path 位于操作员明确排除的路径内，或会遍历到该排除路径" tool path)
    else if exclusion_only scope
    then none
    else if any (λ authorized. path_within_scope authorized path) scope.authorized_paths
    then none
    else some (violation "REQUEST_READ_SCOPE_MISMATCH" "工具 path 超出操作员本次请求或会话已选资源的受权范围" tool path)

-- The text of a value, if it is one.
unfoldable pub text_of : Json → Option String
text_of (str s) = some s
text_of _ = none

unfoldable pub argument_violation : ReadScope → String → Json → Option ReadScopeViolation
unfolding violation
argument_violation scope tool value =
    let invalid : String → Option ReadScopeViolation = λ path. some (
      violation "REQUEST_READ_SCOPE_PATH_INVALID" "文件范围任务要求绝对 path，且该 path 必须位于本次请求的受权范围内" tool
        (trim_space path)) in
    elim (text_of value) [
      | none ↦ invalid ""
      | some path ↦
          if not (is_abs path) then invalid path else path_violation scope tool (clean path)
    ]

-- `validateGeneralReadScope`; `none` is a nil violation.
unfoldable pub validate_read_scope : Option ReadScope → Decision → Option ReadScopeViolation
unfolding violation
validate_read_scope none d = none
validate_read_scope (some scope) d =
    let tool = decision_tool d in
    if not (is_tool_call d.kind)
    then none
    else if exclusion_only scope && not (tool_is_scoped tool)
    then none
    else if not (tool_is_scoped tool)
    then some
        (violation "REQUEST_READ_SCOPE_TOOL_MISMATCH" "文件范围任务只能选择文件元数据、文件系统容量或磁盘压力的路径受限工具" tool "")
    else elim (argument "path" d.arguments) [
      | none ↦
          some (violation "REQUEST_READ_SCOPE_PATH_REQUIRED" "文件范围任务只能选择携带受权 path 的只读工具" tool "")
      | some value ↦ argument_violation scope tool value
    ]

-- The paths of the scope that a feedback carries.
feedback_paths : (ReadScope → List String) → Option ReadScope → List String
feedback_paths paths none = []
feedback_paths paths (some scope) = paths scope

-- `appendRuntimeGuardFeedback`: the last four are kept.
unfoldable pub append_guard_feedback :
    RuntimeCheckpoint → Option ReadScope → ReadScopeViolation → RuntimeCheckpoint
unfolding feedback_paths
append_guard_feedback checkpoint scope v =
    let feedback : RuntimeGuardFeedback = record {
      code = v.code;
      summary = v.summary;
      tool = v.tool;
      attempted_path = v.attempted_path;
      authorized_paths = feedback_paths (λ s. s.authorized_paths) scope;
      excluded_paths = feedback_paths (λ s. s.excluded_paths) scope;
    } in
    record checkpoint {
      guard_feedback = keep_last 4 (append checkpoint.guard_feedback (feedback ∷ []));
    }
