-- ===== src/Agent/Reducer.antt =====
-- internal/agent/reducer.go, and the two limits of internal/agent/orchestrator.go. A method that
-- changes the checkpoint returns it with its error; `none` is a nil error.
use Prim.Native.String.{◌++◌}
use safeops_agent.Prelude.{
  ℕ, ◌+◌, String, not, [], ◌∷◌, Option, none, some, ◌==◌, eqb, leb, ltb, decimal, Error, Result, ok,
  err, if◌then◌else◌,
}
use mathlib.Core.List.{◌++◌ as append}
use safeops_agent.Task.{RuntimeObservation, RuntimeCheckpoint}

abbrev pub default_max_iterations : ℕ
default_max_iterations = 12

abbrev pub default_max_tool_calls : ℕ
default_max_tool_calls = 30

abbrev pub max_replans : ℕ
max_replans = 3

abbrev pub max_no_progress_repeats : ℕ
max_no_progress_repeats = 2

-- Two minutes, in nanoseconds.
abbrev pub default_task_timeout : ℕ
default_task_timeout = 120000000000

unfoldable pub initialize_runtime : RuntimeCheckpoint → ℕ → RuntimeCheckpoint
initialize_runtime c now =
    let started = if eqb c.started_at 0 then now else c.started_at in
    record c {
      max_iterations = if eqb c.max_iterations 0 then default_max_iterations else c.max_iterations;
      max_tool_calls = if eqb c.max_tool_calls 0 then default_max_tool_calls else c.max_tool_calls;
      started_at = started;
      deadline_at = if eqb c.deadline_at 0 then started + default_task_timeout else c.deadline_at;
    }

unfoldable pub begin_decision : RuntimeCheckpoint → ℕ → RuntimeCheckpoint × Option Error
unfolding initialize_runtime
begin_decision c now =
    let c' = initialize_runtime c now in
    if not (ltb now c'.deadline_at)
    then (c', some "agent task deadline reached: context deadline exceeded")
    else if leb c'.max_iterations c'.iterations
    then (c', some ("agent iteration limit reached: " ++ decimal c'.max_iterations))
    else (record c' { iterations = c'.iterations + 1 }, none)

unfoldable pub reserve_tool_call : RuntimeCheckpoint → RuntimeCheckpoint × Option Error
reserve_tool_call c =
    if leb c.max_tool_calls c.tool_calls
    then (c, some ("agent tool-call limit reached: " ++ decimal c.max_tool_calls))
    else (record c { tool_calls = c.tool_calls + 1 }, none)

unfoldable pub record_replan : RuntimeCheckpoint → RuntimeCheckpoint × Option Error
record_replan c =
    let c' = record c { replans = c.replans + 1 } in
    if ltb max_replans c'.replans
    then (c', some ("agent replan limit reached: " ++ decimal max_replans))
    else (c', none)

-- `recordObservation`; `observation_digest` is the hexadecimal SHA-256 of the JSON of the server,
-- the tool, the arguments and the result, or the error of the encoding.
unfoldable pub record_observation :
    (String → String → String → String → Result String)
    → RuntimeCheckpoint
    → RuntimeObservation
    → RuntimeCheckpoint × Option Error
record_observation observation_digest c o =
    elim (observation_digest o.server_id o.tool o.arguments o.result) [
      | err e ↦ (c, some e)
      | ok digest ↦
          let repeated = digest == c.last_progress_digest in
          let repeats = if repeated then c.no_progress_repeats + 1 else 0 in
          let c' = record c {
            no_progress_repeats = repeats;
            last_progress_digest = digest;
            observations = append c.observations (record o { digest = digest } ∷ []);
          } in
          if leb max_no_progress_repeats repeats
          then (c', some "agent stopped after three identical tool observations")
          else (c', none)
    ]
