-- ===== src/Examples/Running.antt =====
-- A runtime that is near its limits.
use safeops_agent.Agent.Budget.{
  Event, decide, observe, record_observation-thrice, replans, tool_call, tool_calls,
}
use safeops_agent.Agent.Reducer.{record_observation}
use safeops_agent.Prelude.{List, Result, String, [], ok, refl, some, ◌∷◌, ◌≡◌}
use safeops_agent.Task.{RuntimeCheckpoint, RuntimeObservation}

abbrev checkpoint : RuntimeCheckpoint
checkpoint = record {
  iterations = 10;
  tool_calls = 28;
  replans = 1;
  no_progress_repeats = 0;
  last_progress_digest = "";
  max_iterations = 12;
  max_tool_calls = 30;
  started_at = 1000;
  deadline_at = 9000;
  observations = [];
  guard_feedback = [];
}

abbrev observation : RuntimeObservation
observation = record {
  server_id = "files";
  tool = "list";
  arguments = "{}";
  result = "empty";
  evidence_ref = "";
  digest = "";
}

abbrev digest_of_result : String → String → String → String → Result String
digest_of_result server tool arguments result = ok result

abbrev run : List Event
run = decide 2000 ∷ tool_call ∷ observe observation ∷ decide 3000 ∷ tool_call ∷ []

record_observation-thrice_example :
    (record_observation digest_of_result
      (record_observation digest_of_result
        (record_observation digest_of_result checkpoint observation).0
        observation).0
      observation).1
    ≡ some "agent stopped after three identical tool observations"
record_observation-thrice_example =
    record_observation-thrice digest_of_result checkpoint observation observation observation
      "empty" refl refl refl
