-- ===== src/Examples/Storing.antt =====
-- A store with one session and one task, and a second task to prepare.
use safeops_agent.Disk.{Disk}
use safeops_agent.Prelude.{
  ==→ne, [], arith, false, is_valid_id, lookup, none, refl, some, trim_space, true, ◌==◌, ◌∷◌, ◌≡◌,
}
use safeops_agent.Session.{Session}
use safeops_agent.Storage.Fencing.{call, here, save_task-stale}
use safeops_agent.Storage.FileStore.{
  prepare_steps, write_prepared, FileStore, claim_error, claim_locked, claim_task, lease_conflict,
  load_locked, save_task, with_exclusive, write_task_as,
}
use safeops_agent.Storage.Leases.{apply, release_task_call}
use safeops_agent.Storage.Recovery.{Recovers, calm, crashed, recover_preparation-crashed}
use safeops_agent.Task.{Task, new}
use safeops_agent.Disk

abbrev session : Session
session = record {
  id = "s1";
  name = "main";
  archived = false;
  messages = [];
  summary = "";
  pinned_context = [];
  selected_resources = [];
  created_at = 1000;
  updated_at = 1000;
}

abbrev task : Task
task = record {
  id = "t1";
  session_id = "s1";
  objective = "goal";
  original_request = "fix it";
  state = new;
  intent_type = "repair";
  plan = [];
  current_step = 0;
  completed_steps = [];
  findings = [];
  selected_resources = [];
  evidence_refs = [];
  pending_action = "";
  pending_approval_id = "";
  verification_goal = "";
  workflow_data = [];
  runtime = record {
    iterations = 0;
    tool_calls = 0;
    replans = 0;
    no_progress_repeats = 0;
    last_progress_digest = "";
    max_iterations = 12;
    max_tool_calls = 30;
    started_at = 1000;
    deadline_at = 9000;
    observations = [];
    guard_feedback = [];
  };
  worker_lease = record { owner = "w1"; token = "k1"; fence = 3; expires_at = 2000 };
  checkpoint = 0;
  failure_reason = "";
  created_at = 1000;
  updated_at = 1000;
}

abbrev store : FileStore
store = record {
  sessions = record { files = ("s1", some session) ∷ []; faults = [] };
  tasks = record { files = ("t1", some task) ∷ []; faults = [] };
  state = record { files = []; faults = [] };
}

claimed_second : (claim_task none "t1" "w2" "k2" 5000 2500 store).0 ≡ none
unfolding claim_task claim_error with_exclusive claim_locked load_locked lookup write_task_as
    Disk.save is_valid_id trim_space ◌==◌
claimed_second = refl

fence_there : lookup "t1" store.tasks.files ≡ some (some task)
unfolding lookup ◌==◌
fence_there = refl

token_named : ("k1" == "") ≡ false
unfolding ◌==◌
token_named = refl

-- The first worker comes back after the second has released the task.
save_task-stale_example :
    let t =
      apply
        (release_task_call none "t1" "k2" 4)
        (claim_task none "t1" "w2" "k2" 5000 2500 store).1 in
    save_task none 3000 task t ≡ (some lease_conflict, t)
save_task-stale_example =
    save_task-stale "t1" "w2" "k2" 5000 2500 3000 store _ task claimed_second
      (call here (release_task_call none "t1" "k2" 4)) refl (==→ne "k1" "" token_named)
      (task, fence_there, omega arith)

valid_ids : (is_valid_id "t1" ≡ true) × (is_valid_id "s1" ≡ true)
unfolding is_valid_id ◌==◌
valid_ids = (refl, refl)

-- The task is written, the session is not.
recover_preparation-crashed_example :
    ((write_prepared task session (calm [] [] [])).0 ≡ none)
    × Recovers
        (crashed 2 task session (calm [] [] []))
        (write_prepared task session (calm [] [] [])).1
        task
        session
recover_preparation-crashed_example =
    recover_preparation-crashed 2 [] [] [] task session (omega arith)
      (unfold prepare_steps in omega arith) valid_ids.0 valid_ids.1 refl
