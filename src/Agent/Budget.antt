-- ===== src/Agent/Budget.antt =====
-- internal/agent/reducer.go: sequences of the steps of a runtime.
use safeops_agent.Prelude.{
  leb, if◌then◌else◌, suc, ℕ, ◌+◌, ◌<◌, ◌≤◌, ◌≡◌, String, Bool, true, false, List, [], ◌∷◌, Option,
  none, some, Result, ok, ◌==◌, eq→==, arith,
}
use safeops_agent.Task.{RuntimeObservation, RuntimeCheckpoint}
use safeops_agent.Agent.Reducer.{
  begin_decision, reserve_tool_call, record_replan, record_observation, max_replans,
  max_no_progress_repeats,
}

-- The counters of a checkpoint that was initialised stand within its limits, and its limits and its
-- deadline are set.
pub record IsWithin (c : RuntimeCheckpoint) : Type 0 where
  pub limits_set : (0 < c.max_iterations) × (0 < c.max_tool_calls)
  pub iterations_capped : c.iterations ≤ c.max_iterations
  pub tool_calls_capped : c.tool_calls ≤ c.max_tool_calls
  pub deadline_set : 0 < c.deadline_at

-- One call of the reducer; a step that reports an error is the last one.
pub data Event : Type 0 where
  decide : ℕ → Event
  tool_call : Event
  replan : Event
  observe : RuntimeObservation → Event

abbrev pub decisions : List Event → ℕ
decisions [] = 0
decisions (decide _ ∷ es) = suc (decisions es)
decisions (_ ∷ es) = decisions es

abbrev pub tool_calls : List Event → ℕ
tool_calls [] = 0
tool_calls (tool_call ∷ es) = suc (tool_calls es)
tool_calls (_ ∷ es) = tool_calls es

abbrev pub replans : List Event → ℕ
replans [] = 0
replans (replan ∷ es) = suc (replans es)
replans (_ ∷ es) = replans es

-- What an accepted event does to the counters.
record Spends (c : RuntimeCheckpoint) (e : Event) (d : RuntimeCheckpoint) : Type 0 where
  iterations : d.iterations ≡ c.iterations + decisions (e ∷ [])
  calls : d.tool_calls ≡ c.tool_calls + tool_calls (e ∷ [])
  replanned : d.replans ≡ c.replans + replans (e ∷ [])
  replans_capped : d.replans ≤ max_replans
  same_limits : (d.max_iterations ≡ c.max_iterations) × (d.max_tool_calls ≡ c.max_tool_calls)

module _ (observation_digest : String → String → String → String → Result String) where
  unfoldable pub react : RuntimeCheckpoint → Event → RuntimeCheckpoint × Option String
  react c (decide now) = begin_decision c now
  react c tool_call = reserve_tool_call c
  react c replan = record_replan c
  react c (observe o) = record_observation observation_digest c o

  -- The checkpoint after some events, none of which was refused.
  unfoldable pub accepts : RuntimeCheckpoint → List Event → Bool
  accepts c [] = true
  accepts c (e ∷ es) =
      let rest = accepts (react c e).0 es in elim (react c e).1 [ none ↦ rest | some _ ↦ false ]

  observed :
      (c : RuntimeCheckpoint) (o : RuntimeObservation) (digest : String)
      → observation_digest o.server_id o.tool o.arguments o.result ≡ ok digest
      → let out = record_observation observation_digest c o in
        (out.0.last_progress_digest ≡ digest)
        × (out.0.no_progress_repeats
            ≡ (if digest == c.last_progress_digest then c.no_progress_repeats + 1 else 0))
        × (out.1 ≡ (
            if leb max_no_progress_repeats out.0.no_progress_repeats
            then some "agent stopped after three identical tool observations"
            else none))
  observed c o digest h = unfold record_observation in rw (h, record_observation) (ground arith)

  -- An observation with the same digest as the two before it stops the
  -- agent, whatever it had observed before those.
  pub record_observation-thrice :
      (c : RuntimeCheckpoint) (o p q : RuntimeObservation) (digest : String)
      → observation_digest o.server_id o.tool o.arguments o.result ≡ ok digest
      → observation_digest p.server_id p.tool p.arguments p.result ≡ ok digest
      → observation_digest q.server_id q.tool q.arguments q.result ≡ ok digest
      → (record_observation observation_digest
          (record_observation observation_digest (record_observation observation_digest c o).0 p).0
          q).1
        ≡ some "agent stopped after three identical tool observations"
  record_observation-thrice c o p q digest ho hp hq =
      let once = (record_observation observation_digest c o).0 in
      let twice = (record_observation observation_digest once p).0 in
      let a = observed c o digest ho in
      let b = observed once p digest hp in
      let d = observed twice q digest hq in
      ground (
        arith,
        a,
        b,
        d,
        eq→== digest once.last_progress_digest,
        eq→== digest twice.last_progress_digest,
      )
