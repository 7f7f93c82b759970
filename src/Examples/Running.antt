-- ===== src/Examples/Running.antt =====
-- The theorems on the coordinator: a plant whose store counts its revisions.
use industrial_agent_runtime.Prelude.{
  Dict, length, keys, has, ℕ, suc, String, ◌≡◌, ◌⊎◌, refl, true, false, none, some, [], ◌∷◌,
  AllEntries, pos, contains,
}
use industrial_agent_runtime.Json.{Json, null, object, end}
use industrial_agent_runtime.Contracts.{done, Revision, number, TaskStatus, running, InformationRef}
use industrial_agent_runtime.Actions.{ModelTurn, finish_proposal}
use industrial_agent_runtime.Decisions.{Error, ok, err}
use industrial_agent_runtime.Batch.Preflight.{index, validate_batch}
use industrial_agent_runtime.Schema.{schema_errors}
use industrial_agent_runtime.Schema.Instance.{instance_errors}
use industrial_agent_runtime.Knowledge.Visible.{IsVisible}
use industrial_agent_runtime.Accounting.Usage.{IsCounted}
use industrial_agent_runtime.Verification.Provenance.{tool_result}
use industrial_agent_runtime.Coordinator.{State, Coordinator, ContextProjection, event, is_terminal}
use industrial_agent_runtime.Coordinator.Execution.{execute, has_hooks}
use industrial_agent_runtime.Coordinator.Batches.{settle_items}
use industrial_agent_runtime.Coordinator.Update.{is_current}
use industrial_agent_runtime.Coordinator.Loop.{
  start_state, is_exhausted, is_spent, run, rounds, persist_terminal_status, transition,
  persistence_failed, check_transition, eqb_status,
}
use industrial_agent_runtime.Coordinator.Ledger.{view, Steps}
use industrial_agent_runtime.Coordinator.Ledger.Refines.Rounds.{run-Steps}
use industrial_agent_runtime.Coordinator.Ledger.Invariants.{
  after_run, run-KnowsVisible, run-IsCounted, run-conforms,
}
use industrial_agent_runtime.Coordinator.Refusals.{execute-dispatched}
use industrial_agent_runtime.Coordinator.Settled.{settle_items-validated}
use industrial_agent_runtime.Accounting.{start_usage}
use industrial_agent_runtime.Batch.Preflight.Distinct.{work_ids}
use industrial_agent_runtime.Coordinator.Persisted.{
  IsPersisted, persist_terminal_status-IsPersisted,
}
use industrial_agent_runtime.Coordinator.Stuck.{IsForeign, IsIdle, rounds-IsIdle}
use industrial_agent_runtime.Examples.Configuration.{
  known, simulate_request, task, pipeline, measure_ref,
}
use industrial_agent_runtime.Examples.Results.{level_result, ingestion}
use industrial_agent_runtime.Examples.Batching.{batch, batching, sized, batch_validated}

-- The plant: the revision of its store, and whether the task is done.
abbrev Plant : Type 0
Plant = ℕ × TaskStatus

abbrev projection_at : String → ℕ → ContextProjection
projection_at task_id n = record {
  projection_id = "p";
  task_id = task_id;
  base_revision = number (pos n);
  content = null;
  included_refs = [];
  visibility_policy_version = "v1";
  approximate_tokens = 0;
  checksum = "";
}

-- The model proposes to finish at once.
abbrev finish_turn : InformationRef → Revision → ModelTurn
finish_turn ref base = record {
  turn_id = "t1";
  context_projection_ref = ref;
  base_revision = base;
  action =
      finish_proposal
        (record { structured_output = object end; information_refs = []; artifact_refs = [] });
  state_update = none;
  prose_summary = none;
}

abbrev plant : (task_id : String) → Coordinator Plant
plant task_id = record {
  pipeline = pipeline;
  verification = ingestion;
  has_verifier = true;
  has_ingestor = true;
  executor = some (λ request spec w. (ok (tool_result level_result), w));
  verify_finish = λ proposal t revision w. (ok true, w);
  generate =
      λ prompt specs ref usage w. (ok (some (finish_turn ref prompt.projection.base_revision)), w);
  persist_projection = λ prompt w. (ok measure_ref, w);
  reference_revision = λ w. ok (number (pos 3));
  revision = λ w. ok (number (pos w.0));
  store_status = λ w. ok w.1;
  project = λ w. ok (some (projection_at task_id w.0));
  apply_batch = λ ds expected w. (ok (number (pos (suc w.0))), (suc w.0, w.1));
  transition_status = λ status expected w. (ok (some (number (pos (suc w.0)))), (suc w.0, status));
  elapse = λ w. w;
}

abbrev coordinator : Coordinator Plant
coordinator = plant task.task_id

abbrev fresh : State Plant
fresh = start_state task (7, running)

run-Steps_example : Steps pipeline ingestion (view fresh) (view (run coordinator 9 fresh).1)
run-Steps_example = run-Steps coordinator 9 fresh

run-KnowsVisible_example : AllEntries IsVisible (after_run coordinator 9 (7, running)).known_refs
run-KnowsVisible_example = run-KnowsVisible coordinator 9 (7, running)

run-IsCounted_example : IsCounted task.budget (after_run coordinator 9 (7, running)).usage
run-IsCounted_example = run-IsCounted coordinator 9 (7, running)

run-conforms_example :
    ((after_run coordinator 9 (7, running)).output ≡ none)
    ⊎ ((output : Json) × ((after_run coordinator 9 (7, running)).output ≡ some output)
        × (schema_errors ingestion.re [] task.output_schema ≡ ok [])
        × (instance_errors ingestion.re [] output task.output_schema ≡ ok []))
run-conforms_example = run-conforms coordinator 9 (7, running)

-- A run in which the first request was dispatched already.
abbrev resumed : State Plant
resumed = record fresh { request_ids = "q1" ∷ [] }

q1_dispatched : contains simulate_request.request_id resumed.request_ids ≡ true
unfolding batching
q1_dispatched = refl

execute-dispatched_example :
    ((execute coordinator simulate_request none [] resumed).0 ≡ ok none)
    × ((execute coordinator simulate_request none [] resumed).1.world ≡ resumed.world)
    × ((execute coordinator simulate_request none [] resumed).1.usage ≡ resumed.usage)
    × ((execute coordinator simulate_request none [] resumed).1.request_ids ≡ resumed.request_ids)
execute-dispatched_example =
    execute-dispatched coordinator simulate_request [] resumed q1_dispatched

-- A store that projects another task.
abbrev foreign : Coordinator Plant
foreign = record (plant "other") {
  store_status = λ w. ok running;
  project = λ w. ok (some (projection_at "other" 7));
  revision = λ w. ok (number (pos 7));
}

foreign-IsForeign : IsForeign foreign
unfolding batching is_current
foreign-IsForeign = record {
  projection = projection_at "other" 7;
  revision = number (pos 7);
  status = λ w. refl;
  projects = λ w. refl;
  at = λ w. refl;
  differs = refl;
}

fresh_left : is_exhausted foreign fresh.usage ≡ false
unfolding batching is_exhausted is_spent start_state
fresh_left = refl

fresh_running : fresh.status ≡ running
unfolding start_state
fresh_running = refl

rounds-IsIdle_example :
    ((rounds foreign 1000 fresh).0 ≡ ok tt) × IsIdle fresh (rounds foreign 1000 fresh).1
rounds-IsIdle_example = rounds-IsIdle foreign foreign-IsForeign 1000 fresh fresh_running fresh_left

batch_runnable :
    validate_batch pipeline known [] (has_hooks coordinator) (start_usage task.budget) batch
    ≡ ok sized
unfolding batching has_hooks
batch_runnable = batch_validated

settle_items-validated_example :
    ((e : Error) × ((settle_items coordinator batch sized
          (index batch.items [])
          (length (index batch.items []))
          (keys (index batch.items []))
          []
          fresh).0
        ≡ err e))
    ⊎ ((out : Dict String) × ((settle_items coordinator batch sized
            (index batch.items [])
            (length (index batch.items []))
            (keys (index batch.items []))
            []
            fresh).0
          ≡ ok out)
        × ((k : String) → contains k (work_ids batch.items) ≡ true → has k out ≡ true))
settle_items-validated_example =
    settle_items-validated coordinator batch sized known [] (start_usage task.budget) fresh
      batch_runnable

-- A run that ends with an accepted finish.
abbrev ending : State Plant
ending = record fresh { status = done }

abbrev persisted : State Plant
unfolding persist_terminal_status transition persistence_failed event check_transition eqb_status
    is_terminal batching start_state
persisted = (persist_terminal_status coordinator ending).1

ending_kept : persist_terminal_status coordinator ending ≡ (ok none, persisted)
unfolding persist_terminal_status transition persistence_failed event check_transition eqb_status
    is_terminal batching start_state
ending_kept = refl

persist_terminal_status-IsPersisted_example :
    IsPersisted coordinator ending.status ending.world persisted.world
persist_terminal_status-IsPersisted_example =
    persist_terminal_status-IsPersisted coordinator ending persisted ending_kept
