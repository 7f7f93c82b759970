-- ===== src/Examples/Batching.antt =====
-- The theorems on batches: a simulation, and a change of the valve that depends on it.
use industrial_agent_runtime.Batch.Waves.Ranked.{IsRanked, is_cyclic_iff}
use industrial_agent_runtime.Batch.Preflight.WellFormed.{IsWellFormed, validate_batch-IsWellFormed}
use industrial_agent_runtime.Prelude.{
  ℕ, ◌==◌, ◌↔◌, contains, arith, if◌then◌else◌, String, ◌≡◌, refl, true, false, List, [], ◌∷◌, Dict,
}
use industrial_agent_runtime.Json.{object, end}
use industrial_agent_runtime.Actions.{WorkItem, WorkBatch, tool}
use industrial_agent_runtime.Decisions.{Result, ok, err}
use industrial_agent_runtime.Batch.Waves.{ready, waiting, is_cyclic}
use industrial_agent_runtime.Batch.Preflight.{
  Sized, index, add_draw, dependencies, requested_in, requested, is_counter, request_supported,
  check_tool, check_item, check_items, too_much, check_amounts, check_request_draw, check_draws,
  check_requested, check_effect, batch_draw, check_requests, validate_batch,
}
use industrial_agent_runtime.Gates.Authorize.{static_check}
use industrial_agent_runtime.Accounting.{start_usage}
use industrial_agent_runtime.Examples.Configuration.{
  simulate_request, valve_request, task, known, pipeline,
}
use industrial_agent_runtime.Examples.Results.{verification}

unfoldable pub batching : Unit {0}
unfolding verification ready waiting is_cyclic index add_draw dependencies requested_in requested
    is_counter request_supported check_tool check_item check_items too_much check_amounts
    check_request_draw check_draws check_requested check_effect batch_draw check_requests
    validate_batch static_check
batching = tt

abbrev pub simulation : WorkItem
simulation = record {
  work_id = "simulate";
  depends_on = [];
  request_or_subtask = tool simulate_request;
  budget_request = object end;
  status = "PENDING";
}

abbrev pub opening : WorkItem
opening = record {
  work_id = "open";
  depends_on = "simulate" ∷ [];
  request_or_subtask = tool valve_request;
  budget_request = object end;
  status = "PENDING";
}

abbrev pub batch : WorkBatch
batch = record {
  batch_id = "b1";
  objective = "fill the tank";
  items = opening ∷ simulation ∷ [];
  budget_request = object end;
  completion_policy = "ALL_SETTLED";
}

pub sized_from : Result (Dict Sized) → Dict Sized
sized_from (ok sized) = sized
sized_from (err e) = []

abbrev pub sized : Dict Sized
unfolding batching sized_from
sized = sized_from (validate_batch pipeline known [] true (start_usage task.budget) batch)

pub batch_validated :
    validate_batch pipeline known [] true (start_usage task.budget) batch ≡ ok sized
unfolding batching sized_from
batch_validated = refl

validate_batch-IsWellFormed_example : IsWellFormed pipeline known [] batch
validate_batch-IsWellFormed_example =
    validate_batch-IsWellFormed pipeline known [] true (start_usage task.budget) batch sized
      batch_validated

-- The dependencies of the batch, and the names in them.
abbrev batch_dependencies : String → List String
batch_dependencies k = if k == "open" then "simulate" ∷ [] else []

batch-closed :
    (k d : String)
    → contains k ("open" ∷ "simulate" ∷ []) ≡ true
    → contains d (batch_dependencies k) ≡ true
    → contains d ("open" ∷ "simulate" ∷ []) ≡ true
unfolding contains
batch-closed k d listed dep = ground (arith, listed, dep)

is_cyclic_iff_example :
    (is_cyclic batch_dependencies 2 [] ("open" ∷ "simulate" ∷ []) ≡ false)
    ↔ ((rank : String → ℕ) × IsRanked batch_dependencies rank ("open" ∷ "simulate" ∷ []))
is_cyclic_iff_example = is_cyclic_iff batch_dependencies ("open" ∷ "simulate" ∷ []) batch-closed
