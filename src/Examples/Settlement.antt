-- ===== src/Examples/Settlement.antt =====
-- The theorems on the accounting, on a result of the simulation.
use industrial_agent_runtime.Prelude.{
  ℕ, true, contains, ◌≡◌, refl, none, [], ◌∷◌, Dict, insert, IsDict,
}
use industrial_agent_runtime.Json.{units}
use industrial_agent_runtime.Decisions.{Result, ok, err}
use industrial_agent_runtime.Gates.Pipeline.{FrozenRequest}
use industrial_agent_runtime.Gates.Static.{typed}
use industrial_agent_runtime.Gates.Authorize.{authorize}
use industrial_agent_runtime.Verification.Provenance.{tool_result}
use industrial_agent_runtime.Accounting.{start_usage, charge, Settlement, settle}
use industrial_agent_runtime.Accounting.WithinQuota.{authorize-settle-IsCounted}
use industrial_agent_runtime.Gates.Policy.{standard_dimensions}
use industrial_agent_runtime.Accounting.Usage.{
  IsCounted, IsUsage, IsUsage-IsCounted, one-IsCounterDraw,
}
use industrial_agent_runtime.Accounting.Preserved.{start_usage-IsUsage, charge-IsUsage}
use industrial_agent_runtime.Examples.Configuration.{
  simulate_request, task, known, revision, reading, pipeline,
}
use industrial_agent_runtime.Examples.Evaluation.{frozen_from, blank}
use industrial_agent_runtime.Examples.Results.{verification, level_result, accounting}

start_usage-IsUsage_example : IsUsage task.budget (start_usage task.budget)
start_usage-IsUsage_example = start_usage-IsUsage task.budget

abbrev called_usage : Dict ℕ
unfolding verification
called_usage = insert "model_calls" (units 1) (start_usage task.budget)

model_called :
    charge task.budget (start_usage task.budget) (("model_calls", units 1) ∷ []) ≡ ok called_usage
unfolding verification
model_called = refl

one_call-IsDict : IsDict (("model_calls", units 1) ∷ [])
unfolding verification
one_call-IsDict = (refl, tt)

counter_standard : contains "model_calls" standard_dimensions ≡ true
unfolding verification
counter_standard = refl

charge-IsUsage_example : IsUsage task.budget called_usage
charge-IsUsage_example =
    charge-IsUsage task.budget (start_usage task.budget) (("model_calls", units 1) ∷ [])
      called_usage (start_usage-IsUsage task.budget) one_call-IsDict
      (one-IsCounterDraw "model_calls" counter_standard) model_called

called-IsUsage : IsUsage task.budget called_usage
called-IsUsage =
    charge-IsUsage task.budget (start_usage task.budget) (("model_calls", units 1) ∷ [])
      called_usage (start_usage-IsUsage task.budget) one_call-IsDict
      (one-IsCounterDraw "model_calls" counter_standard) model_called

abbrev called_frozen : FrozenRequest
unfolding verification frozen_from
called_frozen =
    frozen_from blank
      (authorize pipeline (typed simulate_request) known called_usage revision reading none)

called_authorized :
    authorize pipeline (typed simulate_request) known called_usage revision reading none
    ≡ ok called_frozen
unfolding verification frozen_from
called_authorized = refl

settled_from : Settlement → Result Settlement → Settlement
settled_from d (ok s) = s
settled_from d (err e) = d

abbrev settled : Settlement
unfolding verification settled_from
settled =
    settled_from (record { usage = []; accounting = accounting })
      (settle task.budget called_usage simulate_request called_frozen.reserved_budget_draw
        (tool_result level_result))

level_settled :
    settle task.budget called_usage simulate_request called_frozen.reserved_budget_draw
      (tool_result level_result)
    ≡ ok settled
unfolding verification settled_from frozen_from
level_settled = refl

called-IsCounted : IsCounted task.budget called_usage
called-IsCounted = IsUsage-IsCounted task.budget called_usage called-IsUsage

authorize-settle-IsCounted_example : IsCounted task.budget settled.usage
authorize-settle-IsCounted_example =
    authorize-settle-IsCounted pipeline simulate_request known called_usage revision reading none
      called_frozen (tool_result level_result) settled called-IsCounted called_authorized
      level_settled
