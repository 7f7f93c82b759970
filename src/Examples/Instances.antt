-- ===== src/Examples/Instances.antt =====
-- The theorems on the configuration.
use industrial_agent_runtime.Prelude.{
  ◌++◌, ◌↔◌, ℕ, ◌≡◌, ◌≢◌, ◌≤◌, true, ◌&&◌, none, some, [], ◌∷◌, get, contains, pos,
}
use industrial_agent_runtime.Json.{object, units}
use industrial_agent_runtime.Contracts.{ToolSpec, admin, read, number}
use industrial_agent_runtime.Decisions.{ok}
use industrial_agent_runtime.Schema.{schema_errors}
use industrial_agent_runtime.Schema.Instance.{instance_errors}
use industrial_agent_runtime.Refs.{ref_envelopes}
use industrial_agent_runtime.Gates.Policy.{GatePolicy, allows_tool}
use industrial_agent_runtime.Gates.Pipeline.{FrozenRequest, Approval}
use industrial_agent_runtime.Gates.Budget.{used}
use industrial_agent_runtime.Gates.Authorize.{approved_decision, check_dispatch}
use industrial_agent_runtime.Gates.Policy.Delegation.{
  IsSound, IsWithin, AllAbove, delegate-IsWithin_all, delegate-allows_tool, make_policy-IsSound,
}
use industrial_agent_runtime.Gates.Reservation.Bounds.{Fits}
use industrial_agent_runtime.Gates.Reservation.Resolve.{resolve-Fits, resolve-le-reservation}
use industrial_agent_runtime.Gates.Authorize.Mediation.{
  IsCitable, AllEnvelopes, HasAuthority, authorize-HasAuthority, authorize-IsCitable,
}
use industrial_agent_runtime.Gates.Authorize.Classes.{authorize-ne-admin, authorize-mutate-approved}
use industrial_agent_runtime.Gates.Authorize.Redispatch.{
  IsBound, check_dispatch_iff, authorize-check_dispatch,
}
use industrial_agent_runtime.Gates.Reconcile.{tally, is_charged}
use industrial_agent_runtime.Gates.Reconcile.Charges.{reconcile-le-reserved, reserved-le-reconcile}
use industrial_agent_runtime.Examples.Configuration.{
  operator_grants, arguments, operator, pipeline, simulate_request, valve_request, usage, revision,
  reading, known, any_pattern, simulate_tank,
}
use industrial_agent_runtime.Examples.Evaluation.{
  simulate_frozen, valve_frozen, simulate_authorized, valve_authorized, valve_mutates,
  operator-IsSound, simulate_sized, simulate_reserved, declared_draw, simulate_declared,
  child_grants, child, child_delegated, operator_made, honest_report, hiding_report, reserved_draw,
  honest_clean, honest_seconds, hiding_violates, samples_reserved, samples_charged, honest_tallied,
  hiding_tallied,
}

authorize-HasAuthority_example :
    (spec : ToolSpec) × HasAuthority pipeline simulate_request spec
    × (simulate_frozen.request ≡ simulate_request)
    × (simulate_frozen.spec_checksum ≡ pipeline.digest spec)
    × (simulate_frozen.side_effect_class ≡ spec.side_effect_class)
authorize-HasAuthority_example =
    authorize-HasAuthority pipeline simulate_request known usage revision reading none
      simulate_frozen simulate_authorized

authorize-mutate-approved_example :
    (hook : Approval) × (shown : FrozenRequest) × (pipeline.approval ≡ some hook)
    × (hook shown ≡ ok "APPROVE")
    × (valve_frozen
        ≡ record shown { decisions = shown.decisions ++ approved_decision pipeline shown ∷ [] })
authorize-mutate-approved_example =
    authorize-mutate-approved pipeline valve_request known usage revision reading none valve_frozen
      operator-IsSound valve_authorized valve_mutates

authorize-ne-admin_example : valve_frozen.side_effect_class ≢ admin
authorize-ne-admin_example =
    authorize-ne-admin pipeline valve_request known usage revision reading none valve_frozen
      valve_authorized

authorize-IsCitable_example :
    (spec : ToolSpec) × (get "simulate_tank" pipeline.specs ≡ some spec)
    × (schema_errors any_pattern [] spec.input_schema ≡ ok [])
    × (instance_errors any_pattern [] (object arguments) spec.input_schema ≡ ok [])
    × AllEnvelopes (IsCitable known) (ref_envelopes (object arguments))
authorize-IsCitable_example =
    authorize-IsCitable pipeline simulate_request known usage revision reading none simulate_frozen
      simulate_authorized

authorize-check_dispatch_example : check_dispatch pipeline valve_frozen revision reading ≡ ok tt
authorize-check_dispatch_example =
    authorize-check_dispatch pipeline valve_request known usage revision reading none valve_frozen
      valve_authorized

check_dispatch_iff_example :
    (check_dispatch pipeline valve_frozen (number (pos 8)) reading ≡ ok tt)
    ↔ IsBound pipeline valve_frozen (number (pos 8)) reading
check_dispatch_iff_example = check_dispatch_iff pipeline valve_frozen (number (pos 8)) reading

resolve-Fits_example : Fits simulate_tank "sim_seconds" (units 6)
resolve-Fits_example =
    resolve-Fits pipeline simulate_request simulate_tank
      (record {
        draw = simulate_frozen.reserved_budget_draw;
        origins = simulate_frozen.reservation_origins;
      })
      "sim_seconds" (units 6) simulate_sized simulate_reserved

resolve-le-reservation_example :
    (sized : ℕ) × (get "sim_seconds" declared_draw ≡ some sized) × (units 6 ≤ sized)
resolve-le-reservation_example =
    resolve-le-reservation pipeline simulate_request simulate_tank declared_draw
      (record {
        draw = simulate_frozen.reserved_budget_draw;
        origins = simulate_frozen.reservation_origins;
      })
      "sim_seconds" (units 6) simulate_declared simulate_sized simulate_reserved

delegate-IsWithin_all_example :
    IsSound child × AllAbove (IsWithin child_grants) (operator_grants ∷ [])
delegate-IsWithin_all_example =
    delegate-IsWithin_all operator child "child-1" ("simulate_tank" ∷ []) (some (read ∷ []))
      ("tank" ∷ []) operator-IsSound child_delegated

delegate-allows_tool_example :
    allows_tool child "set_valve"
    ≡ (contains "set_valve" ("simulate_tank" ∷ []) && allows_tool operator "set_valve")
delegate-allows_tool_example =
    delegate-allows_tool operator child "child-1" ("simulate_tank" ∷ []) (some (read ∷ []))
      ("tank" ∷ []) "set_valve" child_delegated

no_parent : (q : GatePolicy) → none ≡ some q → IsSound q
no_parent q h = absurd (cc)

make_policy-IsSound_example : IsSound operator
make_policy-IsSound_example =
    make_policy-IsSound operator_grants none operator no_parent operator_made

reconcile-le-reserved_example :
    (is_charged pipeline.task.budget "sim_seconds" ≡ true)
    × (units 4 ≤ used reserved_draw "sim_seconds")
reconcile-le-reserved_example =
    reconcile-le-reserved reserved_draw honest_report pipeline.task.budget
      (tally reserved_draw honest_report pipeline.task.budget) "sim_seconds" (units 4)
      honest_tallied honest_clean honest_seconds

hiding_guilty : (tally reserved_draw hiding_report pipeline.task.budget).violations ≢ []
hiding_guilty h = absurd (cc (hiding_violates))

reserved-le-reconcile_example :
    (c : ℕ) × (get "samples" (tally reserved_draw hiding_report pipeline.task.budget).charged
      ≡ some c)
    × (used reserved_draw "samples" ≤ c)
reserved-le-reconcile_example =
    reserved-le-reconcile reserved_draw hiding_report pipeline.task.budget
      (tally reserved_draw hiding_report pipeline.task.budget) "samples" hiding_tallied
      hiding_guilty samples_reserved samples_charged
