-- ===== src/Examples/Evaluation.antt =====
-- Runs of the gates on the configuration.
use Prim.Native.Nat.{◌/◌}
use industrial_agent_runtime.Prelude.{
  ℕ, ◌+◌, ◌*◌, ◌^◌, false, ◌≡◌, refl, true, none, some, [], ◌∷◌, Dict, get, has, contains, pos,
  sorted, subset, keys, insert, diff, ltb_ℤ, eqb_ℤ, leb_ℤ,
}
use industrial_agent_runtime.Json.{
  unit, Json, int, string, object, end, field, units, finite_amount, number_of, is_number, member,
  has_member,
}
use industrial_agent_runtime.Json.Equality.{py_eq}
use industrial_agent_runtime.Contracts.{
  read, mutate, simulate, eqb_ref, is_agent, eqb_revision, eqb_class,
}
use industrial_agent_runtime.Decisions.{Result, ok, err, for_each, overflow_error}
use industrial_agent_runtime.Schema.{
  schema_errors, keyword_errors, type_errors, required_errors, enum_errors, bound_errors,
  length_errors, pattern_errors, check_bounds,
}
use industrial_agent_runtime.Schema.Instance.{instance_errors}
use industrial_agent_runtime.Refs.{ref_envelopes, parse_ref}
use industrial_agent_runtime.Gates.Policy.{
  GatePolicy, allows_tool, contains_class, subset_classes, parent, overlaps,
}
use industrial_agent_runtime.Gates.Pipeline.{FrozenRequest, decision, refusal}
use industrial_agent_runtime.Gates.Static.{
  typed, find_spec, check_schema, check_authority, check_refs, check_envelope, is_known,
}
use industrial_agent_runtime.Gates.Reservation.{
  check_raw, resolve, reservation, reserve_names, amount_for, cap_of, sized_by, present, refine,
  consult, ask_resolver, resolve_names, resolved_amount, raw_amount, below_maximum, has_dynamic,
  is_dynamic, origins_of, origin_of, union, eqb_dict,
}
use industrial_agent_runtime.Gates.Budget.{
  check_budget, check_dimension, check_amount, exceeds, remaining, quota, used, reservable,
}
use industrial_agent_runtime.Gates.SideEffect.{
  check_side_effect, touches_simulation, isolates, draws_simulation, needs_guard,
}
use industrial_agent_runtime.Gates.Authorize.{
  authorize, static_check, same_spec, same_reference, check_fresh, check_reference, check_typed,
  reproduces, with_counters, merge, read_reference, ask_consumer, bound_to, is_deny, ask_approval,
  needs_approval, asks_approval, approve, approved_decision, freeze, check_dispatch,
}
use industrial_agent_runtime.Gates.Policy.{
  Grants, delegate, make_policy, check_child, check_parent, same_names, all_nonempty, grants_tool,
  all_grant_tool,
}
use industrial_agent_runtime.Gates.Policy.Delegation.{IsSound}
use industrial_agent_runtime.Gates.Reservation.{
  is_string, is_unsized, capped, eqb_origin, agree_at, agree_on, eqb_reservation,
}
use industrial_agent_runtime.Gates.Reconcile.{
  overflowing, tally, not_reported, reconcile, violations_of, charges, charge_for, is_charged, max,
  excess_draws, hidden_draws, invalid_draws, clean_draw, shape_violations, reported,
}
use industrial_agent_runtime.Amounts.{
  is_whole, spacing, nearest, rounded, sum, difference, float_limit, overflows, check_finite,
  any_overflow, overflow_in_items, overflow_in_fields,
}
use industrial_agent_runtime.Accounting.Spending.{all_whole}
use industrial_agent_runtime.Examples.Configuration.{
  operator_grants, operator, pipeline, simulate_request, valve_request, usage, revision, reading,
  known, any_pattern, simulate_tank, seconds_schema,
}

-- All that a run of the gates on the configuration computes.
unfoldable pub evaluation : Unit {0}
unfolding is_whole spacing nearest rounded sum difference float_limit overflows check_finite
    any_overflow overflow_in_items overflow_in_fields check_bounds check_raw overflowing tally unit
    is_number py_eq contains is_string is_unsized raw_amount capped same_names check_child
    check_parent make_policy delegate all_nonempty grants_tool all_grant_tool eqb_origin agree_at
    agree_on eqb_reservation same_spec same_reference check_fresh check_reference check_dispatch
    reported shape_violations clean_draw invalid_draws hidden_draws excess_draws max charge_for
    is_charged charges violations_of reconcile subset get has keys insert sorted diff ltb_ℤ eqb_ℤ
    leb_ℤ units finite_amount number_of member has_member eqb_ref is_agent eqb_revision eqb_class
    for_each schema_errors keyword_errors type_errors required_errors enum_errors bound_errors
    length_errors pattern_errors instance_errors ref_envelopes parse_ref allows_tool contains_class
    subset_classes parent overlaps decision refusal find_spec check_schema check_authority
    check_refs check_envelope is_known resolve reservation reserve_names amount_for cap_of sized_by
    present refine consult ask_resolver resolve_names resolved_amount below_maximum has_dynamic
    is_dynamic origins_of origin_of union eqb_dict check_budget check_dimension check_amount exceeds
    remaining quota used reservable check_side_effect touches_simulation isolates draws_simulation
    needs_guard authorize check_typed reproduces with_counters merge read_reference ask_consumer
    bound_to is_deny ask_approval needs_approval asks_approval approve approved_decision freeze
    static_check
evaluation = tt

unfoldable pub frozen_from : FrozenRequest → Result FrozenRequest → FrozenRequest
frozen_from d (ok f) = f
frozen_from d (err e) = d

abbrev pub blank : FrozenRequest
blank = record {
  request = simulate_request;
  spec_checksum = "";
  side_effect_class = simulate;
  reserved_budget_draw = [];
  expected_state_revision = revision;
  expected_reference_revision = none;
  policy_version = "";
  decisions = [];
  reservation_origins = [];
}

abbrev pub simulate_frozen : FrozenRequest
unfolding evaluation frozen_from
simulate_frozen =
    frozen_from blank
      (authorize pipeline (typed simulate_request) known usage revision reading none)

abbrev pub valve_frozen : FrozenRequest
unfolding evaluation frozen_from
valve_frozen =
    frozen_from blank (authorize pipeline (typed valve_request) known usage revision reading none)

pub simulate_authorized :
    authorize pipeline (typed simulate_request) known usage revision reading none
    ≡ ok simulate_frozen
unfolding evaluation frozen_from
simulate_authorized = refl

pub valve_authorized :
    authorize pipeline (typed valve_request) known usage revision reading none ≡ ok valve_frozen
unfolding evaluation frozen_from
valve_authorized = refl

pub valve_mutates : valve_frozen.side_effect_class ≡ mutate
unfolding evaluation frozen_from
valve_mutates = refl

pub simulated_seconds :
    get "sim_seconds" (with_counters simulate_frozen.reserved_budget_draw) ≡ some (units 6)
unfolding evaluation frozen_from
simulated_seconds = refl

pub operator-IsSound : IsSound operator
unfolding evaluation
operator-IsSound = record { no_admin = refl; mutate_approved = refl }

-- A resolver bound of six seconds replaces the declared maximum of ten.
pub simulate_sized :
    resolve pipeline simulate_request simulate_tank
    ≡ ok (record {
      draw = simulate_frozen.reserved_budget_draw;
      origins = simulate_frozen.reservation_origins;
    })
unfolding evaluation frozen_from
simulate_sized = refl

pub simulate_reserved : get "sim_seconds" simulate_frozen.reserved_budget_draw ≡ some (units 6)
unfolding evaluation frozen_from
simulate_reserved = refl

abbrev pub declared_draw : Dict ℕ
declared_draw = ("samples", units 3) ∷ ("sim_seconds", units 10) ∷ []

pub simulate_declared : reservation pipeline "q1" simulate_tank ≡ ok declared_draw
unfolding evaluation
simulate_declared = refl

abbrev pub child_grants : Grants
child_grants = record operator_grants {
  policy_version = "child-1";
  granted_side_effect_classes = read ∷ [];
  granted_policy_tags = "tank" ∷ [];
  tool_allowlist = some ("simulate_tank" ∷ []);
}

abbrev pub child : GatePolicy
child = record { own = child_grants; ancestors = operator_grants ∷ [] }

pub child_delegated :
    delegate operator "child-1" ("simulate_tank" ∷ []) (some (read ∷ [])) ("tank" ∷ []) ≡ ok child
unfolding evaluation
child_delegated = refl

pub operator_made : make_policy operator_grants none ≡ ok operator
unfolding evaluation
operator_made = refl

-- A report of four seconds and three samples, and one that hides the samples.
abbrev pub honest_report : Json
honest_report = object (field "sim_seconds" (int (pos 4)) (field "samples" (int (pos 3)) end))

abbrev pub hiding_report : Json
hiding_report = object (field "sim_seconds" (int (pos 4)) end)

abbrev pub reserved_draw : Dict ℕ
reserved_draw = ("sim_seconds", units 6) ∷ ("samples", units 3) ∷ []

pub honest_tallied :
    reconcile reserved_draw honest_report pipeline.task.budget
    ≡ ok (tally reserved_draw honest_report pipeline.task.budget)
unfolding evaluation
honest_tallied = refl

pub honest_clean : (tally reserved_draw honest_report pipeline.task.budget).violations ≡ []
unfolding evaluation
honest_clean = refl

pub honest_seconds :
    get "sim_seconds" (tally reserved_draw honest_report pipeline.task.budget).charged
    ≡ some (units 4)
unfolding evaluation
honest_seconds = refl

pub hiding_tallied :
    reconcile reserved_draw hiding_report pipeline.task.budget
    ≡ ok (tally reserved_draw hiding_report pipeline.task.budget)
unfolding evaluation
hiding_tallied = refl

pub hiding_violates :
    (tally reserved_draw hiding_report pipeline.task.budget).violations
    ≡ not_reported "samples" ∷ []
unfolding evaluation
hiding_violates = refl

-- An integer beyond the range of floats makes the reconciliation raise.
huge_raises :
    reconcile reserved_draw
      (object (field "samples" (int (pos (10 ^ 400))) end))
      pipeline.task.budget
    ≡ err overflow_error
unfolding evaluation
huge_raises = refl

-- The doubles 0.6, 1.1 and 1.7: the draw of 1.1 passes under the quota of 1.7 with 0.6 used, and the
-- usage behind it is the next double above 1.7.
abbrev tenths : ℕ → ℕ
tenths n = nearest (2 ^ 1022) (units n / 10)

rounding_passes :
    ltb_ℤ (difference (tenths 17) (5404319552844595 * 2 ^ 1021)) (pos (4953959590107546 * 2 ^ 1022))
    ≡ false
unfolding evaluation
rounding_passes = refl

rounding_exceeds :
    sum (5404319552844595 * 2 ^ 1021) (4953959590107546 * 2 ^ 1022) ≡ tenths 17 + 2 ^ 1022
unfolding evaluation
rounding_exceeds = refl

pub samples_reserved : has "samples" reserved_draw ≡ true
unfolding evaluation
samples_reserved = refl

pub samples_charged : is_charged pipeline.task.budget "samples" ≡ true
unfolding evaluation
samples_charged = refl

pub usage_whole : all_whole usage ≡ true
unfolding evaluation
usage_whole = refl

pub quotas_whole : all_whole pipeline.task.budget.extra_dimensions ≡ true
unfolding evaluation
quotas_whole = refl

pub three_readable : any_overflow (string "three") ≡ false
unfolding evaluation
three_readable = refl

pub seconds_accepted : schema_errors any_pattern [] seconds_schema ≡ ok []
unfolding evaluation
seconds_accepted = refl
