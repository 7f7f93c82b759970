-- ===== src/Examples/Configuration.antt =====
-- The configuration: task, tools, policies and hooks.
use industrial_agent_runtime.Prelude.{ℕ, true, none, some, [], ◌∷◌, Dict, pos}
use industrial_agent_runtime.Json.{
  Json, null, int, string, array, object, nil, cons, Fields, end, field, units,
}
use industrial_agent_runtime.Contracts.{
  Revision, number, agent, simulate, read, mutate, InformationRef, Task, ToolSpec, ToolCallRequest,
}
use industrial_agent_runtime.Decisions.{ok, allow, GateStage}
use industrial_agent_runtime.Schema.{Regex}
use industrial_agent_runtime.Gates.Policy.{Grants, GatePolicy}
use industrial_agent_runtime.Gates.Pipeline.{
  GatePipeline, json, Consumer, Approval, Resolver, Reading,
}

abbrev pub any_pattern : Regex
any_pattern = record { compiles = λ p. true; search = λ p s. true }

abbrev pub seconds_schema : Json
seconds_schema = object (
    field "type" (string "object") (
      field "properties"
        (object (
          field "seconds"
            (object (field "type" (string "integer") (field "minimum" (int (pos 1)) end)))
            (field "source" (object end) end)))
        (field "required" (array (cons (string "seconds") nil)) end)))

abbrev pub simulate_tank : ToolSpec
simulate_tank = record {
  name = "simulate_tank";
  description = "Run the tank model.";
  input_schema = seconds_schema;
  output_schema = object end;
  side_effect_class = simulate;
  required_policy_tags = "tank" ∷ [];
  declared_budget_draw = ("sim_seconds", string "seconds * 2") ∷ ("samples", int (pos 3)) ∷ [];
  max_budget_draw = ("sim_seconds", int (pos 10)) ∷ [];
  isolation_guarantee = some "SANDBOX";
  provider_metadata = end;
}

abbrev pub set_valve : ToolSpec
set_valve = record {
  name = "set_valve";
  description = "Set the valve.";
  input_schema = seconds_schema;
  output_schema = object end;
  side_effect_class = mutate;
  required_policy_tags = [];
  declared_budget_draw = [];
  max_budget_draw = [];
  isolation_guarantee = none;
  provider_metadata = end;
}

abbrev pub measure_ref : InformationRef
measure_ref = record {
  ref_id = "r1";
  kind = "Measurement";
  owner = "plant";
  version = "v1";
  visibility = agent;
  created_at = "t0";
  checksum = null;
}

abbrev pub task : Task
task = record {
  task_id = "task-1";
  goal = "fill the tank";
  context_refs = measure_ref ∷ [];
  allowed_tools = "simulate_tank" ∷ "set_valve" ∷ [];
  budget = record {
    max_model_calls = 5;
    max_tool_calls = 4;
    max_subagents = 0;
    max_subagent_depth = 0;
    max_steps = 9;
    max_total_tokens = none;
    max_parallel_width = none;
    extra_dimensions = ("sim_seconds", units 20) ∷ ("samples", units 5) ∷ [];
  };
  output_schema = object end;
  parent_task_id = none;
  metadata = end;
}

abbrev pub operator_grants : Grants
operator_grants = record {
  policy_version = "operator-1";
  granted_side_effect_classes = read ∷ simulate ∷ mutate ∷ [];
  granted_policy_tags = "tank" ∷ "valve" ∷ [];
  simulation_dimensions = "sim_seconds" ∷ [];
  approval_required_for = mutate ∷ [];
  tool_allowlist = some ("simulate_tank" ∷ "set_valve" ∷ []);
}

abbrev pub operator : GatePolicy
operator = record { own = operator_grants; ancestors = [] }

abbrev pub known : Dict InformationRef
known = ("r1", measure_ref) ∷ []

-- The consumer allows every request at the revision that it is shown.
abbrev pub consent : Consumer
consent request spec t revision usage = ok (
    some (record {
      request_id = request.request_id;
      decision = allow;
      stage = GateStage.consumer;
      reason_code = "FINE";
      policy_version = "plant-1";
      validator_refs = [];
      reserved_budget_draw = [];
      expected_state_revision = some revision;
      normalized_request_ref = none;
    }))

abbrev pub approve_all : Approval
approve_all frozen = ok "APPROVE"

-- The resolver bounds the simulation by six seconds.
abbrev pub six_seconds : Resolver
six_seconds request spec = ok (some (("sim_seconds", json (int (pos 6))) ∷ []))

abbrev pub pipeline : GatePipeline
pipeline = record {
  task = task;
  specs = ("simulate_tank", simulate_tank) ∷ ("set_valve", set_valve) ∷ [];
  policy = operator;
  consumer = some consent;
  approval = some approve_all;
  has_reference_guard = true;
  resolver = some six_seconds;
  re = any_pattern;
  digest = λ spec. spec.name;
  normalized = λ s. s;
}

abbrev pub arguments : Fields
arguments = field "seconds" (int (pos 3)) (
    field "source"
      (object (
        field "ref_id" (string "r1") (
          field "kind" (string "Measurement") (
            field "owner" (string "plant") (
              field "version" (string "v1")
                (field "visibility" (string "AGENT") (field "created_at" (string "t0") end)))))))
      end)

abbrev pub simulate_request : ToolCallRequest
simulate_request = record { request_id = "q1"; tool_name = "simulate_tank"; arguments = arguments }

abbrev pub valve_request : ToolCallRequest
valve_request = record { request_id = "q2"; tool_name = "set_valve"; arguments = arguments }

abbrev pub usage : Dict ℕ
usage =
    ("model_calls", units 1)
    ∷ ("tool_calls", units 1)
    ∷ ("steps", units 2)
    ∷ ("subagents", 0)
    ∷ ("samples", 0)
    ∷ ("sim_seconds", units 14)
    ∷ []

abbrev pub revision : Revision
revision = number (pos 7)

abbrev pub reading : Reading
reading = ok (some (number (pos 3)))
