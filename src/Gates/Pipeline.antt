-- ===== src/Gates/Pipeline.antt =====
-- `GatePipeline` of src/industrial_agent_runtime/gates.py: the parts that one evaluation reads.
-- The hooks are application code: the consumer's validator, the approval and the resolver are
-- functions that may raise, and `none` is an answer of the wrong type. The reference guard is read
-- anew at each use, so a use takes what it answers; here stands only whether there is one.
-- `re`, `digest` and `normalized` are Python's library: regular expressions, the checksum of a
-- ToolSpec (SHA-256 of its canonical JSON), and `text.strip().upper()`.
use industrial_agent_runtime.Prelude.{ℕ, String, Bool, Option, none, List, [], Dict, keys}
use industrial_agent_runtime.Json.{Json}
use industrial_agent_runtime.Contracts.{Revision, SideEffectClass, Task, ToolSpec, ToolCallRequest}
use industrial_agent_runtime.Decisions.{
  Error, Result, ok, err, gate_denied, value_error, refuse_if, GateDecision, GateStage, Verdict,
  deny, ◌>>◌,
}
use industrial_agent_runtime.Schema.{Regex}
use industrial_agent_runtime.Gates.Policy.{GatePolicy, standard_dimensions, overlaps}

-- What a resolver may answer for a dimension: a JSON value, or another Python value, such as a
-- float that is not finite.
pub data Raw : Type 0 where
  json : Json → Raw
  opaque : Raw

pub data ReservationOrigin : Type 0 where
  declared request_bound max_fallback : ReservationOrigin

-- Amounts are in quanta.
pub record ResolvedReservation : Type 0 where
  pub draw : Dict ℕ
  pub origins : Dict ReservationOrigin

pub record FrozenRequest : Type 0 where
  pub request : ToolCallRequest
  pub spec_checksum : String
  pub side_effect_class : SideEffectClass
  pub reserved_budget_draw : Dict ℕ
  pub expected_state_revision : Revision
  pub expected_reference_revision : Option Revision
  pub policy_version : String
  pub decisions : List GateDecision
  pub reservation_origins : Dict ReservationOrigin

abbrev pub Consumer : Type 0
Consumer = ToolCallRequest → ToolSpec → Task → Revision → Dict ℕ → Result (Option GateDecision)

abbrev pub Approval : Type 0
Approval = FrozenRequest → Result String

abbrev pub Resolver : Type 0
Resolver = ToolCallRequest → ToolSpec → Result (Option (Dict Raw))

-- What the guard answers at one moment; `none` is neither an integer nor a string.
abbrev pub Reading : Type 0
Reading = Result (Option Revision)

pub record GatePipeline : Type 0 where
  pub task : Task
  pub specs : Dict ToolSpec
  pub policy : GatePolicy
  pub consumer : Option Consumer
  pub approval : Option Approval
  pub has_reference_guard : Bool
  pub resolver : Option Resolver
  pub re : Regex
  pub digest : ToolSpec → String
  pub normalized : String → String

-- The constructor: no extra dimension of the task may be spelled like a standard counter.
unfoldable pub make_pipeline : GatePipeline → Result GatePipeline
make_pipeline g = do
  refuse_if (overlaps (keys g.task.budget.extra_dimensions) standard_dimensions) value_error
  ok g

unfoldable pub decision : GatePipeline → String → GateStage → String → Verdict → GateDecision
decision g request_id stage reason_code verdict = record {
  request_id = request_id;
  decision = verdict;
  stage = stage;
  reason_code = reason_code;
  policy_version = g.policy.policy_version;
  validator_refs = [];
  reserved_budget_draw = [];
  expected_state_revision = none;
  normalized_request_ref = none;
}

-- `_deny`
unfoldable pub refusal : GatePipeline → String → GateStage → String → Error
unfolding decision
refusal g request_id stage reason_code = gate_denied (decision g request_id stage reason_code deny)

abbrev pub deny_as {ℓ} : {A : Type ℓ} → GatePipeline → String → GateStage → String → Result A
deny_as g request_id stage reason_code = err (refusal g request_id stage reason_code)
