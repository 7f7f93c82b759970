-- ===== src/Gates/Static.antt =====
-- The first two gates of `static_check` in src/industrial_agent_runtime/gates.py: G0, the request
-- against the tool's schema and the known references, and G1, the authority. G2's sizing is in
-- Gates/Reservation.
use industrial_agent_runtime.Prelude.{
  String, Bool, false, not, ◌&&◌, ◌||◌, none, some, List, [], ◌∷◌, ◌++◌, Dict, get, contains,
  subset, is_nil, is_some,
}
use industrial_agent_runtime.Json.{object, Fields}
use industrial_agent_runtime.Contracts.{
  InformationRef, ToolSpec, ToolCallRequest, is_agent, eqb_ref,
}
use industrial_agent_runtime.Decisions.{Result, ok, ◌>>=◌, ◌>>◌, refuse_if, g0_schema, g1_authority}
use industrial_agent_runtime.Schema.{schema_errors}
use industrial_agent_runtime.Schema.Instance.{instance_errors}
use industrial_agent_runtime.Refs.{ref_envelopes, parse_ref}
use industrial_agent_runtime.Gates.Policy.{contains_class, allows_tool, parent}
use industrial_agent_runtime.Gates.Pipeline.{GatePipeline, refusal, deny_as}

-- What a caller submits: a typed request, or anything else, with the id read off it.
pub data Submitted : Type 0 where
  typed : ToolCallRequest → Submitted
  untyped : (request_id : String) → Submitted

-- `known_refs.get(ref.ref_id) == ref`
unfoldable pub is_known : Dict InformationRef → InformationRef → Bool
is_known known ref = elim (get ref.ref_id known) [ none ↦ false | some r ↦ eqb_ref r ref ]

module _ (g : GatePipeline) where
  unfoldable pub check_envelope : String → Dict InformationRef → Fields → Result (Unit {0})
  check_envelope id known envelope = elim (parse_ref envelope) [
    | none ↦ deny_as g id g0_schema "MALFORMED_REF"
    | some ref ↦ do
      refuse_if (not (is_agent ref.visibility)) (refusal g id g0_schema "HIDDEN_REF")
      refuse_if (not (is_known known ref)) (refusal g id g0_schema "UNKNOWN_REF")
  ]

  -- `_check_refs`, over the envelopes of the arguments.
  unfoldable pub check_refs : String → Dict InformationRef → List Fields → Result (Unit {0})
  check_refs id known [] = ok tt
  check_refs id known (e ∷ es) = check_envelope id known e >> check_refs id known es

  unfoldable pub find_spec : ToolCallRequest → Result ToolSpec
  find_spec request = elim (get request.tool_name g.specs) [
    | none ↦ deny_as g request.request_id g0_schema "UNKNOWN_TOOL"
    | some spec ↦ ok spec
  ]

  -- G0: the schemas lie in the subset, the arguments conform, the references are known.
  unfoldable pub check_schema : ToolCallRequest → ToolSpec → Dict InformationRef → Result (Unit {0})
  check_schema request spec known = do
    let id = request.request_id
    input ← schema_errors g.re [] spec.input_schema
    output ← schema_errors g.re [] spec.output_schema
    refuse_if (not (is_nil (input ++ output))) (refusal g id g0_schema "UNSUPPORTED_SCHEMA")
    problems ← instance_errors g.re [] (object request.arguments) spec.input_schema
    refuse_if (not (is_nil problems)) (refusal g id g0_schema "INVALID_ARGUMENTS")
    check_refs id known (ref_envelopes (object request.arguments))

  -- G1: tool, delegation, class and tags.
  unfoldable pub check_authority : ToolCallRequest → ToolSpec → Result (Unit {0})
  check_authority request spec = do
    let id = request.request_id
    refuse_if
        (not (contains request.tool_name g.task.allowed_tools)
          || not (allows_tool g.policy request.tool_name))
        (refusal g id g1_authority "TOOL_NOT_ALLOWLISTED")
    refuse_if (is_some g.task.parent_task_id && not (is_some (parent g.policy)))
        (refusal g id g1_authority "CHILD_AUTHORITY_UNDELEGATED")
    refuse_if (not (contains_class spec.side_effect_class g.policy.granted_side_effect_classes))
        (refusal g id g1_authority "CLASS_NOT_GRANTED")
    refuse_if (not (subset spec.required_policy_tags g.policy.granted_policy_tags))
        (refusal g id g1_authority "POLICY_TAG_NOT_GRANTED")
