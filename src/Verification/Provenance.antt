-- ===== src/Verification/Provenance.antt =====
-- The stages V0 to V2 of `verify` in src/industrial_agent_runtime/verification.py: the identity, the
-- provenance and the output schema of a result.
use industrial_agent_runtime.Prelude.{
  String, ◌==◌, Bool, true, false, not, Option, none, some, [], is_nil,
}
use industrial_agent_runtime.Json.{Json, string, object, Fields, member}
use industrial_agent_runtime.Contracts.{ToolSpec, ToolCallRequest, ToolResult}
use industrial_agent_runtime.Decisions.{
  Result, ok, err, ◌>>=◌, ◌>>◌, refuse_if, v0_identity, v1_provenance, VerificationStage,
}
use industrial_agent_runtime.Schema.{Regex, schema_errors}
use industrial_agent_runtime.Schema.Instance.{instance_errors}
use industrial_agent_runtime.Refs.{text_of}
use industrial_agent_runtime.Verification.Run.{Run, rejection}

-- What the executor returned.
pub data Returned : Type 0 where
  tool_result : ToolResult → Returned
  untyped_result : Returned

unfoldable pub check_identity : Run → Returned → ToolCallRequest → Result ToolResult
check_identity run untyped_result request = err (rejection run v0_identity "UNTYPED_RESULT")
check_identity run (tool_result r) request = do
  refuse_if (not (r.request_id == request.request_id)) (rejection run v0_identity "MISBOUND_RESULT")
  refuse_if (not (r.status == "SUCCESS")) (rejection run v0_identity "TOOL_NOT_SUCCEEDED")
  ok r

-- The version that the ToolSpec pins differs from the one that the result reports.
unfoldable pub contradicts : Option String → String → Bool
contradicts none version = false
contradicts (some pinned) version = not (version == pinned)

-- `name in provenance and provenance[name] != expected`
unfoldable pub differs : Option Json → String → Bool
differs none expected = false
differs (some (string s)) expected = not (s == expected)
differs (some v) expected = true

unfoldable pub check_version : Run → Fields → ToolSpec → Result (Unit {0})
check_version run provenance spec = elim (text_of (member "tool_version" provenance)) [
  | none ↦ err (rejection run v1_provenance "MISSING_PROVENANCE_FIELD")
  | some version ↦
      refuse_if (contradicts (text_of (member "tool_version" spec.provider_metadata)) version)
        (rejection run v1_provenance "TOOL_VERSION_MISMATCH")
]

unfoldable pub check_provenance : Run → Json → ToolCallRequest → ToolSpec → Result (Unit {0})
check_provenance run (object provenance) request spec = do
  check_version run provenance spec
  refuse_if (differs (member "request_id" provenance) request.request_id)
      (rejection run v1_provenance "PROVENANCE_MISMATCH")
  refuse_if (differs (member "tool_name" provenance) request.tool_name)
      (rejection run v1_provenance "PROVENANCE_MISMATCH")
check_provenance run v request spec = err (rejection run v1_provenance "MISSING_PROVENANCE")

-- `schema_errors(schema) or instance_errors(output, schema)` is empty.
unfoldable pub check_output :
    Run → Regex → VerificationStage → String → Json → Json → Result (Unit {0})
check_output run re stage code output schema = do
  unsupported ← schema_errors re [] schema
  refuse_if (not (is_nil unsupported)) (rejection run stage code)
  problems ← instance_errors re [] output schema
  refuse_if (not (is_nil problems)) (rejection run stage code)
