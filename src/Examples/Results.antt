-- ===== src/Examples/Results.antt =====
-- A result of the simulation, its verification and its accounting.
use industrial_agent_runtime.Prelude.{String, ◌≡◌, refl, true, false, none, some, [], ◌∷◌, pos}
use industrial_agent_runtime.Json.{Json, object, int, string, end, field}
use industrial_agent_runtime.Contracts.{InformationRef, number, ToolResult, typed_ref}
use industrial_agent_runtime.Decisions.{Result, ok, err, VerificationStage}
use industrial_agent_runtime.Gates.Reconcile.{Reconciliation, tally}
use industrial_agent_runtime.Verification.Run.{rejection, pass, accept}
use industrial_agent_runtime.Verification.References.{
  is_checksum, is_ref, conflicts, names_agent, stage_of, check_ref, check_declared,
  check_embedded_one, check_embedded, check_refs,
}
use industrial_agent_runtime.Verification.Provenance.{
  tool_result, check_identity, contradicts, differs, check_version, check_provenance, check_output,
}
use industrial_agent_runtime.Verification.Deltas.{
  typed_delta, well_formed, any_hidden, hides, any_unknown, is_unknown, stamp, check_reasons,
  check_deltas,
}
use industrial_agent_runtime.Verification.Outcome.{
  ResultVerificationPipeline, VerifiedResult, verify, verify_finish, check_verdict,
}
use industrial_agent_runtime.Accounting.{
  zeros, start_usage, spend, any_exceeds, charge, as_report, actual_draw, settle,
}
use industrial_agent_runtime.Examples.Configuration.{
  any_pattern, simulate_request, simulate_tank, task, known, measure_ref, revision,
}
use industrial_agent_runtime.Examples.Evaluation.{evaluation, reserved_draw, honest_report}

unfoldable pub verification : Unit {0}
unfolding evaluation rejection pass accept is_checksum is_ref conflicts names_agent stage_of
    check_ref check_declared check_embedded_one check_embedded check_refs check_identity contradicts
    differs check_version check_provenance check_output well_formed any_hidden hides any_unknown
    is_unknown stamp check_reasons check_deltas verify verify_finish check_verdict zeros start_usage
    spend any_exceeds charge as_report actual_draw settle
verification = tt

abbrev pub level_ref : InformationRef
level_ref = record measure_ref { ref_id = "r2"; kind = "Level" }

abbrev pub envelope : String → String → Json
envelope id kind = object (
    field "ref_id" (string id) (
      field "kind" (string kind) (
        field "owner" (string "plant") (
          field "version" (string "v1")
            (field "visibility" (string "AGENT") (field "created_at" (string "t0") end))))))

-- The level, with the new reference and the measurement that it rests on.
abbrev pub level_result : ToolResult
level_result = record {
  request_id = "q1";
  status = "SUCCESS";
  structured_output = object (
      field "level" (int (pos 4)) (
        field "level_ref" (envelope "r2" "Level")
          (field "source" (envelope "r1" "Measurement") end)));
  actual_budget_draw = honest_report;
  provenance = object (field "tool_version" (string "7") (field "request_id" (string "q1") end));
  artifact_refs = [];
  information_refs = typed_ref level_ref ∷ [];
  error = none;
}

-- The ingestor names another producer and an older revision.
abbrev pub ingestion : ResultVerificationPipeline
ingestion = record {
  verifier = λ r request spec deltas current. ok true;
  ingestor = λ r. ok (
      typed_delta (record {
        operation = "set";
        target_ref_or_path = "tank.level";
        value_or_ref = int (pos 4);
        producer = "MODEL";
        proposed_base_revision = some (number (pos 1));
        reason_ref = some (typed_ref level_ref);
      })
      ∷ []);
  re = any_pattern;
}

abbrev pub accounting : Reconciliation
accounting = tally reserved_draw honest_report task.budget

unfoldable pub verified_from : VerifiedResult → Result VerifiedResult → VerifiedResult
verified_from d (ok v) = v
verified_from d (err e) = d

abbrev pub unverified : VerifiedResult
unverified = record {
  decision = record {
    subject_id = "";
    accepted = false;
    stage = VerificationStage.finish;
    reason_code = "";
    expected_state_revision = none;
    passed_stages = [];
  };
  deltas = [];
  refs = [];
}

abbrev pub verified : VerifiedResult
unfolding verification verified_from
verified = verified_from unverified (
    verify ingestion (tool_result level_result) simulate_request simulate_tank accounting known
      known revision (ok revision))

pub level_verified :
    verify ingestion
      (tool_result level_result)
      simulate_request
      simulate_tank
      accounting
      known
      known
      revision
      (ok revision)
    ≡ ok verified
unfolding verification verified_from
level_verified = refl
