-- ===== src/Examples/Ingestion.antt =====
-- The theorems on the verification, on a result of the simulation.
use industrial_agent_runtime.Knowledge.{start_known, learn}
use industrial_agent_runtime.Knowledge.Visible.{
  IsVisible, start_known-AllEntries, verify-learn-AllEntries,
}
use industrial_agent_runtime.Prelude.{AllEntries-insert, AllEntries-nil, refl, []}
use industrial_agent_runtime.Prelude.{
  ◌≡◌, ◌++◌, refl, true, false, some, [], ◌∷◌, map, Dict, AllEntries,
}
use industrial_agent_runtime.Json.{object, end, field}
use industrial_agent_runtime.Contracts.{InformationRef, ToolResult, FinishProposal, typed_ref}
use industrial_agent_runtime.Decisions.{ok, VerificationDecision, VerificationStage}
use industrial_agent_runtime.Schema.{schema_errors}
use industrial_agent_runtime.Schema.Instance.{instance_errors}
use industrial_agent_runtime.Refs.{ref_envelopes}
use industrial_agent_runtime.Verification.References.Declared.{IsEntry, AllKept, AllCovered}
use industrial_agent_runtime.Verification.Provenance.{tool_result}
use industrial_agent_runtime.Verification.Outcome.{verify_finish}
use industrial_agent_runtime.Verification.Outcome.Accepted.{IsVerified, verify-IsVerified}
use industrial_agent_runtime.Verification.Outcome.Ingested.{
  AllIngestible, verify-AllCovered, verify-AllIngestible, verify_finish-AllKept,
}
use industrial_agent_runtime.Examples.Configuration.{
  any_pattern, simulate_request, simulate_tank, task, known, measure_ref, revision,
}
use industrial_agent_runtime.Examples.Results.{
  verification, envelope, level_result, ingestion, accounting, verified, level_verified,
}

verify-IsVerified_example :
    IsVerified ingestion
      (tool_result level_result)
      simulate_request
      simulate_tank
      accounting
      known
      known
      revision
      (ok revision)
      verified
verify-IsVerified_example =
    verify-IsVerified ingestion (tool_result level_result) simulate_request simulate_tank accounting
      known known revision (ok revision) verified level_verified

verify-AllCovered_example :
    (r : ToolResult) × (tool_result level_result ≡ tool_result r)
    × AllEntries (IsEntry known known false) verified.refs
    × AllKept verified.refs (r.information_refs ++ r.artifact_refs)
    × AllCovered verified.refs known (ref_envelopes r.structured_output)
verify-AllCovered_example =
    verify-AllCovered ingestion (tool_result level_result) simulate_request simulate_tank accounting
      known known revision (ok revision) verified level_verified

verify-AllIngestible_example : AllIngestible verified.refs known revision verified.deltas
verify-AllIngestible_example =
    verify-AllIngestible ingestion (tool_result level_result) simulate_request simulate_tank
      accounting known known revision (ok revision) verified level_verified

abbrev proposal : FinishProposal
proposal = record {
  structured_output = object (field "source" (envelope "r1" "Measurement") end);
  information_refs = measure_ref ∷ [];
  artifact_refs = [];
}

abbrev finished : VerificationDecision
finished = record {
  subject_id = "task-1";
  accepted = true;
  stage = VerificationStage.other "VERIFIED";
  reason_code = "VERIFIED";
  expected_state_revision = some revision;
  passed_stages = VerificationStage.finish ∷ [];
}

finish_verified : verify_finish ingestion proposal task known revision ≡ ok finished
unfolding verification
finish_verified = refl

verify_finish-AllKept_example :
    (schema_errors any_pattern [] task.output_schema ≡ ok [])
    × (instance_errors any_pattern [] proposal.structured_output task.output_schema ≡ ok [])
    × ((refs : Dict InformationRef) × AllEntries (IsEntry known known true) refs
        × AllKept refs (map typed_ref (proposal.information_refs ++ proposal.artifact_refs))
        × AllCovered refs known (ref_envelopes proposal.structured_output))
verify_finish-AllKept_example =
    verify_finish-AllKept ingestion proposal task known revision finished finish_verified

start_known-AllEntries_example : AllEntries IsVisible (start_known task)
start_known-AllEntries_example = start_known-AllEntries task

known-AllEntries : AllEntries IsVisible known
unfolding verification
known-AllEntries =
    AllEntries-insert IsVisible [] "r1" measure_ref (AllEntries-nil IsVisible) (refl, refl)

verify-learn-AllEntries_example : AllEntries IsVisible (learn known verified.refs)
verify-learn-AllEntries_example =
    verify-learn-AllEntries ingestion (tool_result level_result) simulate_request simulate_tank
      accounting known known revision (ok revision) verified known-AllEntries level_verified
