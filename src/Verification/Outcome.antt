-- ===== src/Verification/Outcome.antt =====
-- `ResultVerificationPipeline` of src/industrial_agent_runtime/verification.py: `verify` and
-- `verify_finish`. The consumer's verifier and ingestor are hooks that may fail.
pub mod Accepted
pub mod Ingested
use industrial_agent_runtime.Prelude.{
  String, Bool, true, false, not, Option, none, some, List, [], ◌∷◌, ◌++◌, map, Dict, is_nil,
}
use industrial_agent_runtime.Contracts.{
  InformationRef, Revision, Task, ToolSpec, ToolCallRequest, ToolResult, StateDelta, FinishProposal,
  Cited, typed_ref, eqb_revision,
}
use industrial_agent_runtime.Decisions.{
  Result, ok, err, ◌>>=◌, ◌>>◌, refuse_if, VerificationDecision, v0_identity, v1_provenance,
  v2_output_schema, v3_refs, v4_accounting, v5_ingestion_structure, v6_revision, finish,
  VerificationStage,
}
use industrial_agent_runtime.Schema.{Regex}
use industrial_agent_runtime.Refs.{ref_envelopes}
use industrial_agent_runtime.Gates.Reconcile.{Reconciliation}
use industrial_agent_runtime.Verification.Run.{Run, rejection, pass, accept}
use industrial_agent_runtime.Verification.References.{check_refs}
use industrial_agent_runtime.Verification.Provenance.{
  Returned, check_identity, check_provenance, check_output,
}
use industrial_agent_runtime.Verification.Deltas.{Derived, check_deltas}

pub record ResultVerificationPipeline : Type 0 where
  pub verifier : ToolResult → ToolCallRequest → ToolSpec → List StateDelta → Revision → Result Bool
  pub ingestor : ToolResult → Result (List Derived)
  pub re : Regex

-- The references stand under their ids, in the order in which the result declares them.
pub record VerifiedResult : Type 0 where
  pub decision : VerificationDecision
  pub deltas : List StateDelta
  pub refs : Dict InformationRef

-- A verifier that raises or does not answer `True` rejects.
unfoldable pub check_verdict : Run → Result Bool → Result (Unit {0})
check_verdict run (err e) = err (rejection run VerificationStage.consumer "VERIFIER_ERROR")
check_verdict run (ok verdict) =
    refuse_if (not verdict) (rejection run VerificationStage.consumer "CONSUMER_REJECTED")

module _ (p : ResultVerificationPipeline) where
  unfoldable pub verify :
      Returned
      → ToolCallRequest
      → ToolSpec
      → Reconciliation
      → (known reserved : Dict InformationRef) → (current : Revision)
      → (revision_reader : Result Revision) → Result VerifiedResult
  verify result request spec accounting known reserved current revision_reader = do
    let run : Run = record { subject_id = request.request_id; revision = some current; passed = [] }
    r ← check_identity run result request
    let run₁ = pass run v0_identity
    check_provenance run₁ r.provenance request spec
    let run₂ = pass run₁ v1_provenance
    check_output run₂ p.re v2_output_schema "INVALID_OUTPUT" r.structured_output spec.output_schema
    let run₃ = pass run₂ v2_output_schema
    refs ←
        check_refs run₃ known (r.information_refs ++ r.artifact_refs)
          (ref_envelopes r.structured_output) reserved false
    let run₄ = pass run₃ v3_refs
    refuse_if (not (is_nil accounting.violations))
        (rejection run₄ v4_accounting "RECONCILIATION_VIOLATION")
    let run₅ = pass run₄ v4_accounting
    deltas ← check_deltas run₅ (p.ingestor r) refs known current
    let run₆ = pass run₅ v5_ingestion_structure
    check_verdict run₆ (p.verifier r request spec deltas current)
    let run₇ = pass run₆ VerificationStage.consumer
    now ← revision_reader
    refuse_if (not (eqb_revision now current)) (rejection run₇ v6_revision "STATE_CHANGED")
    ok (record { decision = accept (pass run₇ v6_revision); deltas = deltas; refs = refs })

  unfoldable pub verify_finish :
      FinishProposal
      → Task
      → (known : Dict InformationRef) → (current : Revision) → Result VerificationDecision
  verify_finish proposal task known current = do
    let run : Run = record { subject_id = task.task_id; revision = some current; passed = [] }
    check_output run p.re finish "INVALID_FINAL_OUTPUT" proposal.structured_output
        task.output_schema
    refs ←
        check_refs run known (map typed_ref (proposal.information_refs ++ proposal.artifact_refs))
          (ref_envelopes proposal.structured_output) known true
    ok (accept (pass run finish))
