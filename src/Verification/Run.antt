-- ===== src/Verification/Run.antt =====
-- `_Run` of src/industrial_agent_runtime/verification.py: the stages that one verification has passed.
use industrial_agent_runtime.Prelude.{String, true, false, Option, List, [], ◌∷◌, ◌++◌}
use industrial_agent_runtime.Contracts.{Revision}
use industrial_agent_runtime.Decisions.{
  VerificationStage, VerificationDecision, Error, verification_rejected,
}

pub record Run : Type 0 where
  pub subject_id : String
  pub revision : Option Revision
  pub passed : List VerificationStage

-- `_Run.reject`
unfoldable pub rejection : Run → VerificationStage → String → Error
rejection run stage code = verification_rejected (record {
  subject_id = run.subject_id;
  accepted = false;
  stage = stage;
  reason_code = code;
  expected_state_revision = run.revision;
  passed_stages = run.passed;
})

-- `_Run.ok`
unfoldable pub pass : Run → VerificationStage → Run
pass run stage = record run { passed = run.passed ++ stage ∷ [] }

unfoldable pub accept : Run → VerificationDecision
accept run = record {
  subject_id = run.subject_id;
  accepted = true;
  stage = VerificationStage.other "VERIFIED";
  reason_code = "VERIFIED";
  expected_state_revision = run.revision;
  passed_stages = run.passed;
}
