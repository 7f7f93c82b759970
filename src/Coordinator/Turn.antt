-- ===== src/Coordinator/Turn.antt =====
-- One round of `run` in src/industrial_agent_runtime/coordinator.py: the projection, the model's turn and
-- its action.
use industrial_agent_runtime.Prelude.{
  String, Bool, true, false, not, ◌||◌, Option, none, some, List, [], ◌∷◌, Dict, contains,
  if◌then◌else◌,
}
use industrial_agent_runtime.Json.{units}
use industrial_agent_runtime.Contracts.{
  InformationRef, Revision, eqb_revision, eqb_ref, done, failed, ToolSpec, ToolCallRequest,
  FinishProposal,
}
use industrial_agent_runtime.Actions.{
  ModelTurn, ModelStateUpdateProposal, Action, no_action, tool_request, work_batch, finish_proposal,
}
use industrial_agent_runtime.Decisions.{
  Error, denied, verification_rejected, or_raise, VerificationDecision,
}
use industrial_agent_runtime.Verification.Outcome.{verify_finish}
use industrial_agent_runtime.Coordinator.{
  Coordinator, Method, ◌>>=◌, ◌>>◌, pure, raise, attempt, gets, modify, lift, ask, call, event,
  deny, notify, tool_outcome, spend_budget, Prompt,
}
use industrial_agent_runtime.Coordinator.Execution.{Executed, execute}
use industrial_agent_runtime.Coordinator.Ingestion.{ingest}
use industrial_agent_runtime.Coordinator.Update.{projected, update}
use industrial_agent_runtime.Coordinator.Batches.{run_batch}

-- `tuple(spec for name, spec in self.specs.items() if name in self.task.allowed_tools)`
unfoldable pub offered : List String → Dict ToolSpec → List ToolSpec
offered allowed [] = []
offered allowed ((name, spec) ∷ specs) =
    let rest = offered allowed specs in if contains name allowed then spec ∷ rest else rest

-- The model's answer with what it answers to.
pub record Answer : Type 0 where
  pub turn : ModelTurn
  pub base : Revision
  pub turn_error : Option Error

unfoldable pub turn_error_of : Prompt → InformationRef → List String → ModelTurn → Option Error
turn_error_of prompt ref turn_ids turn =
    if not (eqb_ref turn.context_projection_ref ref)
      || not (eqb_revision turn.base_revision prompt.projection.base_revision)
      || contains turn.turn_id turn_ids
    then some (denied "model turn projection/revision/identity mismatch")
    else none

module _ {W : Type 0} (c : Coordinator W) where
  -- The call of the model.
  unfoldable pub answered : Prompt → (projection_ref : InformationRef) → Method W Answer
  answered prompt ref = do
    event "MODEL_TURN" "REQUESTED" [] (("model_calls", units 1) ∷ [])
    usage ← gets (λ s. s.usage)
    answer ←
        call (c.generate prompt (offered c.pipeline.task.allowed_tools c.pipeline.specs) ref usage)
    turn ← lift (or_raise answer (denied "provider returned non-ModelTurn output"))
    event "MODEL_OUTPUT" "RETURNED" [] []
    turn_ids ← gets (λ s. s.turn_ids)
    modify (λ s. record s { turn_ids = turn.turn_id ∷ s.turn_ids })
    pure (record {
      turn = turn;
      base = prompt.projection.base_revision;
      turn_error = turn_error_of prompt ref turn_ids turn;
    })

  -- From the projection to the recorded output.
  unfoldable pub asked : Method W Answer
  asked = do
    prompt ← projected c
    ref ← call (c.persist_projection prompt)
    modify (λ s. record s { feedback = [] })
    spend_budget c (("model_calls", units 1) ∷ [])
    answered prompt ref

  unfoldable pub report_ingestion : ToolCallRequest → Option Executed → Method W (Unit {0})
  report_ingestion request none = pure tt
  report_ingestion request (some executed) = do
    success ← ingest c request executed []
    notify
        (tool_outcome request.request_id (elim success [ true ↦ "COMPLETED" | false ↦ "FAILED" ]))

  unfoldable pub run_tool : ToolCallRequest → Method W (Unit {0})
  run_tool request = execute c request none [] >>= report_ingestion request

  -- A rejection of the structure is a denial; another exception ends the run.
  unfoldable pub finish_rejected : Error → Method W (Unit {0})
  finish_rejected (verification_rejected d) =
      event "VERIFY_FINISH" "REJECTED" [] [] >> raise (denied d.reason_code)
  finish_rejected e = raise e

  unfoldable pub check_finish : FinishProposal → Method W VerificationDecision
  check_finish proposal = do
    s ← gets (λ s. s)
    revision ← ask c.revision
    lift (verify_finish c.verification proposal c.pipeline.task s.known_refs revision)

  unfoldable pub verdict_failed : Error → Method W Bool
  verdict_failed e = event "VERIFY_FINISH" "REJECTED" [] [] >> raise e

  unfoldable pub ask_verdict : FinishProposal → Method W Bool
  ask_verdict proposal = do
    revision ← ask c.revision
    attempt (call (c.verify_finish proposal c.pipeline.task revision)) verdict_failed pure

  unfoldable pub complete : FinishProposal → Method W (Unit {0})
  complete proposal = do
    event "VERIFY_FINISH" "ACCEPTED" [] []
    event "FINISH" "ACCEPTED" [] []
    modify (λ s. record s { output = some proposal.structured_output; status = done })

  unfoldable pub conclude : FinishProposal → Bool → Method W (Unit {0})
  conclude proposal true = complete proposal
  conclude proposal false =
      event "VERIFY_FINISH" "REJECTED" [] [] >> raise (denied "consumer finish verification denied")

  unfoldable pub finish_with : (has_verifier : Bool) → FinishProposal → Method W (Unit {0})
  finish_with false proposal = raise (denied "finish requires a trusted result verifier")
  finish_with true proposal =
      attempt (check_finish proposal) finish_rejected
        (λ d. ask_verdict proposal >>= conclude proposal)

  unfoldable pub run_finish : FinishProposal → Method W (Unit {0})
  run_finish proposal = finish_with c.has_verifier proposal

  unfoldable pub act : Action → Method W (Unit {0})
  act (tool_request request) = run_tool request
  act (work_batch batch) = run_batch c batch
  act (finish_proposal proposal) = run_finish proposal
  act no_action = event "ACTION" "NONE" [] []

  -- A turn that is not accepted; the denial of an update is recorded already.
  unfoldable pub decline :
      (turn_error : Option Error) → Option ModelStateUpdateProposal → Method W (Unit {0})
  decline (some e) none = deny "MODEL_TURN" e []
  decline _ _ = pure tt

  unfoldable pub respond : Answer → Bool → Method W (Unit {0})
  respond a true = act a.turn.action
  respond a false = decline a.turn_error a.turn.state_update

  -- The body of the loop's `try`.
  unfoldable pub take_turn : Method W (Unit {0})
  take_turn = asked >>= (λ a. update c a.turn a.base a.turn_error >>= respond a)

  -- The handlers: a denial is fed back, and anything else fails the run.
  unfoldable pub recover : Error → Method W (Unit {0})
  recover (denied reason) = deny "MODEL_TURN" (denied reason) []
  recover e =
      modify (λ s. record s { status = failed; errors = e ∷ s.errors })
      >> event "TASK_FAILURE" "FAILED" [] []

  unfoldable pub guarded_turn : Method W (Unit {0})
  guarded_turn = attempt take_turn recover pure
