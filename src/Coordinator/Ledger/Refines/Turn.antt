-- ===== src/Coordinator/Ledger/Refines/Turn.antt =====
-- One turn of the model in src/industrial_agent_runtime/coordinator.py as steps of the ledger.
use industrial_agent_runtime.Prelude.{
  contains, ◌≡◌, refl, sym, ap, subst, Bool, true, false, Option, none, some, [], ◌∷◌, get, has,
}
use industrial_agent_runtime.Json.{units}
use industrial_agent_runtime.Contracts.{
  Revision, done, failed, ToolCallRequest, FinishProposal, InformationRef,
}
use industrial_agent_runtime.Actions.{
  ModelStateUpdateProposal, Action, no_action, tool_request, work_batch, finish_proposal,
}
use industrial_agent_runtime.Decisions.{ok, Error, VerificationDecision, denied, or_raise}
use industrial_agent_runtime.Verification.Outcome.{verify_finish}
use industrial_agent_runtime.Coordinator.{
  State, Coordinator, is_terminal, raise, pure, lift, ask, call, event, deny, notify, spend_budget,
  Prompt,
}
use industrial_agent_runtime.Coordinator.Execution.{Executed, execute}
use industrial_agent_runtime.Coordinator.Ingestion.{ingest}
use industrial_agent_runtime.Coordinator.Update.{check_projection, projected, update}
use industrial_agent_runtime.Coordinator.Turn.{
  Answer, offered, answered, asked, report_ingestion, run_tool, finish_rejected, check_finish,
  verdict_failed, ask_verdict, complete, conclude, finish_with, run_finish, act, decline, respond,
  take_turn, recover, guarded_turn,
}
use industrial_agent_runtime.Accounting.Usage.{one-IsCounterDraw}
use industrial_agent_runtime.Coordinator.Ledger.{Ledger, view, none_left, step, finished, stopped}
use industrial_agent_runtime.Coordinator.Ledger.Refines.{
  Reaches, Keeps, Reads, Reads-continue, Reads-attempt, Reaches-continue, Keeps-bind, Keeps-attempt,
}
use industrial_agent_runtime.Coordinator.Ledger.Refines.Authorization.{Reads-with, Reads-ask}
use industrial_agent_runtime.Coordinator.Ledger.Refines.Dispatch.{execute-Keeps}
use industrial_agent_runtime.Coordinator.Ledger.Refines.Ingest.{deny-Keeps, ingest-Keeps}
use industrial_agent_runtime.Coordinator.Ledger.Refines.Turns.{
  run_batch-Keeps, update-Keeps, charge-Keeps,
}

module _ {W : Type 0} (c : Coordinator W) where
  projected-Keeps : Keeps c (projected c)
  unfolding projected
  projected-Keeps =
      Keeps-bind c (ask c.project) _ (λ s. none_left)
        (λ answer.
          Keeps-bind c (ask c.revision) _ (λ s. none_left)
            (λ revision.
              Keeps-bind c (lift (check_projection c answer revision)) _ (λ s. none_left)
                (λ p s. none_left)))

  answered-Keeps : (prompt : Prompt) (ref : InformationRef) → Keeps c (answered c prompt ref)
  unfolding answered event
  answered-Keeps prompt ref s =
      Keeps-bind c
        (call
          (c.generate prompt (offered c.pipeline.task.allowed_tools c.pipeline.specs) ref s.usage))
        _ (λ s. none_left)
        (λ answer.
          Keeps-bind c (lift (or_raise answer (denied "provider returned non-ModelTurn output"))) _
            (λ s. none_left) (λ turn s. none_left))
        (event "MODEL_TURN" "REQUESTED" [] (("model_calls", units 1) ∷ []) s).1

  asked-Keeps : Keeps c (asked c)
  unfolding asked has get contains
  asked-Keeps = Keeps-bind c (projected c) _ projected-Keeps (λ prompt.
      Keeps-bind c (call (c.persist_projection prompt)) _ (λ s. none_left)
        (λ ref s.
          Keeps-bind c (spend_budget c (("model_calls", units 1) ∷ [])) (λ _. answered c prompt ref)
            (charge-Keeps c _ (refl, tt) (one-IsCounterDraw "model_calls" refl))
            (λ _. answered-Keeps prompt ref) (record s { feedback = [] })))

  report_ingestion-Keeps :
      (request : ToolCallRequest) (executed : Option Executed)
      → Keeps c (report_ingestion c request executed)
  unfolding report_ingestion notify
  report_ingestion-Keeps request none s = none_left
  report_ingestion-Keeps request (some executed) s =
      Keeps-bind c (ingest c request executed []) _ (ingest-Keeps c request executed [])
        (λ success s. none_left) s

  run_tool-Keeps : (request : ToolCallRequest) → Keeps c (run_tool c request)
  unfolding run_tool
  run_tool-Keeps request =
      Keeps-bind c (execute c request none []) (report_ingestion c request)
        (execute-Keeps c request none []) (report_ingestion-Keeps request)

  finish_rejected-Keeps : (e : Error) → Keeps c (finish_rejected c e)
  unfolding finish_rejected event
  finish_rejected-Keeps (Error.gate_denied d) s = none_left
  finish_rejected-Keeps (Error.verification_rejected d) s = none_left
  finish_rejected-Keeps (Error.denied r) s = none_left
  finish_rejected-Keeps Error.invariant_violation s = none_left
  finish_rejected-Keeps Error.value_error s = none_left
  finish_rejected-Keeps Error.type_error s = none_left
  finish_rejected-Keeps Error.key_error s = none_left
  finish_rejected-Keeps Error.attribute_error s = none_left
  finish_rejected-Keeps Error.overflow_error s = none_left
  finish_rejected-Keeps (Error.raised r) s = none_left

  -- The verification that accepted a finish, at a ledger.
  abbrev IsFinishedAt : Ledger → FinishProposal → VerificationDecision → Type 0
  IsFinishedAt l proposal d =
      (revision : Revision) × (verify_finish c.verification proposal c.pipeline.task l.known_refs
          revision
        ≡ ok d)

  check_finish-Reads :
      (proposal : FinishProposal) (s : State W)
      → Reads c (view s) (IsFinishedAt (view s) proposal) (check_finish c proposal s)
  unfolding check_finish
  check_finish-Reads proposal s =
      Reads-continue c (view s) (λ _. Unit {0}) (IsFinishedAt (view s) proposal) _
        (c.revision s.world, s) (Reads-ask c (view s) c.revision s refl)
        (λ revision s₁ h _.
          Reads-with c (view s) (IsFinishedAt (view s) proposal) _ s₁ h (λ d e. (revision, e)))

  ask_verdict-Reads :
      (l : Ledger) (proposal : FinishProposal) (s : State W)
      → view s ≡ l
      → Reads c l (λ _. Unit {0}) (ask_verdict c proposal s)
  unfolding ask_verdict verdict_failed event
  ask_verdict-Reads l proposal s h =
      Reads-continue c l (λ _. Unit {0}) (λ _. Unit {0}) _ (c.revision s.world, s)
        (Reads-ask c l c.revision s h)
        (λ revision s₁ h₁ _.
          let answer = c.verify_finish proposal c.pipeline.task revision s₁.world in
          let after : State W = record s₁ { world = answer.1 } in
          Reads-attempt c l (λ _. Unit {0}) (λ _. Unit {0}) (verdict_failed c) pure
            (answer.0, after) (Reads-with c l (λ _. Unit {0}) answer.0 after h₁ (λ a e. tt))
            (λ e s₂ h₂. h₂) (λ b s₂ h₂ _. (h₂, tt)))

  conclude-Reaches :
      (l : Ledger) (proposal : FinishProposal) (d : VerificationDecision) (verdict : Bool)
      (s : State W)
      → view s ≡ l
      → IsFinishedAt l proposal d
      → Reaches c l (view (conclude c proposal verdict s).1)
  unfolding conclude complete event
  conclude-Reaches l proposal d true s h (revision, e) =
      subst (Reaches c l) (sym (ap (λ k. ended proposal k) h))
        (step none_left (finished proposal revision d e))
    where
      ended : FinishProposal → Ledger → Ledger
      ended p k = record k { output = some p.structured_output; status = done }
  conclude-Reaches l proposal d false s h found = subst (Reaches c l) (sym h) none_left

  finish_with-Keeps :
      (present : Bool) (proposal : FinishProposal) → Keeps c (finish_with c present proposal)
  unfolding finish_with
  finish_with-Keeps false proposal s = none_left
  finish_with-Keeps true proposal s =
      let l = view s in
      Reaches-continue c l l (IsFinishedAt l proposal) (finish_rejected c) _
        (check_finish c proposal s) (check_finish-Reads proposal s)
        (λ e s₁ h.
          subst (λ k. Reaches c k (view (finish_rejected c e s₁).1)) h (finish_rejected-Keeps e s₁))
        (λ d s₁ h found.
          Reaches-continue c l l (λ _. Unit {0}) raise (conclude c proposal)
            (ask_verdict c proposal s₁) (ask_verdict-Reads l proposal s₁ h)
            (λ e s₂ h₂. subst (Reaches c l) (sym h₂) none_left)
            (λ verdict s₂ h₂ _. conclude-Reaches l proposal d verdict s₂ h₂ found))

  act-Keeps : (action : Action) → Keeps c (act c action)
  unfolding act event run_finish
  act-Keeps (tool_request request) = run_tool-Keeps request
  act-Keeps (work_batch batch) = run_batch-Keeps c batch
  act-Keeps (finish_proposal proposal) = finish_with-Keeps c.has_verifier proposal
  act-Keeps no_action = λ s. none_left

  decline-Keeps :
      (turn_error : Option Error) (proposal : Option ModelStateUpdateProposal)
      → Keeps c (decline c turn_error proposal)
  unfolding decline
  decline-Keeps (some e) none = deny-Keeps c "MODEL_TURN" e []
  decline-Keeps (some e) (some p) = λ s. none_left
  decline-Keeps none none = λ s. none_left
  decline-Keeps none (some p) = λ s. none_left

  respond-Keeps : (a : Answer) (accepted : Bool) → Keeps c (respond c a accepted)
  unfolding respond
  respond-Keeps a true = act-Keeps a.turn.action
  respond-Keeps a false = decline-Keeps a.turn_error a.turn.state_update

  recover-Keeps : (e : Error) → Keeps c (recover c e)
  unfolding recover event deny is_terminal
  recover-Keeps (Error.denied r) s = none_left
  recover-Keeps (Error.gate_denied d) s = step none_left (stopped failed refl)
  recover-Keeps (Error.verification_rejected d) s = step none_left (stopped failed refl)
  recover-Keeps Error.invariant_violation s = step none_left (stopped failed refl)
  recover-Keeps Error.value_error s = step none_left (stopped failed refl)
  recover-Keeps Error.type_error s = step none_left (stopped failed refl)
  recover-Keeps Error.key_error s = step none_left (stopped failed refl)
  recover-Keeps Error.attribute_error s = step none_left (stopped failed refl)
  recover-Keeps Error.overflow_error s = step none_left (stopped failed refl)
  recover-Keeps (Error.raised r) s = step none_left (stopped failed refl)

  pub guarded_turn-Keeps : Keeps c (guarded_turn c)
  unfolding guarded_turn take_turn
  guarded_turn-Keeps =
      Keeps-attempt c (take_turn c) (recover c) pure
        (Keeps-bind c (asked c) _ asked-Keeps (λ a.
          Keeps-bind c (update c a.turn a.base a.turn_error) (respond c a)
            (update-Keeps c a.turn a.base a.turn_error) (respond-Keeps a)))
        recover-Keeps (λ _ s. none_left)
