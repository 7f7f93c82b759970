-- ===== src/Coordinator/Ledger.antt =====
-- The part of the coordinator's state that a run is answerable for
-- (src/industrial_agent_runtime/coordinator.py), and the steps that may change it, each with what
-- justifies it. Feedback, the trace and what the application keeps are forgotten.
pub mod Refines
pub mod Invariants
use industrial_agent_runtime.Prelude.{
  ℕ, String, ◌==◌, ◌≡◌, Bool, true, false, ◌&&◌, ◌||◌, Option, some, List, [], ◌∷◌, Dict, IsDict,
}
use industrial_agent_runtime.Json.{Json}
use industrial_agent_runtime.Contracts.{
  InformationRef, Revision, TaskStatus, running, done, failed, exhausted, ToolSpec, ToolCallRequest,
  FinishProposal,
}
use industrial_agent_runtime.Decisions.{Result, ok, VerificationDecision}
use industrial_agent_runtime.Gates.Pipeline.{
  GatePipeline, ResolvedReservation, FrozenRequest, Reading,
}
use industrial_agent_runtime.Gates.Static.{typed}
use industrial_agent_runtime.Gates.Authorize.{authorize}
use industrial_agent_runtime.Gates.Reconcile.{Reconciliation}
use industrial_agent_runtime.Verification.Provenance.{Returned}
use industrial_agent_runtime.Verification.Outcome.{
  ResultVerificationPipeline, VerifiedResult, verify, verify_finish,
}
use industrial_agent_runtime.Accounting.{charge, dispatch_draw, Settlement, settle}
use industrial_agent_runtime.Accounting.Usage.{IsCounterDraw}
use industrial_agent_runtime.Knowledge.{learn}
use industrial_agent_runtime.Coordinator.{State, Coordinator, Event, is_terminal}
use industrial_agent_runtime.Coordinator.Execution.{status_of}

pub record Ledger : Type 0 where
  pub usage : Dict ℕ
  pub known_refs : Dict InformationRef
  pub request_ids : List String
  pub status : TaskStatus
  pub output : Option Json
  pub violated : Bool

-- Only the event of a reconciliation has this status.
abbrev pub is_violation : Event → Bool
is_violation e = e.status == "VIOLATION"

abbrev pub any_violation : List Event → Bool
any_violation [] = false
any_violation (e ∷ es) = is_violation e || any_violation es

abbrev pub view : {W : Type 0} → State W → Ledger
view s = record {
  usage = s.usage;
  known_refs = s.known_refs;
  request_ids = s.request_ids;
  status = s.status;
  output = s.output;
  violated = any_violation s.events;
}

module _ (g : GatePipeline) (p : ResultVerificationPipeline) where
  pub data Step (l : Ledger) : Ledger → Type 0 where
    -- A charge of integers on the standard counters, within the quota.
    charged :
        (draw usage : Dict ℕ)
        → IsDict draw
        → IsCounterDraw draw
        → charge g.task.budget l.usage draw ≡ ok usage
        → Step l (record l { usage = usage })
    -- The dispatch of an authorized request and its settlement.
    dispatched :
        (request : ToolCallRequest) (revision : Revision) (reading : Reading)
        (expected : Option ResolvedReservation) (frozen : FrozenRequest) (returned : Returned)
        (s : Settlement)
        → authorize g (typed request) l.known_refs l.usage revision reading expected ≡ ok frozen
        → settle g.task.budget l.usage request frozen.reserved_budget_draw returned ≡ ok s
        → Step l (record l {
          usage = s.usage;
          request_ids = request.request_id ∷ l.request_ids;
          violated = status_of s.accounting == "VIOLATION" || l.violated;
        })
    -- A dispatch that raised before it was settled.
    unsettled :
        (request : ToolCallRequest) (revision : Revision) (reading : Reading)
        (expected : Option ResolvedReservation) (frozen : FrozenRequest) (usage : Dict ℕ)
        → authorize g (typed request) l.known_refs l.usage revision reading expected ≡ ok frozen
        → charge g.task.budget l.usage dispatch_draw ≡ ok usage
        → Step l (record l { usage = usage; request_ids = request.request_id ∷ l.request_ids })
    -- The references of a verified result.
    learned :
        (result : Returned) (request : ToolCallRequest) (spec : ToolSpec)
        (accounting : Reconciliation) (reserved : Dict InformationRef) (revision : Revision)
        (reader : Result Revision) (verified : VerifiedResult)
        → verify p result request spec accounting l.known_refs reserved revision reader
          ≡ ok verified
        → Step l (record l { known_refs = learn l.known_refs verified.refs })
    -- The end of the task by an accepted finish.
    finished :
        (proposal : FinishProposal) (revision : Revision) (d : VerificationDecision)
        → verify_finish p proposal g.task l.known_refs revision ≡ ok d
        → Step l (record l { output = some proposal.structured_output; status = done })
    -- Another end: what the store says, an exhausted quota, or a failure.
    stopped :
        (status : TaskStatus) → is_terminal status ≡ true → Step l (record l { status = status })
    -- An end that could not be persisted.
    withdrawn : Step l (record l { status = failed; output = Option.none })

  pub data Steps (l : Ledger) : Ledger → Type 0 where
    none_left : Steps l l
    step : {m n : Ledger} → Steps l m → Step m n → Steps l n

  pub Steps-append : {l m n : Ledger} → Steps l m → Steps m n → Steps l n
  Steps-append p none_left = p
  Steps-append p (step q s) = step (Steps-append p q) s
