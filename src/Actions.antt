-- ===== src/Actions.antt =====
-- The model's requests of src/industrial_agent_runtime/actions.py, and the records of contracts.py
-- that only they hold. An `Any` that a constructor tests is a data type with the accepted case.
use industrial_agent_runtime.Prelude.{String, Option, List}
use industrial_agent_runtime.Json.{Json}
use industrial_agent_runtime.Contracts.{
  InformationRef, Revision, Budget, StateDelta, ToolCallRequest, FinishProposal,
}

pub record Subtask : Type 0 where
  pub subtask_id : String
  pub parent_task_id : String
  pub goal : String
  pub context_refs : List InformationRef
  pub allowed_tools : List String
  pub budget : Budget
  pub output_schema : Json
  pub reason_for_delegation : String

-- `kind` and `request_or_subtask`, which the constructor of `WorkItem` makes agree.
pub data Payload : Type 0 where
  tool : ToolCallRequest → Payload
  subtask : Subtask → Payload

-- `budget_request` is what `freeze_json` leaves of it: the constructors do not test for a mapping.
pub record WorkItem : Type 0 where
  pub work_id : String
  pub depends_on : List String
  pub request_or_subtask : Payload
  pub budget_request : Json
  pub status : String

pub record WorkBatch : Type 0 where
  pub batch_id : String
  pub objective : String
  pub items : List WorkItem
  pub budget_request : Json
  pub completion_policy : String

-- What a delta of a model's update is: `_update` tests for a `StateDelta` with typed fields.
pub data Proposed : Type 0 where
  proposed_delta : StateDelta → Proposed
  malformed_delta : Proposed

pub record ModelStateUpdateProposal : Type 0 where
  pub proposal_id : String
  pub base_revision : Option Revision
  pub deltas : List Proposed

-- `action` with its payload: the constructor of `ModelTurn` admits exactly one.
pub data Action : Type 0 where
  no_action : Action
  tool_request : ToolCallRequest → Action
  work_batch : WorkBatch → Action
  finish_proposal : FinishProposal → Action

pub record ModelTurn : Type 0 where
  pub turn_id : String
  pub context_projection_ref : InformationRef
  pub base_revision : Revision
  pub action : Action
  pub state_update : Option ModelStateUpdateProposal
  pub prose_summary : Option String
