-- ===== src/Contracts.antt =====
-- src/industrial_agent_runtime/contracts.py and the request and the finish of actions.py: the data
-- that the gates and the verifier read.
use industrial_agent_runtime.Prelude.{
  ℕ, String, ◌==◌, Bool, true, false, ◌&&◌, Option, List, Dict, ℤ, eqb_ℤ,
}
use industrial_agent_runtime.Json.{Json, Fields}
use industrial_agent_runtime.Json.Equality.{py_eq}

-- `Revision = int | str`
pub data Revision : Type 0 where
  number : ℤ → Revision
  text : String → Revision

unfoldable pub eqb_revision : Revision → Revision → Bool
eqb_revision (number a) (number b) = eqb_ℤ a b
eqb_revision (text a) (text b) = a == b
eqb_revision _ _ = false

pub data Visibility : Type 0 where
  agent evaluator internal : Visibility

unfoldable pub is_agent : Visibility → Bool
is_agent agent = true
is_agent _ = false

unfoldable pub eqb_visibility : Visibility → Visibility → Bool
eqb_visibility agent agent = true
eqb_visibility evaluator evaluator = true
eqb_visibility internal internal = true
eqb_visibility _ _ = false

pub data TaskStatus : Type 0 where
  running waiting ready done failed exhausted cancelled : TaskStatus

pub data SideEffectClass : Type 0 where
  read compute simulate propose mutate admin : SideEffectClass

unfoldable pub eqb_class : SideEffectClass → SideEffectClass → Bool
eqb_class read read = true
eqb_class compute compute = true
eqb_class simulate simulate = true
eqb_class propose propose = true
eqb_class mutate mutate = true
eqb_class admin admin = true
eqb_class _ _ = false

-- The constructor leaves `checksum` unchecked, so it is any JSON value; an absent one is `null`.
pub record InformationRef : Type 0 where
  pub ref_id : String
  pub kind : String
  pub owner : String
  pub version : String
  pub visibility : Visibility
  pub created_at : String
  pub checksum : Json

-- The dataclass's `==`.
unfoldable pub eqb_ref : InformationRef → InformationRef → Bool
unfolding eqb_visibility
eqb_ref a b =
    a.ref_id == b.ref_id
    && a.kind == b.kind
    && a.owner == b.owner
    && a.version == b.version
    && eqb_visibility a.visibility b.visibility
    && a.created_at == b.created_at
    && py_eq a.checksum b.checksum

-- What stands where a reference is declared: the code tests at run time that it is one.
pub data Cited : Type 0 where
  typed_ref : InformationRef → Cited
  untyped_ref : Cited

-- `extra_dimensions` after the constructor's check: nonnegative amounts, in quanta.
pub record Budget : Type 0 where
  pub max_model_calls : ℕ
  pub max_tool_calls : ℕ
  pub max_subagents : ℕ
  pub max_subagent_depth : ℕ
  pub max_steps : ℕ
  pub max_total_tokens : Option ℕ
  pub max_parallel_width : Option ℕ
  pub extra_dimensions : Dict ℕ

pub record Task : Type 0 where
  pub task_id : String
  pub goal : String
  pub context_refs : List InformationRef
  pub allowed_tools : List String
  pub budget : Budget
  pub output_schema : Json
  pub parent_task_id : Option String
  pub metadata : Fields

pub record ToolSpec : Type 0 where
  pub name : String
  pub description : String
  pub input_schema : Json
  pub output_schema : Json
  pub side_effect_class : SideEffectClass
  pub required_policy_tags : List String
  pub declared_budget_draw : Dict Json
  pub max_budget_draw : Dict Json
  pub isolation_guarantee : Option String
  pub provider_metadata : Fields

pub record ToolCallRequest : Type 0 where
  pub request_id : String
  pub tool_name : String
  pub arguments : Fields

pub record ToolResult : Type 0 where
  pub request_id : String
  pub status : String
  pub structured_output : Json
  pub actual_budget_draw : Json
  pub provenance : Json
  pub artifact_refs : List Cited
  pub information_refs : List Cited
  pub error : Option String

pub record StateDelta : Type 0 where
  pub operation : String
  pub target_ref_or_path : String
  pub value_or_ref : Json
  pub producer : String
  pub proposed_base_revision : Option Revision
  pub reason_ref : Option Cited

pub record FinishProposal : Type 0 where
  pub structured_output : Json
  pub information_refs : List InformationRef
  pub artifact_refs : List InformationRef
