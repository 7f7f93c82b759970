-- ===== src/Coordinator.antt =====
-- `Coordinator` of src/industrial_agent_runtime/coordinator.py: its state, the application it calls,
-- and a method as a state and exception monad. The state comes back after a raise too.
pub mod Execution
pub mod Ingestion
pub mod Update
pub mod Batches
pub mod Turn
pub mod Loop
pub mod Ledger
pub mod Refusals
pub mod Stuck
pub mod Settled
pub mod Persisted
use industrial_agent_runtime.Prelude.{
  ℕ, suc, String, ◌==◌, Bool, true, false, not, ◌&&◌, ◌||◌, Option, none, some, List, [], ◌∷◌, Dict,
}
use industrial_agent_runtime.Json.{Json, units}
use industrial_agent_runtime.Contracts.{
  InformationRef, Revision, TaskStatus, running, waiting, ready, done, failed, exhausted, cancelled,
  StateDelta, Task, ToolSpec, ToolCallRequest, FinishProposal,
}
use industrial_agent_runtime.Actions.{ModelTurn}
use industrial_agent_runtime.Decisions.{Result, ok, err, Error, denied}
use industrial_agent_runtime.Gates.Pipeline.{GatePipeline}
use industrial_agent_runtime.Verification.Provenance.{Returned}
use industrial_agent_runtime.Verification.Outcome.{ResultVerificationPipeline}
use industrial_agent_runtime.Accounting.{charge}

-- Feedback to the model. A denial keeps what was raised in place of its text.
pub data Notice : Type 0 where
  denial : (stage : String) → Error → (ids : Dict String) → Notice
  update_denial : (proposal_id : String) → Error → Notice
  tool_outcome : (request_id status : String) → Notice
  batch_outcomes : (batch_id : String) → (outcomes : Dict String) → Notice

-- An event of the trace. The summaries of its inputs and outputs, its time and the model's metadata
-- are left out.
pub record Event : Type 0 where
  pub type : String
  pub status : String
  pub ids : Dict String
  pub budget_delta : Dict ℕ

pub record ContextProjection : Type 0 where
  pub projection_id : String
  pub task_id : String
  pub base_revision : Revision
  pub content : Json
  pub included_refs : List InformationRef
  pub visibility_policy_version : String
  pub approximate_tokens : ℕ
  pub checksum : String

-- What `_project` returns: the consumer's projection with the feedback and the number of the turn,
-- of which its new content, checksum, id and size are made.
pub record Prompt : Type 0 where
  pub projection : ContextProjection
  pub runtime_feedback : List Notice
  pub model_calls : ℕ

-- `world` is what the application keeps: the store, the executor, the provider and the files. The
-- newest event and the newest notice stand first. `output` and `errors` are local to `run`.
pub record State (W : Type 0) : Type 0 where
  pub usage : Dict ℕ
  pub known_refs : Dict InformationRef
  pub feedback : List Notice
  pub turn_ids : List String
  pub request_ids : List String
  pub status : TaskStatus
  pub events : List Event
  pub output : Option Json
  pub errors : List Error
  pub world : W

-- The coordinator's fields and the application behind them, where `none` is an answer of the wrong
-- type. The hooks of the gates and of the verification answer by their arguments; `elapse` is what
-- else happens while they run. A reference guard answers a revision or raises. The recorder's writes
-- succeed.
pub record Coordinator (W : Type 0) : Type 0 where
  pub pipeline : GatePipeline
  pub verification : ResultVerificationPipeline
  pub has_verifier : Bool
  pub has_ingestor : Bool
  pub executor : Option (ToolCallRequest → ToolSpec → W → Result Returned × W)
  pub verify_finish : FinishProposal → Task → Revision → W → Result Bool × W
  pub generate :
      Prompt
      → List ToolSpec
      → (projection_ref : InformationRef) → (usage : Dict ℕ) → W
      → Result (Option ModelTurn) × W
  pub persist_projection : Prompt → W → Result InformationRef × W
  pub reference_revision : W → Result Revision
  pub revision : W → Result Revision
  pub store_status : W → Result TaskStatus
  pub project : W → Result (Option ContextProjection)
  pub apply_batch : List StateDelta → Revision → W → Result Revision × W
  pub transition_status : TaskStatus → Revision → W → Result (Option Revision) × W
  pub elapse : W → W

-- `status in TERMINAL_STATUSES`
unfoldable pub is_terminal : TaskStatus → Bool
is_terminal done = true
is_terminal failed = true
is_terminal exhausted = true
is_terminal cancelled = true
is_terminal _ = false

abbrev pub Method : (W : Type 0) → Type 0 → Type 0
Method W A = State W → Result A × State W

module _ {W : Type 0} where
  abbrev pub pure : {A : Type 0} → A → Method W A
  pure a s = (ok a, s)

  abbrev pub raise : {A : Type 0} → Error → Method W A
  raise e s = (err e, s)

  abbrev pub continue :
      {A B : Type 0}
      → (Error → Method W B)
      → (A → Method W B)
      → Result A × State W
      → Result B × State W
  continue failing next (err e, s) = failing e s
  continue failing next (ok a, s) = next a s

  infixl 5 ◌>>=◌ ◌>>◌
  abbrev pub ◌>>=◌ : {A B : Type 0} → Method W A → (A → Method W B) → Method W B
  ◌>>=◌ m next s = continue raise next (m s)

  abbrev pub ◌>>◌ : {A B : Type 0} → Method W A → Method W B → Method W B
  m >> rest = m >>= λ _. rest

  -- `try: m ... except: handler ... else: next`
  abbrev pub attempt :
      {A B : Type 0} → Method W A → (Error → Method W B) → (A → Method W B) → Method W B
  attempt m handler next s = continue handler next (m s)

  abbrev pub gets : {A : Type 0} → (State W → A) → Method W A
  gets f s = (ok (f s), s)

  abbrev pub modify : (State W → State W) → Method W (Unit {0})
  modify f s = (ok tt, f s)

  -- A computation on values that may raise.
  abbrev pub lift : {A : Type 0} → Result A → Method W A
  lift r s = (r, s)

  -- A question to the application, and a call that may change what it keeps.
  abbrev pub ask : {A : Type 0} → (W → Result A) → Method W A
  ask f s = (f s.world, s)

  abbrev pub call : {A : Type 0} → (W → Result A × W) → Method W A
  call f s = ((f s.world).0, record s { world = (f s.world).1 })

  abbrev pub elapsed : Coordinator W → Method W (Unit {0})
  elapsed c = modify λ s. record s { world = c.elapse s.world }

  -- `_event`
  unfoldable pub event :
      String → String → (ids : Dict String) → (budget_delta : Dict ℕ) → Method W (Unit {0})
  event type status ids budget_delta s = (
    ok tt,
    record s {
      events =
          record { type = type; status = status; ids = ids; budget_delta = budget_delta }
          ∷ s.events;
    },
  )

  unfoldable pub notify : Notice → Method W (Unit {0})
  notify n s = (ok tt, record s { feedback = n ∷ s.feedback })

  -- `_deny`
  unfoldable pub deny : String → Error → Dict String → Method W (Unit {0})
  unfolding notify event
  deny stage reason ids = do
    notify (denial stage reason ids)
    event (elim (stage == "MODEL_TURN") [ true ↦ "MODEL_REJECTION" | false ↦ stage ]) "DENIED" ids
        []

  unfoldable pub spend_budget : Coordinator W → Dict ℕ → Method W (Unit {0})
  spend_budget c draw = do
    usage ← gets (λ s. s.usage)
    charged ← lift (charge c.pipeline.task.budget usage draw)
    modify (λ s. record s { usage = charged })
