-- ===== src/Coordinator/Batches.antt =====
-- `_batch` of src/industrial_agent_runtime/coordinator.py: the items of a validated batch in waves.
-- The keys of `pending` are kept; the items themselves do not change.
use industrial_agent_runtime.Prelude.{
  ℕ, zero, suc, String, ◌==◌, Bool, true, false, ◌&&◌, Option, none, some, List, [], ◌∷◌, ◌++◌,
  Dict, get, keys, insert, length, sorted,
}
use industrial_agent_runtime.Contracts.{ToolCallRequest}
use industrial_agent_runtime.Actions.{WorkItem, WorkBatch}
use industrial_agent_runtime.Decisions.{key_error, or_raise}
use industrial_agent_runtime.Batch.Waves.{ready, waiting}
use industrial_agent_runtime.Batch.Preflight.{Sized, index, dependencies, validate_batch}
use industrial_agent_runtime.Coordinator.{
  Coordinator, Method, ◌>>=◌, ◌>>◌, pure, attempt, gets, lift, event, deny, notify, batch_outcomes,
}
use industrial_agent_runtime.Coordinator.Execution.{Executed, execute, has_hooks}
use industrial_agent_runtime.Coordinator.Ingestion.{ingest}

-- An item of a wave behind its execution.
pub record Collected : Type 0 where
  pub work_id : String
  pub request : ToolCallRequest
  pub executed : Option Executed

-- `outcomes` and `collected`, as the execution of a wave fills them.
pub record Wave : Type 0 where
  pub outcomes : Dict String
  pub collected : List Collected

-- `all(outcomes[dependency] == "COMPLETED" for dependency in dependencies)`
unfoldable pub all_completed : Dict String → List String → Bool
all_completed outcomes [] = true
all_completed outcomes (d ∷ ds) =
    (elim (get d outcomes) [ none ↦ false | some o ↦ o == "COMPLETED" ])
    && all_completed outcomes ds

unfoldable pub item_ids : WorkBatch → String → Dict String
item_ids batch key = ("batch_id", batch.batch_id) ∷ ("work_id", key) ∷ []

unfoldable pub has_result : List Collected → Bool
has_result [] = false
has_result (x ∷ xs) = elim x.executed [ none ↦ has_result xs | some e ↦ true ]

unfoldable pub outcome_of : Bool → String
outcome_of true = "COMPLETED"
outcome_of false = "FAILED"

module _ {W : Type 0} (c : Coordinator W) (batch : WorkBatch) (sized : Dict Sized)
    (items : Dict WorkItem) where
  unfoldable pub skip_item : String → Wave → Method W Wave
  skip_item key wave = do
    event "WORK_ITEM" "SKIPPED_DEPENDENCY" (item_ids batch key) []
    pure (record wave { outcomes = insert key "SKIPPED_DEPENDENCY" wave.outcomes })

  unfoldable pub execute_item : String → Wave → Method W Wave
  execute_item key wave = do
    s ← lift (or_raise (get key sized) key_error)
    executed ← execute c s.request (some s.reservation) (item_ids batch key)
    pure (record wave {
      collected =
          wave.collected ++ record { work_id = key; request = s.request; executed = executed } ∷ [];
    })

  unfoldable pub run_item : Bool → String → Wave → Method W Wave
  run_item true key wave = execute_item key wave
  run_item false key wave = skip_item key wave

  -- The execution of the ready items, in lexical order.
  unfoldable pub execute_wave : List String → Wave → Method W Wave
  execute_wave [] wave = pure wave
  execute_wave (key ∷ ks) wave =
      run_item (all_completed wave.outcomes (dependencies items key)) key wave >>= execute_wave ks

  unfoldable pub ingest_item :
      (work_id : String) → ToolCallRequest → Option Executed → Method W Bool
  ingest_item work_id request none = pure false
  ingest_item work_id request (some executed) = ingest c request executed (item_ids batch work_id)

  -- The ingestion of what the wave collected, in the same order.
  unfoldable pub ingest_wave : List Collected → Dict String → Method W (Dict String)
  ingest_wave [] outcomes = pure outcomes
  ingest_wave (x ∷ xs) outcomes = do
    success ← ingest_item x.work_id x.request x.executed
    event "WORK_ITEM" (outcome_of success) (item_ids batch x.work_id) []
    ingest_wave xs (insert x.work_id (outcome_of success) outcomes)

  unfoldable pub plan_ingestion : Bool → Method W (Unit {0})
  plan_ingestion true = event "INGESTION_ORDER" "PLANNED" (("batch_id", batch.batch_id) ∷ []) []
  plan_ingestion false = pure tt

  unfoldable pub run_wave : List String → Dict String → Method W (Dict String)
  run_wave ks outcomes = do
    wave ← execute_wave ks (record { outcomes = outcomes; collected = [] })
    plan_ingestion (has_result wave.collected)
    ingest_wave wave.collected wave.outcomes

  -- `while pending`, with one round for each item: a wave of a validated batch is not empty.
  unfoldable pub settle_items :
      (bound : ℕ) → (pending : List String) → Dict String → Method W (Dict String)
  settle_items bound [] outcomes = pure outcomes
  settle_items zero (k ∷ ks) outcomes = pure outcomes
  settle_items (suc bound) (k ∷ ks) outcomes =
      run_wave (sorted (ready (dependencies items) (keys outcomes) (k ∷ ks))) outcomes
      >>= settle_items bound (waiting (dependencies items) (keys outcomes) (k ∷ ks))

module _ {W : Type 0} (c : Coordinator W) where
  unfoldable pub validated : WorkBatch → Method W (Dict Sized)
  validated batch = do
    s ← gets (λ s. s)
    lift (validate_batch c.pipeline s.known_refs s.request_ids (has_hooks c) s.usage batch)

  unfoldable pub run_items : WorkBatch → Dict Sized → Method W (Unit {0})
  run_items batch sized = do
    let items = index batch.items []
    outcomes ← settle_items c batch sized items (length items) (keys items) []
    notify (batch_outcomes batch.batch_id outcomes)
    event "WORK_BATCH" "ALL_SETTLED" (("batch_id", batch.batch_id) ∷ []) []

  -- `_batch`
  unfoldable pub run_batch : WorkBatch → Method W (Unit {0})
  run_batch batch =
      attempt (validated batch) (λ e. deny "WORK_BATCH" e (("batch_id", batch.batch_id) ∷ []))
        (run_items batch)
