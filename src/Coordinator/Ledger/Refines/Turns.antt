-- ===== src/Coordinator/Ledger/Refines/Turns.antt =====
-- Batches and updates of src/industrial_agent_runtime/coordinator.py as steps of the ledger.
use industrial_agent_runtime.Prelude.{
  contains, ℕ, zero, suc, String, refl, sym, subst, Bool, true, false, Option, none, some, List, [],
  ◌∷◌, Dict, get, inl, inr, IsDict, has,
}
use industrial_agent_runtime.Json.{units}
use industrial_agent_runtime.Contracts.{Revision, ToolCallRequest}
use industrial_agent_runtime.Actions.{ModelTurn, ModelStateUpdateProposal, WorkBatch, WorkItem}
use industrial_agent_runtime.Decisions.{Error, or_raise, key_error}
use industrial_agent_runtime.Accounting.Usage.{IsCounterDraw, one-IsCounterDraw}
use industrial_agent_runtime.Batch.Preflight.{Sized, index}
use industrial_agent_runtime.Coordinator.{Coordinator, ask, call, lift, event, notify, spend_budget}
use industrial_agent_runtime.Coordinator.Execution.{Executed, execute}
use industrial_agent_runtime.Coordinator.Update.{
  proposed_deltas, apply_update, update_refused, propose, update,
}
use industrial_agent_runtime.Coordinator.Batches.{
  run_item, skip_item, execute_item, execute_wave, ingest_item, ingest_wave, plan_ingestion,
  run_wave, settle_items, run_items, run_batch, validated, Wave, Collected, outcome_of, has_result,
}
use industrial_agent_runtime.Coordinator.Ledger.{view, none_left, step, charged}
use industrial_agent_runtime.Coordinator.Ledger.Refines.{
  Reaches, Keeps, Keeps-bind, Keeps-attempt, spend_budget-cases,
}
use industrial_agent_runtime.Coordinator.Ledger.Refines.Dispatch.{execute-Keeps}
use industrial_agent_runtime.Coordinator.Ledger.Refines.Ingest.{deny-Keeps, ingest-Keeps}

module _ {W : Type 0} (c : Coordinator W) where
  pub charge-Keeps :
      (draw : Dict ℕ) → IsDict draw → IsCounterDraw draw → Keeps c (spend_budget c draw)
  charge-Keeps draw d counter s = elim (spend_budget-cases c draw s) [
    | inl (e, raised) ↦ subst (λ r. Reaches c (view s) (view r.1)) (sym raised) none_left
    | inr (u, paid, ran) ↦
        subst (λ r. Reaches c (view s) (view r.1)) (sym ran)
          (step none_left (charged draw u d counter paid))
  ]

  module _ (batch : WorkBatch) (sized : Dict Sized) (items : Dict WorkItem) where
    execute_item-Keeps :
        (key : String) (wave : Wave) → Keeps c (execute_item c batch sized items key wave)
    unfolding execute_item
    execute_item-Keeps key wave =
        Keeps-bind c (λ s. (or_raise (get key sized) key_error, s)) _ (λ s. none_left)
          (λ x.
            Keeps-bind c (execute c x.request (some x.reservation) _) _
              (execute-Keeps c x.request (some x.reservation) _) (λ executed s. none_left))

    skip_item-Keeps :
        (key : String) (wave : Wave) → Keeps c (skip_item c batch sized items key wave)
    unfolding skip_item event
    skip_item-Keeps key wave s = none_left

    run_item-Keeps :
        (completed : Bool) (key : String) (wave : Wave)
        → Keeps c (run_item c batch sized items completed key wave)
    unfolding run_item
    run_item-Keeps true key wave = execute_item-Keeps key wave
    run_item-Keeps false key wave = skip_item-Keeps key wave

    execute_wave-Keeps :
        (ks : List String) (wave : Wave) → Keeps c (execute_wave c batch sized items ks wave)
    unfolding execute_wave
    execute_wave-Keeps [] wave s = none_left
    execute_wave-Keeps (key ∷ ks) wave s =
        Keeps-bind c (run_item c batch sized items _ key wave) (execute_wave c batch sized items ks)
          (run_item-Keeps _ key wave) (execute_wave-Keeps ks) s

    ingest_item-Keeps :
        (id : String) (request : ToolCallRequest) (executed : Option Executed)
        → Keeps c (ingest_item c batch sized items id request executed)
    unfolding ingest_item
    ingest_item-Keeps id request none s = none_left
    ingest_item-Keeps id request (some executed) s = ingest-Keeps c request executed _ s

    outcome-Keeps :
        (success : Bool) (ids : Dict String)
        → Keeps c (event "WORK_ITEM" (outcome_of success) ids [])
    unfolding outcome_of event
    outcome-Keeps true ids s = none_left
    outcome-Keeps false ids s = none_left

    ingest_wave-Keeps :
        (xs : List Collected) (outcomes : Dict String)
        → Keeps c (ingest_wave c batch sized items xs outcomes)
    unfolding ingest_wave
    ingest_wave-Keeps [] outcomes s = none_left
    ingest_wave-Keeps (x ∷ xs) outcomes s =
        Keeps-bind c (ingest_item c batch sized items x.work_id x.request x.executed) _
          (ingest_item-Keeps _ _ x.executed)
          (λ success.
            Keeps-bind c (event "WORK_ITEM" (outcome_of success) _ []) _ (outcome-Keeps success _)
              (λ _. ingest_wave-Keeps xs _))
          s

    plan_ingestion-Keeps : (planned : Bool) → Keeps c (plan_ingestion c batch sized items planned)
    unfolding plan_ingestion event
    plan_ingestion-Keeps true s = none_left
    plan_ingestion-Keeps false s = none_left

    run_wave-Keeps :
        (ks : List String) (outcomes : Dict String)
        → Keeps c (run_wave c batch sized items ks outcomes)
    unfolding run_wave
    run_wave-Keeps ks outcomes =
        Keeps-bind c (execute_wave c batch sized items ks _) _ (execute_wave-Keeps ks _) (λ wave.
          Keeps-bind c (plan_ingestion c batch sized items (has_result wave.collected)) _
            (plan_ingestion-Keeps _) (λ _. ingest_wave-Keeps wave.collected wave.outcomes))

    settle_items-Keeps :
        (bound : ℕ) (pending : List String) (outcomes : Dict String)
        → Keeps c (settle_items c batch sized items bound pending outcomes)
    unfolding settle_items
    settle_items-Keeps bound [] outcomes s = none_left
    settle_items-Keeps zero (k ∷ ks) outcomes s = none_left
    settle_items-Keeps (suc bound) (k ∷ ks) outcomes s =
        Keeps-bind c (run_wave c batch sized items _ outcomes)
          (settle_items c batch sized items bound _) (run_wave-Keeps _ outcomes)
          (settle_items-Keeps bound _) s

  run_items-Keeps : (batch : WorkBatch) (sized : Dict Sized) → Keeps c (run_items c batch sized)
  unfolding run_items event notify
  run_items-Keeps batch sized =
      Keeps-bind c (settle_items c batch sized (index batch.items []) _ _ []) _
        (settle_items-Keeps batch sized (index batch.items []) _ _ []) (λ outcomes s. none_left)

  pub run_batch-Keeps : (batch : WorkBatch) → Keeps c (run_batch c batch)
  unfolding run_batch validated
  run_batch-Keeps batch =
      Keeps-attempt c (validated c batch) _ (run_items c batch) (λ s. none_left)
        (λ e. deny-Keeps c "WORK_BATCH" e _) (run_items-Keeps batch)

  apply_update-Keeps :
      (base : Revision) (proposal : ModelStateUpdateProposal) (turn_error : Option Error)
      → Keeps c (apply_update c base proposal turn_error)
  unfolding apply_update has get contains
  apply_update-Keeps base proposal none =
      Keeps-bind c (spend_budget c (("steps", units 1) ∷ [])) _
        (charge-Keeps _ (refl, tt) (one-IsCounterDraw "steps" refl))
        (λ _.
          Keeps-bind c (lift (proposed_deltas base proposal)) (λ ds. call (c.apply_batch ds base))
            (λ s. none_left) (λ ds s. none_left))
  apply_update-Keeps base proposal (some e) =
      Keeps-bind c (spend_budget c (("steps", units 1) ∷ [])) _
        (charge-Keeps _ (refl, tt) (one-IsCounterDraw "steps" refl)) (λ _ s. none_left)

  propose-Keeps :
      (proposal : Option ModelStateUpdateProposal) (base : Revision) (turn_error : Option Error)
      → Keeps c (propose c proposal base turn_error)
  unfolding propose update_refused event notify
  propose-Keeps none base turn_error s = none_left
  propose-Keeps (some proposal) base turn_error s =
      Keeps-bind c (ask c.revision) _ (λ s. none_left)
        (λ revision.
          Keeps-attempt c (apply_update c base proposal turn_error) (update_refused c proposal) _
            (apply_update-Keeps base proposal turn_error) (λ e s. none_left)
            (λ current s. none_left))
        s

  pub update-Keeps :
      (turn : ModelTurn) (base : Revision) (turn_error : Option Error)
      → Keeps c (update c turn base turn_error)
  unfolding update
  update-Keeps turn base turn_error = propose-Keeps turn.state_update base turn_error
