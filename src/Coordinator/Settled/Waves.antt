-- ===== src/Coordinator/Settled/Waves.antt =====
-- The items that a wave of `_batch` of src/industrial_agent_runtime/coordinator.py settles.
use industrial_agent_runtime.Prelude.{
  String, ◌==◌, ◌≡◌, refl, Bool, true, false, ◌||◌, some, List, [], ◌∷◌, ◌++◌, Dict, get, has,
  insert, contains, has-insert, arith,
}
use industrial_agent_runtime.Actions.{WorkItem, WorkBatch}
use industrial_agent_runtime.Decisions.{or_raise, key_error}
use industrial_agent_runtime.Batch.Preflight.{Sized, dependencies}
use industrial_agent_runtime.Coordinator.{Coordinator, event, lift}
use industrial_agent_runtime.Coordinator.Execution.{execute}
use industrial_agent_runtime.Coordinator.Batches.{
  Wave, Collected, item_ids, all_completed, outcome_of, has_result, skip_item, execute_item,
  run_item, execute_wave, ingest_item, ingest_wave, plan_ingestion, run_wave,
}
use industrial_agent_runtime.Coordinator.Settled.Answers.{Ends, Ends-pure, Ends-bind, Ends-any}

abbrev ids_of : List Collected → List String
ids_of [] = []
ids_of (x ∷ xs) = x.work_id ∷ ids_of xs

ids_of-append :
    (k : String) (xs ys : List Collected)
    → contains k (ids_of (xs ++ ys)) ≡ (contains k (ids_of xs) || contains k (ids_of ys))
unfolding contains
ids_of-append k [] ys = refl
ids_of-append k (x ∷ xs) ys = ground (arith, ids_of-append k xs ys)

-- An item of the wave has its outcome, or waits for its ingestion.
abbrev is_handled : Wave → String → Bool
is_handled wave k = has k wave.outcomes || contains k (ids_of wave.collected)

module _ {W : Type 0} (c : Coordinator W) (batch : WorkBatch) (sized : Dict Sized)
    (items : Dict WorkItem) where
  run_item-Ends :
      (completed : Bool) (key : String) (wave : Wave)
      → Ends
          (run_item c batch sized items completed key wave)
          (λ w. (k : String) → is_handled w k ≡ (is_handled wave k || key == k))
  unfolding run_item execute_item skip_item event contains
  run_item-Ends false key wave =
      Ends-bind _ _ (event "WORK_ITEM" "SKIPPED_DEPENDENCY" (item_ids batch key) []) _ (Ends-any _)
        (λ t _.
          Ends-pure (λ w. (k : String) → is_handled w k ≡ (is_handled wave k || key == k))
            (record wave { outcomes = insert key "SKIPPED_DEPENDENCY" wave.outcomes })
            (λ k. ground (arith, has-insert key k "SKIPPED_DEPENDENCY" wave.outcomes)))
  run_item-Ends true key wave =
      Ends-bind (λ _. Unit {0}) _ (lift (or_raise (get key sized) key_error)) _
        (Ends-any (lift (or_raise (get key sized) key_error)))
        (λ x _.
          Ends-bind (λ _. Unit {0}) _
            (execute c x.request (some x.reservation) (item_ids batch key)) _
            (Ends-any (execute c x.request (some x.reservation) (item_ids batch key)))
            (λ e _.
              Ends-pure (λ w. (k : String) → is_handled w k ≡ (is_handled wave k || key == k))
                (record wave {
                  collected =
                      wave.collected
                      ++ record { work_id = key; request = x.request; executed = e } ∷ [];
                })
                (λ k. ground (
                  arith,
                  ids_of-append k wave.collected
                      (record { work_id = key; request = x.request; executed = e } ∷ []),
                ))))

  execute_wave-Ends :
      (ks : List String) (wave : Wave)
      → Ends
          (execute_wave c batch sized items ks wave)
          (λ w. (k : String) → is_handled w k ≡ (is_handled wave k || contains k ks))
  unfolding execute_wave contains
  execute_wave-Ends [] wave =
      Ends-pure (λ w. (k : String) → is_handled w k ≡ (is_handled wave k || contains k [])) wave
        (λ k. ground arith)
  execute_wave-Ends (key ∷ ks) wave =
      Ends-bind (λ w. (k : String) → is_handled w k ≡ (is_handled wave k || key == k))
        (λ w. (k : String) → is_handled w k ≡ (is_handled wave k || (key == k || contains k ks)))
        (run_item c batch sized items (all_completed wave.outcomes (dependencies items key)) key
          wave)
        (execute_wave c batch sized items ks) (run_item-Ends _ key wave)
        (λ next grown s w after h k.
          ground (arith, execute_wave-Ends ks next s w after h k, grown k))

  ingest_wave-Ends :
      (xs : List Collected) (outcomes : Dict String)
      → Ends
          (ingest_wave c batch sized items xs outcomes)
          (λ out. (k : String) → has k out ≡ (has k outcomes || contains k (ids_of xs)))
  unfolding ingest_wave contains
  ingest_wave-Ends [] outcomes =
      Ends-pure (λ out. (k : String) → has k out ≡ (has k outcomes || contains k [])) outcomes
        (λ k. ground arith)
  ingest_wave-Ends (x ∷ xs) outcomes =
      Ends-bind (λ _. Unit {0})
        (λ out.
          (k : String) → has k out ≡ (has k outcomes || (x.work_id == k || contains k (ids_of xs))))
        (ingest_item c batch sized items x.work_id x.request x.executed) _
        (Ends-any (ingest_item c batch sized items x.work_id x.request x.executed))
        (λ success _.
          Ends-bind (λ _. Unit {0}) _
            (event "WORK_ITEM" (outcome_of success) (item_ids batch x.work_id) []) _
            (Ends-any (event "WORK_ITEM" (outcome_of success) (item_ids batch x.work_id) []))
            (λ t _ s out after h k. ground (
              arith,
              ingest_wave-Ends xs (insert x.work_id (outcome_of success) outcomes) s out after h k,
              has-insert x.work_id k (outcome_of success) outcomes,
            )))

  pub run_wave-Ends :
      (ks : List String) (outcomes : Dict String)
      → Ends
          (run_wave c batch sized items ks outcomes)
          (λ out. (k : String) → has k out ≡ (has k outcomes || contains k ks))
  unfolding run_wave contains
  run_wave-Ends ks outcomes =
      let start : Wave = record { outcomes = outcomes; collected = [] } in
      Ends-bind (λ w. (k : String) → is_handled w k ≡ (is_handled start k || contains k ks)) _
        (execute_wave c batch sized items ks start) _ (execute_wave-Ends ks start)
        (λ wave grown.
          Ends-bind (λ _. Unit {0}) _
            (plan_ingestion c batch sized items (has_result wave.collected)) _
            (Ends-any (plan_ingestion c batch sized items (has_result wave.collected)))
            (λ t _ s out after h k.
              ground
                (arith, ingest_wave-Ends wave.collected wave.outcomes s out after h k, grown k)))
