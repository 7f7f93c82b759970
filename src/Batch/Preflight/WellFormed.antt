-- ===== src/Batch/Preflight/WellFormed.antt =====
-- What a batch that passed `_validate_batch` is (src/industrial_agent_runtime/coordinator.py).
use industrial_agent_runtime.Prelude.{
  ℕ, String, ◌==◌, ◌≡◌, refl, sym, subst, Bool, true, false, not, ◌||◌, List, [], ◌∷◌, Dict, insert,
  AllEntries, AllEntries-insert, AllEntries-nil, sorted, get, keys, contains, subset,
  contains-subset, length, eqb, arith, eq_iff, inl, inr, Option-cases,
}
use industrial_agent_runtime.Contracts.{InformationRef}
use industrial_agent_runtime.Actions.{WorkItem, WorkBatch}
use industrial_agent_runtime.Decisions.{
  ok, for_each, GateDecision, ok-injective, >>=-eq-ok, refuse_if-eq-ok,
}
use industrial_agent_runtime.Gates.Pipeline.{GatePipeline}
use industrial_agent_runtime.Gates.Budget.{check_budget}
use industrial_agent_runtime.Json.{units}
use industrial_agent_runtime.Batch.Waves.{is_cyclic}
use industrial_agent_runtime.Batch.Waves.Ranked.{IsRanked, is_cyclic_iff}
use industrial_agent_runtime.Batch.Preflight.{
  Sized, Preflight, index, dependencies, check_items, validate_batch, start_preflight, too_much,
  batch_draw, check_requests, check_effect,
}
use industrial_agent_runtime.Batch.Preflight.Distinct.{IsDistinct, work_ids, index-IsDistinct}
use industrial_agent_runtime.Batch.Preflight.Runnable.{
  request_ids, AllRunnable, check_items-AllRunnable,
}

-- A batch that may run.
pub record IsWellFormed (g : GatePipeline) (known : Dict InformationRef) (dispatched : List String)
    (batch : WorkBatch) : Type 0 where
  pub policy : batch.completion_policy ≡ "ALL_SETTLED"
  pub distinct_ids : IsDistinct (work_ids batch.items)
  pub runnable : AllRunnable g known dispatched (work_ids batch.items) batch.items
  pub distinct_requests : IsDistinct (request_ids batch.items)
  pub rank : String → ℕ
  pub ranked : IsRanked (dependencies (index batch.items [])) rank (work_ids batch.items)

-- The steps of a validation that returned.
pub record IsValidated (g : GatePipeline) (known : Dict InformationRef) (dispatched : List String)
    (has_hooks : Bool) (usage : Dict ℕ) (batch : WorkBatch) (sized : Dict Sized) : Type 0 where
  pub policy : (batch.completion_policy == "ALL_SETTLED") ≡ true
  pub counted : length (index batch.items []) ≡ length batch.items
  pub preflight : Preflight
  pub looped :
      check_items g known dispatched has_hooks
        (keys (index batch.items []))
        batch.items
        start_preflight
      ≡ ok preflight
  pub acyclic :
      is_cyclic
        (dependencies (index batch.items []))
        (length (index batch.items []))
        []
        (keys (index batch.items []))
      ≡ false
  pub counts :
      (too_much g usage (units (length (index batch.items []))) "tool_calls"
        || too_much g usage (units (length (index batch.items []))) "steps")
      ≡ false
  pub budget : GateDecision
  pub fits :
      check_budget g batch.batch_id
        (batch_draw (length (index batch.items [])) preflight.reserved)
        usage
      ≡ ok budget
  pub answer : preflight.sized ≡ sized

module _ (g : GatePipeline) (known : Dict InformationRef) (dispatched : List String)
    (has_hooks : Bool) (usage : Dict ℕ) (batch : WorkBatch) (sized : Dict Sized) where
  pub validate_batch-IsValidated :
      validate_batch g known dispatched has_hooks usage batch ≡ ok sized
      → IsValidated g known dispatched has_hooks usage batch sized
  unfolding validate_batch
  validate_batch-IsValidated h =
      let (policy, h₁) = refuse_if-eq-ok (not (batch.completion_policy == "ALL_SETTLED")) _ _ h in
      let (counted, h₂) =
        refuse_if-eq-ok (not (eqb (length (index batch.items [])) (length batch.items))) _ _ h₁ in
      let (p, looped, h₃) =
        >>=-eq-ok
          (check_items g known dispatched has_hooks (keys (index batch.items [])) batch.items
            start_preflight)
          _ h₂ in
      let (acyclic, h₄) =
        refuse_if-eq-ok
          (is_cyclic (dependencies (index batch.items [])) (length (index batch.items [])) []
            (keys (index batch.items [])))
          _ _ h₃ in
      let (counts, h₅) =
        refuse_if-eq-ok
          (too_much g usage (units (length (index batch.items []))) "tool_calls"
            || too_much g usage (units (length (index batch.items []))) "steps")
          _ _ h₄ in
      let (_, requests, h₆) = >>=-eq-ok (check_requests g usage batch) _ h₅ in
      let (budget, fits, h₇) =
        >>=-eq-ok
          (check_budget g batch.batch_id (batch_draw (length (index batch.items [])) p.reserved)
            usage)
          _ h₆ in
      let (_, effects, h₈) =
        >>=-eq-ok (for_each (sorted (keys (index batch.items []))) (check_effect g p.sized)) _ h₇ in
      record {
        policy = ground (arith, policy);
        counted = ground (arith, counted);
        preflight = p;
        looped = looped;
        acyclic = acyclic;
        counts = counts;
        budget = budget;
        fits = fits;
        answer = ok-injective h₈;
      }

index-declared :
    (g : GatePipeline) (known : Dict InformationRef) (dispatched ids : List String)
    (xs : List WorkItem) (m : Dict WorkItem)
    → AllRunnable g known dispatched ids xs
    → AllEntries (λ k item. subset item.depends_on ids ≡ true) m
    → AllEntries (λ k item. subset item.depends_on ids ≡ true) (index xs m)
unfolding index
index-declared g known dispatched ids [] m all held = held
index-declared g known dispatched ids (x ∷ xs) m all held =
    index-declared g known dispatched ids xs (insert x.work_id x m) all.1 (
      AllEntries-insert (λ k item. subset item.depends_on ids ≡ true) m x.work_id x held
        all.0.declared)

dependencies-declared :
    (items : Dict WorkItem) (ids : List String)
    → AllEntries (λ k item. subset item.depends_on ids ≡ true) items
    → (k d : String) → contains d (dependencies items k) ≡ true
    → contains d ids ≡ true
unfolding dependencies contains
dependencies-declared items ids all k d dep = elim (Option-cases (get k items)) [
  | inl absent ↦ absurd (ground (arith, dep, absent))
  | inr (item, found) ↦
      contains-subset item.depends_on ids d (all k item found) (ground (arith, dep, found))
]

length-keys : (items : Dict WorkItem) → length (keys items) ≡ length items
unfolding keys
length-keys [] = refl
length-keys ((k, x) ∷ items) = ground (arith, length-keys items)

-- A batch that `_validate_batch` lets through has the policy ALL_SETTLED and work ids that differ.
-- Each item is a pending tool call that the static gates admit, whose request id was not dispatched
-- before and stands once in the batch, and whose dependencies are items of the batch. The items
-- have a ranking in which every dependency ranks below its item.
pub validate_batch-IsWellFormed :
    (g : GatePipeline) (known : Dict InformationRef) (dispatched : List String) (has_hooks : Bool)
    (usage : Dict ℕ) (batch : WorkBatch) (sized : Dict Sized)
    → validate_batch g known dispatched has_hooks usage batch ≡ ok sized
    → IsWellFormed g known dispatched batch
unfolding keys
validate_batch-IsWellFormed g known dispatched has_hooks usage batch sized h =
    let v = validate_batch-IsValidated g known dispatched has_hooks usage batch sized h in
    let items = index batch.items [] in
    let (distinct, _, order) = index-IsDistinct batch.items [] (omega (arith, v.counted)) in
    let ids : keys items ≡ work_ids batch.items = order in
    let (runnable, requests, _) =
      check_items-AllRunnable g known dispatched has_hooks (keys items) batch.items start_preflight
        v.preflight v.looped in
    let declared =
      index-declared g known dispatched (keys items) batch.items [] runnable (AllEntries-nil _) in
    let (rank, ranked) =
      (is_cyclic_iff (dependencies items) (keys items)
          (λ k d _ dep. dependencies-declared items (keys items) declared k d dep)).0
        (subst (λ n. is_cyclic (dependencies items) n [] (keys items) ≡ false)
          (sym (length-keys items)) v.acyclic) in
    record {
      policy = (eq_iff batch.completion_policy "ALL_SETTLED").0 v.policy;
      distinct_ids = distinct;
      runnable = subst (λ ks. AllRunnable g known dispatched ks batch.items) ids runnable;
      distinct_requests = requests;
      rank = rank;
      ranked = subst (IsRanked (dependencies items) rank) ids ranked;
    }
