-- ===== src/Coordinator/Ledger/Invariants.antt =====
-- What every run of src/industrial_agent_runtime/coordinator.py keeps: invariants by induction on the
-- steps of the ledger.
use industrial_agent_runtime.Prelude.{ℕ, ◌≡◌, refl, none, some, [], AllEntries, ◌⊎◌, inl, inr}
use industrial_agent_runtime.Json.{Json}
use industrial_agent_runtime.Decisions.{ok}
use industrial_agent_runtime.Schema.{schema_errors}
use industrial_agent_runtime.Schema.Instance.{instance_errors}
use industrial_agent_runtime.Gates.Pipeline.{GatePipeline}
use industrial_agent_runtime.Knowledge.Visible.{
  IsVisible, start_known-AllEntries, verify-learn-AllEntries,
}
use industrial_agent_runtime.Verification.Outcome.{ResultVerificationPipeline}
use industrial_agent_runtime.Verification.Outcome.Ingested.{verify_finish-AllKept}
use industrial_agent_runtime.Accounting.Usage.{
  IsCounted, IsUsage-IsCounted, dispatch_draw-IsCounterDraw,
}
use industrial_agent_runtime.Accounting.Settling.{dispatch_draw-IsDict}
use industrial_agent_runtime.Accounting.WithinQuota.{authorize-settle-IsCounted}
use industrial_agent_runtime.Accounting.Preserved.{start_usage-IsUsage, charge-IsCounted}
use industrial_agent_runtime.Coordinator.{Coordinator}
use industrial_agent_runtime.Coordinator.Loop.{start_state, run}
use industrial_agent_runtime.Coordinator.Ledger.{
  Ledger, view, Step, charged, dispatched, unsettled, learned, finished, stopped, withdrawn, Steps,
  none_left, step,
}
use industrial_agent_runtime.Coordinator.Ledger.Refines.Rounds.{run-Steps}

module _ (g : GatePipeline) (p : ResultVerificationPipeline) where
  -- What every step keeps, every run keeps.
  Steps-keep :
      (P : Ledger → Type 0)
      → ((l m : Ledger) → Step g p l m → P l → P m)
      → {l m : Ledger} → Steps g p l m
      → P l
      → P m
  Steps-keep P k none_left h = h
  Steps-keep P k (step {m = m} {n = n} q s) h = k m n s (Steps-keep P k q h)

  abbrev KnowsVisible : Ledger → Type 0
  KnowsVisible l = AllEntries IsVisible l.known_refs

  Step-KnowsVisible : {l m : Ledger} → Step g p l m → KnowsVisible l → KnowsVisible m
  Step-KnowsVisible (charged draw usage d counter paid) all = all
  Step-KnowsVisible (dispatched request revision reading expected frozen returned s h ran) all = all
  Step-KnowsVisible (unsettled request revision reading expected frozen usage h paid) all = all
  Step-KnowsVisible (learned result request spec accounting reserved revision reader v h) all =
      verify-learn-AllEntries p result request spec accounting _ reserved revision reader v all h
  Step-KnowsVisible (finished proposal revision d h) all = all
  Step-KnowsVisible (stopped status e) all = all
  Step-KnowsVisible withdrawn all = all

  Step-IsCounted :
      {l m : Ledger}
      → Step g p l m
      → IsCounted g.task.budget l.usage
      → IsCounted g.task.budget m.usage
  Step-IsCounted (charged draw usage d counter paid) u =
      charge-IsCounted g.task.budget _ draw usage u d counter paid
  Step-IsCounted (dispatched request revision reading expected frozen returned s h ran) u =
      authorize-settle-IsCounted g request _ _ revision reading expected frozen returned s u h ran
  Step-IsCounted (unsettled request revision reading expected frozen usage h paid) u =
      charge-IsCounted g.task.budget _ _ usage u dispatch_draw-IsDict dispatch_draw-IsCounterDraw
        paid
  Step-IsCounted (learned result request spec accounting reserved revision reader v h) u = u
  Step-IsCounted (finished proposal revision d h) u = u
  Step-IsCounted (stopped status e) u = u
  Step-IsCounted withdrawn u = u

  -- An output conforms to the task's schema, which lies in the supported subset.
  abbrev ConformsIfAny : Ledger → Type 0
  ConformsIfAny l =
      (l.output ≡ none)
      ⊎ ((output : Json) × (l.output ≡ some output)
          × (schema_errors p.re [] g.task.output_schema ≡ ok [])
          × (instance_errors p.re [] output g.task.output_schema ≡ ok []))

  Step-ConformsIfAny : {l m : Ledger} → Step g p l m → ConformsIfAny l → ConformsIfAny m
  Step-ConformsIfAny (charged draw usage d counter paid) o = o
  Step-ConformsIfAny (dispatched request revision reading expected frozen returned s h ran) o = o
  Step-ConformsIfAny (unsettled request revision reading expected frozen usage h paid) o = o
  Step-ConformsIfAny (learned result request spec accounting reserved revision reader v h) o = o
  Step-ConformsIfAny (finished proposal revision d h) o =
      let (supported, conforms, _) = verify_finish-AllKept p proposal g.task _ revision d h in
      inr (proposal.structured_output, refl, supported, conforms)
  Step-ConformsIfAny (stopped status e) o = o
  Step-ConformsIfAny withdrawn o = inl refl

module _ {W : Type 0} (c : Coordinator W) (bound : ℕ) (world : W) where
  -- The ledger that a fresh run of at most so many rounds leaves.
  abbrev pub after_run : Ledger
  after_run = view (run c bound (start_state c.pipeline.task world)).1

  -- Behind a run that started fresh, whatever its model, tools and store answered, every reference
  -- that a request may cite is Agent-visible and stands under its id.
  pub run-KnowsVisible : AllEntries IsVisible after_run.known_refs
  unfolding start_state
  run-KnowsVisible =
      Steps-keep c.pipeline c.verification (KnowsVisible c.pipeline c.verification)
        (λ l m s. Step-KnowsVisible c.pipeline c.verification s)
        (run-Steps c bound (start_state c.pipeline.task world))
        (start_known-AllEntries c.pipeline.task)

  -- Behind a run that started fresh, whatever its tools reported and in whatever amounts, the usage has
  -- an entry for every dimension with a quota, and the standard counters (model calls, tool calls,
  -- subagents and steps) are integers within their quotas.
  pub run-IsCounted : IsCounted c.pipeline.task.budget after_run.usage
  unfolding start_state
  run-IsCounted =
      Steps-keep c.pipeline c.verification (λ l. IsCounted c.pipeline.task.budget l.usage)
        (λ l m s. Step-IsCounted c.pipeline c.verification s)
        (run-Steps c bound (start_state c.pipeline.task world))
        (IsUsage-IsCounted c.pipeline.task.budget _ (start_usage-IsUsage c.pipeline.task.budget))

  -- Behind a run that started fresh there is no output, or the output conforms to the task's output
  -- schema, which lies in the supported subset.
  pub run-conforms :
      (after_run.output ≡ none)
      ⊎ ((output : Json) × (after_run.output ≡ some output)
          × (schema_errors c.verification.re [] c.pipeline.task.output_schema ≡ ok [])
          × (instance_errors c.verification.re [] output c.pipeline.task.output_schema ≡ ok []))
  unfolding start_state
  run-conforms =
      Steps-keep c.pipeline c.verification (ConformsIfAny c.pipeline c.verification)
        (λ l m s. Step-ConformsIfAny c.pipeline c.verification s)
        (run-Steps c bound (start_state c.pipeline.task world)) (inl refl)
