-- ===== src/Coordinator/Execution.antt =====
-- `_execute` of src/industrial_agent_runtime/coordinator.py: authorize, dispatch once, reconcile.
use industrial_agent_runtime.Prelude.{
  ℕ, String, Bool, true, false, not, ◌&&◌, Option, none, some, List, [], ◌∷◌, Dict, get, is_nil,
  is_some, if◌then◌else◌,
}
use industrial_agent_runtime.Contracts.{
  Revision, mutate, eqb_class, eqb_revision, ToolSpec, ToolCallRequest,
}
use industrial_agent_runtime.Decisions.{
  Result, ok, err, Error, invariant_violation, key_error, attribute_error, or_raise, refuse_if,
  GateDecision, Verdict, allow, require_approval,
}
use industrial_agent_runtime.Gates.Pipeline.{ResolvedReservation, FrozenRequest, Reading}
use industrial_agent_runtime.Gates.Static.{typed}
use industrial_agent_runtime.Gates.Authorize.{authorize, check_dispatch}
use industrial_agent_runtime.Gates.Reconcile.{Reconciliation, reconcile}
use industrial_agent_runtime.Verification.Provenance.{Returned, untyped_result}
use industrial_agent_runtime.Accounting.{dispatch_draw, actual_draw, spend}
use industrial_agent_runtime.Batch.Preflight.{request_supported}
use industrial_agent_runtime.Coordinator.{
  Coordinator, Method, ◌>>=◌, ◌>>◌, pure, raise, attempt, gets, modify, lift, ask, call, elapsed,
  event, deny, spend_budget,
}

-- What the gates leave to the dispatch; `before` is the reference revision, none for MUTATE or
-- without a guard.
pub record Authorized : Type 0 where
  pub spec : ToolSpec
  pub frozen : FrozenRequest
  pub before : Option Revision

pub record Executed : Type 0 where
  pub result : Returned
  pub accounting : Reconciliation

-- What the request was sized at.
pub record Supported : Type 0 where
  pub spec : ToolSpec
  pub reservation : ResolvedReservation

unfoldable pub verdict_text : Verdict → String
verdict_text allow = "ALLOW"
verdict_text Verdict.deny = "DENY"
verdict_text require_approval = "REQUIRE_APPROVAL"

unfoldable pub status_of : Reconciliation → String
status_of accounting = if is_nil accounting.violations then "RECONCILED" else "VIOLATION"

module _ {W : Type 0} (c : Coordinator W) where
  -- All of gate, executor, verifier and ingestor.
  unfoldable pub has_hooks : Bool
  has_hooks =
      is_some c.pipeline.consumer && (is_some c.executor && (c.has_verifier && c.has_ingestor))

  -- The guard's answer now, for the gates.
  unfoldable pub reading : W → Reading
  reading w = elim (c.reference_revision w) [ err e ↦ err e | ok r ↦ ok (some r) ]

  -- `_reference_revision`
  unfoldable pub reference_now : W → Result (Option Revision)
  unfolding reading
  reference_now w = elim c.pipeline.has_reference_guard [ true ↦ reading w | false ↦ ok none ]

  unfoldable pub gate_events : List GateDecision → (ids : Dict String) → Method W (Unit {0})
  unfolding event
  gate_events [] ids = pure tt
  gate_events (d ∷ ds) ids = event "GATE" (verdict_text d.decision) ids [] >> gate_events ds ids

  -- A new request is checked and sized; an item of a batch was sized before the batch.
  unfoldable pub size :
      ToolCallRequest → (preflight : Option ResolvedReservation) → Method W Supported
  size request (some r) = do
    spec ← lift (or_raise (get request.tool_name c.pipeline.specs) key_error)
    pure (record { spec = spec; reservation = r })
  size request none = do
    s ← gets (λ s. s)
    checked ← lift (request_supported c.pipeline s.known_refs s.request_ids has_hooks request)
    pure (record { spec = checked.spec; reservation = checked.reservation })

  unfoldable pub baseline : ToolSpec → Method W (Option Revision)
  baseline spec = elim (eqb_class spec.side_effect_class mutate) [
    | true ↦ pure none
    | false ↦ ask reference_now
  ]

  unfoldable pub freeze_request : ToolCallRequest → Supported → Method W FrozenRequest
  freeze_request request sized = do
    revision ← ask c.revision
    s ← gets (λ s. s)
    lift (
        authorize c.pipeline (typed request) s.known_refs s.usage revision (reading s.world)
          (some sized.reservation))

  -- The bindings once more, and the revision of the reference state before the dispatch.
  unfoldable pub recheck : ToolSpec → FrozenRequest → Method W Authorized
  recheck spec frozen = do
    revision ← ask c.revision
    s ← gets (λ s. s)
    lift (check_dispatch c.pipeline frozen revision (reading s.world))
    before ← baseline spec
    pure (record { spec = spec; frozen = frozen; before = before })

  -- Everything before the dispatch.
  unfoldable pub authorized :
      ToolCallRequest
      → (preflight : Option ResolvedReservation) → (ids : Dict String) → Method W Authorized
  authorized request preflight ids = do
    sized ← size request preflight
    frozen ← freeze_request request sized
    elapsed c
    gate_events frozen.decisions ids
    recheck sized.spec frozen

  unfoldable pub run_executor : ToolCallRequest → ToolSpec → Method W Returned
  run_executor request spec = elim c.executor [
    | none ↦ raise attribute_error
    | some executor ↦ call (executor request spec)
  ]

  unfoldable pub book : Reconciliation → (ids : Dict String) → Method W Reconciliation
  book accounting ids = do
    usage ← gets (λ s. s.usage)
    settled ← lift (spend usage accounting.charged)
    modify (λ s. record s { usage = settled })
    event "RECONCILIATION" (status_of accounting) ids accounting.charged
    pure accounting

  -- The reconciliation with the report, or at the full reservation.
  unfoldable pub settle_result :
      ToolCallRequest
      → (reserved : Dict ℕ) → Returned
      → (ids : Dict String) → Method W Reconciliation
  settle_result request reserved result ids =
      lift (reconcile reserved (actual_draw result request reserved) c.pipeline.task.budget)
      >>= λ accounting. book accounting ids

  unfoldable pub is_changed : Revision → Option Revision → Bool
  is_changed before none = true
  is_changed before (some now) = not (eqb_revision now before)

  -- The reference state is as before.
  unfoldable pub check_baseline : Option Revision → Method W (Unit {0})
  check_baseline none = pure tt
  check_baseline (some before) = do
    now ← ask reference_now
    lift (refuse_if (is_changed before now) invariant_violation)

  unfoldable pub report :
      ToolCallRequest
      → Executed
      → (failure : Option Error) → (ids : Dict String) → Method W (Option Executed)
  unfolding event deny
  report request executed (some e) ids =
      deny "EXECUTION" e (("request_id", request.request_id) ∷ ids) >> pure none
  report request executed none ids = event "TOOL_RESULT" "RETURNED" ids [] >> pure (some executed)

  unfoldable pub finish_dispatch :
      ToolCallRequest
      → Authorized
      → Returned
      → (failure : Option Error) → (ids : Dict String) → Method W (Option Executed)
  finish_dispatch request a result failure ids = do
    accounting ← settle_result request a.frozen.reserved_budget_draw result ids
    check_baseline a.before
    report request (record { result = result; accounting = accounting }) failure ids

  -- The one call of the executor, and the reconciliation.
  unfoldable pub call_executor :
      ToolCallRequest → Authorized → (ids : Dict String) → Method W (Option Executed)
  call_executor request a ids = do
    modify (λ s. record s { request_ids = request.request_id ∷ s.request_ids })
    event "EXECUTE" "DISPATCHED" ids dispatch_draw
    attempt (run_executor request a.spec)
        (λ e. finish_dispatch request a untyped_result (some e) ids)
        (λ result. finish_dispatch request a result none ids)

  -- Behind the authorization.
  unfoldable pub dispatch_request :
      ToolCallRequest → Authorized → (ids : Dict String) → Method W (Option Executed)
  dispatch_request request a ids = spend_budget c dispatch_draw >> call_executor request a ids

  -- A gate's denial carries its decision.
  unfoldable pub gate_refusal : Error → (ids : Dict String) → Method W (Unit {0})
  gate_refusal (Error.gate_denied d) ids = event "GATE" (verdict_text d.decision) ids []
  gate_refusal _ ids = pure tt

  -- A request that is refused before its dispatch.
  unfoldable pub refused :
      ToolCallRequest → (ids : Dict String) → Error → Method W (Option Executed)
  refused request ids e = do
    gate_refusal e ids
    deny "EXECUTION" e (("request_id", request.request_id) ∷ ids)
    pure none

  unfoldable pub execute :
      ToolCallRequest
      → (preflight : Option ResolvedReservation) → (ids : Dict String) → Method W (Option Executed)
  execute request preflight ids =
      attempt (authorized request preflight ids) (refused request ids)
        (λ a. dispatch_request request a ids)
