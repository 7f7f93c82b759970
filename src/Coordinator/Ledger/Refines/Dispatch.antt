-- ===== src/Coordinator/Ledger/Refines/Dispatch.antt =====
-- `_execute` of src/industrial_agent_runtime/coordinator.py as steps of the ledger: one dispatch, of a
-- request that the gates authorized at the very ledger that it changes.
use industrial_agent_runtime.Prelude.{
  ℕ, String, ◌==◌, ◌≡◌, ◌∙◌, refl, sym, ap, subst, ◌||◌, Option, none, some, ◌∷◌, Dict, ◌⊎◌, inl,
  inr,
}
use industrial_agent_runtime.Contracts.{Revision, ToolCallRequest, ToolSpec}
use industrial_agent_runtime.Decisions.{
  refuse_if, invariant_violation, attribute_error, ok, err, Error,
}
use industrial_agent_runtime.Gates.Pipeline.{ResolvedReservation}
use industrial_agent_runtime.Gates.Reconcile.{Reconciliation, reconcile}
use industrial_agent_runtime.Verification.Provenance.{Returned, untyped_result}
use industrial_agent_runtime.Accounting.{charge, spend, dispatch_draw, settle, actual_draw}
use industrial_agent_runtime.Coordinator.{
  State, Coordinator, Method, raise, pure, call, continue, event, ◌>>◌, deny,
}
use industrial_agent_runtime.Coordinator.Execution.{
  Authorized, Executed, authorized, execute, dispatch_request, finish_dispatch, settle_result, book,
  check_baseline, run_executor, refused, gate_refusal, report, call_executor, is_changed, status_of,
  reference_now,
}
use industrial_agent_runtime.Coordinator.Ledger.{
  Ledger, view, none_left, step, dispatched, unsettled,
}
use industrial_agent_runtime.Coordinator.Ledger.Refines.{
  Reaches, Keeps, Reads, Reads-continue, Reaches-continue, Reaches-Reads, spend_budget-cases,
  Result-cases,
}
use industrial_agent_runtime.Coordinator.Ledger.Refines.Authorization.{
  Reads-with, Reads-ask, gate_event-view, IsAuthorizedAt, authorized-Reads,
}

module _ {W : Type 0} (c : Coordinator W) where
  run_executor-Reads :
      (l : Ledger) (request : ToolCallRequest) (spec : ToolSpec) (s : State W)
      → view s ≡ l
      → Reads c l (λ _. Unit {0}) (run_executor c request spec s)
  unfolding run_executor
  run_executor-Reads l request spec s h =
      elim c.executor
        as (λ o.
          Reads c l (λ _. Unit {0})
            ((elim o as (λ x. Method W Returned) [
              | none ↦ raise attribute_error
              | some executor ↦ call (executor request spec)
            ])
              s)) [
                | none ↦ h
                | some executor ↦
                    Reads-with c l (λ _. Unit {0}) (executor request spec s.world).0 _ h (λ a e. tt)
              ]

  check_baseline-Reads :
      (l : Ledger) (before : Option Revision) (s : State W)
      → view s ≡ l
      → Reads c l (λ _. Unit {0}) (check_baseline c before s)
  unfolding check_baseline
  check_baseline-Reads l none s h = (h, tt)
  check_baseline-Reads l (some before) s h =
      Reads-continue c l (λ _. Unit {0}) (λ _. Unit {0}) _ (reference_now c s.world, s)
        (Reads-ask c l (reference_now c) s h)
        (λ now s₁ h₁ _.
          Reads-with c l (λ _. Unit {0}) (refuse_if (is_changed c before now) invariant_violation)
            s₁ h₁ (λ a e. tt))

  report-view :
      (request : ToolCallRequest) (executed : Executed) (failure : Option Error) (ids : Dict String)
      (s : State W)
      → view (report c request executed failure ids s).1 ≡ view s
  unfolding report
  report-view request executed (some e) ids s = refl
  report-view request executed none ids s = refl

  abbrev paying : Dict ℕ → Ledger → Ledger
  paying usage l = record l { usage = usage }

  abbrev dispatching : ToolCallRequest → Ledger → Ledger
  dispatching request l = record l { request_ids = request.request_id ∷ l.request_ids }

  -- What a settlement leaves of a ledger.
  abbrev settled_at : Ledger → Dict ℕ → Reconciliation → Ledger
  settled_at l usage accounting = record l {
    usage = usage;
    violated = status_of accounting == "VIOLATION" || l.violated;
  }

  book-cases :
      (accounting : Reconciliation) (ids : Dict String) (s : State W)
      → ((e : Error) × (book c accounting ids s ≡ (err e, s)))
        ⊎ ((usage : Dict ℕ) × (after : State W) × (spend s.usage accounting.charged ≡ ok usage)
            × (book c accounting ids s ≡ (ok accounting, after))
            × (view after ≡ settled_at (view s) usage accounting))
  unfolding book event
  book-cases accounting ids s =
      let next = λ (u : Dict ℕ) (s : State W). booked u s in
      elim (Result-cases (spend s.usage accounting.charged)) [
        | inl (e, h) ↦ inl (e, ap (λ r. continue raise next (r, s)) h)
        | inr (u, h) ↦ inr (u, (booked u s).1, h, ap (λ r. continue raise next (r, s)) h, refl)
      ]
    where
      booked : Dict ℕ → Method W Reconciliation
      booked u s =
          (event "RECONCILIATION" (status_of accounting) ids accounting.charged >> pure accounting)
            (record s { usage = u })

  -- The dispatch of a request that was authorized at a ledger, from the state behind its charge.
  module _ (l : Ledger) (request : ToolCallRequest) (a : Authorized) (ids : Dict String)
      (charged : Dict ℕ) (found : IsAuthorizedAt c l request a.frozen)
      (paid : charge c.pipeline.task.budget l.usage dispatch_draw ≡ ok charged) where
    abbrev under_way : Ledger
    under_way = dispatching request (paying charged l)

    settle-ok :
        (result : Returned) (accounting : Reconciliation) (usage : Dict ℕ)
        → reconcile a.frozen.reserved_budget_draw
            (actual_draw result request a.frozen.reserved_budget_draw)
            c.pipeline.task.budget
          ≡ ok accounting
        → spend charged accounting.charged ≡ ok usage
        → settle c.pipeline.task.budget l.usage request a.frozen.reserved_budget_draw result
          ≡ ok (record { usage = usage; accounting = accounting })
    unfolding settle
    settle-ok result accounting usage tallied h = rw paid (rw tallied (rw h))

    abbrev after_booking : Returned → Option Error → Reconciliation → Method W (Option Executed)
    after_booking result failure x s =
        continue raise
          (λ _. report c request (record { result = result; accounting = x }) failure ids)
          (check_baseline c a.before s)

    -- What stops the settlement leaves a dispatch that is not settled.
    stopped_short : (s : State W) → view s ≡ under_way → Reaches c l (view s)
    stopped_short s h =
        subst (Reaches c l) (sym h)
          (step none_left (unsettled request found.0 found.1 found.2 a.frozen charged found.3 paid))

    booked-Reaches :
        (result : Returned) (accounting : Reconciliation) (failure : Option Error) (s : State W)
        → view s ≡ under_way
        → reconcile a.frozen.reserved_budget_draw
            (actual_draw result request a.frozen.reserved_budget_draw)
            c.pipeline.task.budget
          ≡ ok accounting
        → Reaches c l
            (view (continue raise (after_booking result failure) (book c accounting ids s)).1)
    booked-Reaches result accounting failure s h tallied = elim (book-cases accounting ids s) [
      | inl (e, raised) ↦
          subst (λ r. Reaches c l (view (continue raise (after_booking result failure) r).1))
            (sym raised) (stopped_short s h)
      | inr (u, after, spent, done, seen) ↦
          let settled = settled_at under_way u accounting in
          let reached : Reaches c l settled = step none_left (
            dispatched request found.0 found.1 found.2 a.frozen result _ found.3 (
              settle-ok result accounting u tallied
                (subst (λ k. spend k.usage accounting.charged ≡ ok u) h spent))) in
          subst (λ r. Reaches c l (view (continue raise (after_booking result failure) r).1))
            (sym done)
            (Reaches-continue c l settled (λ _. Unit {0}) raise _ (check_baseline c a.before after)
              (check_baseline-Reads settled a.before after
                (seen ∙ ap (λ k. settled_at k u accounting) h))
              (λ e s₁ h₁. subst (Reaches c l) (sym h₁) reached)
              (λ _ s₁ h₁ _.
                subst (Reaches c l) (sym (report-view request _ failure ids s₁ ∙ h₁)) reached))
    ]

    finish_dispatch-Reaches :
        (result : Returned) (failure : Option Error) (s : State W)
        → view s ≡ under_way
        → Reaches c l (view (finish_dispatch c request a result failure ids s).1)
    unfolding finish_dispatch settle_result
    finish_dispatch-Reaches result failure s h =
        elim (Result-cases (
          reconcile a.frozen.reserved_budget_draw
            (actual_draw result request a.frozen.reserved_budget_draw) c.pipeline.task.budget)) [
              | inl (e, raised) ↦ rw raised (stopped_short s h)
              | inr (accounting, tallied) ↦
                  rw tallied (booked-Reaches result accounting failure s h tallied)
            ]

    call_executor-Reaches :
        (s : State W)
        → view s ≡ paying charged l
        → Reaches c l (view (call_executor c request a ids s).1)
    unfolding call_executor event
    call_executor-Reaches s h =
        let s₁ : State W =
          (event "EXECUTE" "DISPATCHED" ids dispatch_draw
            (record s { request_ids = request.request_id ∷ s.request_ids })).1 in
        Reaches-continue c l under_way (λ _. Unit {0})
          (λ e. finish_dispatch c request a untyped_result (some e) ids)
          (λ result. finish_dispatch c request a result none ids) (run_executor c request a.spec s₁)
          (run_executor-Reads under_way request a.spec s₁ (ap (dispatching request) h))
          (λ e s₂ h₂. finish_dispatch-Reaches untyped_result (some e) s₂ h₂)
          (λ result s₂ h₂ _. finish_dispatch-Reaches result none s₂ h₂)

  dispatch_request-Reaches :
      (l : Ledger) (request : ToolCallRequest) (a : Authorized) (ids : Dict String) (s : State W)
      → view s ≡ l
      → IsAuthorizedAt c l request a.frozen
      → Reaches c l (view (dispatch_request c request a ids s).1)
  unfolding dispatch_request
  dispatch_request-Reaches l request a ids s h found = elim (spend_budget-cases c dispatch_draw s) [
    | inl (e, raised) ↦
        subst (λ r. Reaches c l (view (continue raise (λ _. call_executor c request a ids) r).1))
          (sym raised) (subst (Reaches c l) (sym h) none_left)
    | inr (u, paid, ran) ↦
        subst (λ r. Reaches c l (view (continue raise (λ _. call_executor c request a ids) r).1))
          (sym ran)
          (call_executor-Reaches l request a ids u found
            (subst (λ k. charge c.pipeline.task.budget k.usage dispatch_draw ≡ ok u) h paid)
            (record s { usage = u }) (ap (paying u) h))
  ]

  gate_refusal-Reads :
      (l : Ledger) (e : Error) (ids : Dict String) (s : State W)
      → view s ≡ l
      → Reads c l (λ _. Unit {0}) (gate_refusal c e ids s)
  unfolding gate_refusal event
  gate_refusal-Reads l (Error.gate_denied d) ids s h = (gate_event-view c d.decision ids s ∙ h, tt)
  gate_refusal-Reads l (Error.verification_rejected d) ids s h = (h, tt)
  gate_refusal-Reads l (Error.denied r) ids s h = (h, tt)
  gate_refusal-Reads l Error.invariant_violation ids s h = (h, tt)
  gate_refusal-Reads l Error.value_error ids s h = (h, tt)
  gate_refusal-Reads l Error.type_error ids s h = (h, tt)
  gate_refusal-Reads l Error.key_error ids s h = (h, tt)
  gate_refusal-Reads l Error.attribute_error ids s h = (h, tt)
  gate_refusal-Reads l Error.overflow_error ids s h = (h, tt)
  gate_refusal-Reads l (Error.raised r) ids s h = (h, tt)

  refused-Reads :
      (request : ToolCallRequest) (ids : Dict String) (e : Error) (s : State W)
      → Reads c (view s) (λ _. Unit {0}) (refused c request ids e s)
  unfolding refused deny
  refused-Reads request ids e s =
      Reads-continue c (view s) (λ _. Unit {0}) (λ _. Unit {0}) _ (gate_refusal c e ids s)
        (gate_refusal-Reads (view s) e ids s refl) (λ _ s₁ h _. (h, tt))

  -- Executing a request leaves the ledger as it was, or dispatches the request once.
  pub execute-Keeps :
      (request : ToolCallRequest) (preflight : Option ResolvedReservation) (ids : Dict String)
      → Keeps c (execute c request preflight ids)
  unfolding execute
  execute-Keeps request preflight ids s =
      Reaches-continue c (view s) (view s) (λ a. IsAuthorizedAt c (view s) request a.frozen)
        (refused c request ids) (λ a. dispatch_request c request a ids)
        (authorized c request preflight ids s) (authorized-Reads c request preflight ids s)
        (λ e s₁ h.
          Reaches-Reads c (view s) _ (refused c request ids e s₁) (refused-Reads request ids e s₁)
            h)
        (λ a s₁ h found. dispatch_request-Reaches (view s) request a ids s₁ h found)
