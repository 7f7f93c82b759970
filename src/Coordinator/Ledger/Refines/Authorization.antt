-- ===== src/Coordinator/Ledger/Refines/Authorization.antt =====
-- `_execute` of src/industrial_agent_runtime/coordinator.py up to the dispatch: it leaves the ledger,
-- and what it returns was authorized there.
use industrial_agent_runtime.Prelude.{
  String, ◌≡◌, ◌∙◌, refl, subst, true, false, Option, none, some, List, [], ◌∷◌, Dict, get,
}
use industrial_agent_runtime.Contracts.{Revision, ToolCallRequest, ToolSpec, eqb_class, mutate}
use industrial_agent_runtime.Decisions.{Result, or_raise, key_error, ok, err, GateDecision, Verdict}
use industrial_agent_runtime.Gates.Pipeline.{ResolvedReservation, FrozenRequest, Reading}
use industrial_agent_runtime.Gates.Static.{typed}
use industrial_agent_runtime.Gates.Authorize.{authorize, check_dispatch}
use industrial_agent_runtime.Batch.Preflight.{request_supported}
use industrial_agent_runtime.Coordinator.{
  State, Coordinator, Method, raise, pure, ask, continue, event,
}
use industrial_agent_runtime.Coordinator.Execution.{
  Authorized, Supported, authorized, recheck, size, freeze_request, baseline, gate_events,
  has_hooks, reading, reference_now, verdict_text,
}
use industrial_agent_runtime.Coordinator.Ledger.{Ledger, view}
use industrial_agent_runtime.Coordinator.Ledger.Refines.{Reads, Reads-continue}

module _ {W : Type 0} (c : Coordinator W) where
  -- The answer of a computation on values, or of a question.
  pub Reads-lift :
      {A : Type 0} (l : Ledger) (r : Result A) (s : State W)
      → view s ≡ l
      → Reads c l (λ a. r ≡ ok a) (r, s)
  Reads-lift l (err e) s h = h
  Reads-lift l (ok a) s h = (h, refl)

  pub Reads-with :
      {A : Type 0} (l : Ledger) (P : A → Type 0) (r : Result A) (s : State W)
      → view s ≡ l
      → ((a : A) → r ≡ ok a → P a)
      → Reads c l P (r, s)
  Reads-with l P (err e) s h k = h
  Reads-with l P (ok a) s h k = (h, k a refl)

  pub Reads-ask :
      {A : Type 0} (l : Ledger) (f : W → Result A) (s : State W)
      → view s ≡ l
      → Reads c l (λ _. Unit {0}) (f s.world, s)
  Reads-ask l f s h = Reads-of (f s.world)
    where
      Reads-of : {A : Type 0} (r : Result A) → Reads c l (λ _. Unit {0}) (r, s)
      Reads-of (err e) = h
      Reads-of (ok a) = (h, tt)

  pub gate_event-view :
      (v : Verdict) (ids : Dict String) (s : State W)
      → view (event "GATE" (verdict_text v) ids [] s).1 ≡ view s
  unfolding event verdict_text
  gate_event-view Verdict.allow ids s = refl
  gate_event-view Verdict.deny ids s = refl
  gate_event-view Verdict.require_approval ids s = refl

  gate_events-Reads :
      (l : Ledger) (ds : List GateDecision) (ids : Dict String) (s : State W)
      → view s ≡ l
      → Reads c l (λ _. Unit {0}) (gate_events c ds ids s)
  unfolding gate_events event
  gate_events-Reads l [] ids s h = (h, tt)
  gate_events-Reads l (d ∷ ds) ids s h =
      gate_events-Reads l ds ids _ (gate_event-view d.decision ids s ∙ h)

  size-Reads :
      (request : ToolCallRequest) (preflight : Option ResolvedReservation) (s : State W)
      → Reads c (view s) (λ _. Unit {0}) (size c request preflight s)
  unfolding size
  size-Reads request (some r) s =
      Reads-continue c (view s) (λ _. Unit {0}) (λ _. Unit {0})
        (λ spec. pure (record { spec = spec; reservation = r }))
        (or_raise (get request.tool_name c.pipeline.specs) key_error, s)
        (Reads-with (view s) (λ _. Unit {0}) _ s refl (λ a e. tt)) (λ a s' h p. (h, tt))
  size-Reads request none s =
      Reads-continue c (view s) (λ _. Unit {0}) (λ _. Unit {0})
        (λ checked. pure (record { spec = checked.spec; reservation = checked.reservation }))
        (request_supported c.pipeline s.known_refs s.request_ids (has_hooks c) request, s)
        (Reads-with (view s) (λ _. Unit {0}) _ s refl (λ a e. tt)) (λ a s' h p. (h, tt))

  baseline-Reads :
      (l : Ledger) (spec : ToolSpec) (s : State W)
      → view s ≡ l
      → Reads c l (λ _. Unit {0}) (baseline c spec s)
  unfolding baseline
  baseline-Reads l spec s h =
      elim (eqb_class spec.side_effect_class mutate)
        as (λ b.
          Reads c l (λ _. Unit {0})
            ((elim b as (λ x. Method W (Option Revision)) [
              | true ↦ pure none
              | false ↦ ask (reference_now c)
            ])
              s)) [ true ↦ (h, tt) | false ↦ Reads-ask l (reference_now c) s h ]

  -- The gates authorized the request at this ledger.
  abbrev pub IsAuthorizedAt : Ledger → ToolCallRequest → FrozenRequest → Type 0
  IsAuthorizedAt l request frozen =
      (revision : Revision) × (r : Reading) × (expected : Option ResolvedReservation) × (authorize
          c.pipeline (typed request) l.known_refs l.usage revision r expected
        ≡ ok frozen)

  freeze_request-Reads :
      (l : Ledger) (request : ToolCallRequest) (sized : Supported) (s : State W)
      → view s ≡ l
      → Reads c l (IsAuthorizedAt l request) (freeze_request c request sized s)
  unfolding freeze_request
  freeze_request-Reads l request sized s h =
      subst (λ k. Reads c k (IsAuthorizedAt k request) (freeze_request c request sized s)) h
        (Reads-continue c (view s) (λ _. Unit {0}) (IsAuthorizedAt (view s) request) _ _
          (Reads-ask (view s) c.revision s refl)
          (λ revision s₁ h₁ _.
            subst
              (λ k. Reads c k (IsAuthorizedAt k request) (
                authorize c.pipeline (typed request) s₁.known_refs s₁.usage revision
                    (reading c s₁.world) (some sized.reservation),
                s₁,
              ))
              h₁
              (Reads-with (view s₁) (IsAuthorizedAt (view s₁) request) _ s₁ refl
                (λ frozen e. (revision, reading c s₁.world, some sized.reservation, e)))))

  recheck-Reads :
      (l : Ledger) (P : Authorized → Type 0) (spec : ToolSpec) (frozen : FrozenRequest)
      (s : State W)
      → view s ≡ l
      → ((before : Option Revision) → P (record { spec = spec; frozen = frozen; before = before }))
      → Reads c l P (recheck c spec frozen s)
  unfolding recheck
  recheck-Reads l P spec frozen s h p =
      let next = λ (before : Option Revision).
        pure {W = W} {A = Authorized} (record { spec = spec; frozen = frozen; before = before }) in
      Reads-continue c l (λ _. Unit {0}) P _ (c.revision s.world, s) (Reads-ask l c.revision s h)
        (λ revision s₁ h₁ _.
          Reads-continue c l (λ _. Unit {0}) P (λ _ s₂. continue raise next (baseline c spec s₂))
            (check_dispatch c.pipeline frozen revision (reading c s₁.world), s₁)
            (Reads-with l (λ _. Unit {0}) _ s₁ h₁ (λ t e. tt))
            (λ _ s₂ h₂ _.
              Reads-continue c l (λ _. Unit {0}) P next (baseline c spec s₂)
                (baseline-Reads l spec s₂ h₂) (λ before s₃ h₃ _. (h₃, p before))))

  pub authorized-Reads :
      (request : ToolCallRequest) (preflight : Option ResolvedReservation) (ids : Dict String)
      (s : State W)
      → Reads c
          (view s)
          (λ a. IsAuthorizedAt (view s) request a.frozen)
          (authorized c request preflight ids s)
  unfolding authorized
  authorized-Reads request preflight ids s =
      let l = view s in
      let P = λ (a : Authorized). IsAuthorizedAt l request a.frozen in
      Reads-continue c l (λ _. Unit {0}) P _ _ (size-Reads request preflight s)
        (λ sized s₁ h₁ _.
          Reads-continue c l (IsAuthorizedAt l request) P _ _
            (freeze_request-Reads l request sized s₁ h₁)
            (λ frozen s₂ h₂ a.
              Reads-continue c l (λ _. Unit {0}) P _ _
                (gate_events-Reads l frozen.decisions ids _ h₂)
                (λ _ s₃ h₃ _. recheck-Reads l P sized.spec frozen s₃ h₃ (λ before. a))))
