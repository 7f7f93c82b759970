-- ===== src/Coordinator/Ledger/Refines/Ingest.antt =====
-- `_ingest` of src/industrial_agent_runtime/coordinator.py as steps of the ledger.
use industrial_agent_runtime.Prelude.{
  String, ◌≡◌, refl, sym, ap, subst, true, false, not, List, [], Dict, get, is_nil,
}
use industrial_agent_runtime.Contracts.{
  Revision, ToolCallRequest, ToolSpec, InformationRef, eqb_revision, StateDelta,
}
use industrial_agent_runtime.Decisions.{
  Result, ok, Error, refuse_if, or_raise, key_error, invariant_violation,
}
use industrial_agent_runtime.Knowledge.{learn}
use industrial_agent_runtime.Verification.Outcome.{verify}
use industrial_agent_runtime.Coordinator.{
  State, Coordinator, Method, raise, pure, call, event, deny,
}
use industrial_agent_runtime.Coordinator.Execution.{Executed}
use industrial_agent_runtime.Coordinator.Ingestion.{
  Accepted, ingest, verify_at, reserved_refs, verified_result, apply_deltas, learn_refs, rejected,
}
use industrial_agent_runtime.Coordinator.Ledger.{Ledger, view, none_left, step, learned}
use industrial_agent_runtime.Coordinator.Ledger.Refines.{
  Reaches, Keeps, Reads, Reads-continue, Reaches-continue, Keeps-same, deny-view,
}
use industrial_agent_runtime.Coordinator.Ledger.Refines.Authorization.{Reads-with, Reads-ask}

module _ {W : Type 0} (c : Coordinator W) where
  pub deny-Keeps : (stage : String) (e : Error) (ids : Dict String) → Keeps c (deny stage e ids)
  deny-Keeps stage e ids = Keeps-same c (deny stage e ids) (deny-view c stage e ids)

  rejected-Keeps :
      (stage : String) (request : ToolCallRequest) (ids : Dict String) (e : Error)
      → Keeps c (rejected c stage request ids e)
  unfolding rejected event deny
  rejected-Keeps stage request ids e s = none_left

  -- The verification that accepted a result, at a ledger.
  abbrev IsVerifiedAt : Ledger → Accepted → Type 0
  IsVerifiedAt l a =
      (request : ToolCallRequest) × (executed : Executed) × (spec : ToolSpec) × (reserved : Dict
        InformationRef)
      × (revision : Revision) × (reader : Result Revision) × (verify c.verification executed.result
            request spec executed.accounting l.known_refs reserved revision reader
          ≡ ok a.verified)

  verify_at-Reads :
      (l : Ledger) (request : ToolCallRequest) (executed : Executed) (revision : Revision)
      (spec : ToolSpec) (s : State W)
      → view s ≡ l
      → Reads c l (IsVerifiedAt l) (verify_at c request executed revision spec s)
  unfolding verify_at
  verify_at-Reads l request executed revision spec s h =
      let reserved = reserved_refs c s.known_refs in
      let reader = c.revision (c.elapse s.world) in
      let later : State W = record s { world = c.elapse s.world } in
      subst (λ k. Reads c k (IsVerifiedAt k) (verify_at c request executed revision spec s)) h
        (Reads-continue c (view s)
          (λ v.
            verify c.verification executed.result request spec executed.accounting s.known_refs
              reserved revision reader
            ≡ ok v)
          (IsVerifiedAt (view s)) (λ v. pure (record { verified = v; revision = revision }))
          (
            verify c.verification executed.result request spec executed.accounting s.known_refs
                reserved revision reader,
            later,
          )
          (Reads-with c (view s) _ _ later refl (λ v e. e))
          (λ v s₁ h₁ e. (h₁, (request, executed, spec, reserved, revision, reader, e))))

  verified_result-Reads :
      (request : ToolCallRequest) (executed : Executed) (s : State W)
      → Reads c (view s) (IsVerifiedAt (view s)) (verified_result c request executed s)
  unfolding verified_result
  verified_result-Reads request executed s =
      let l = view s in
      let P = IsVerifiedAt l in
      Reads-continue c l (λ _. Unit {0}) P _ (c.revision s.world, s)
        (Reads-ask c l c.revision s refl)
        (λ revision s₁ h₁ _.
          Reads-continue c l (λ _. Unit {0}) P _
            (or_raise (get request.tool_name c.pipeline.specs) key_error, s₁)
            (Reads-with c l (λ _. Unit {0}) _ s₁ h₁ (λ a e. tt))
            (λ spec s₂ h₂ _. verify_at-Reads l request executed revision spec s₂ h₂))

  apply_deltas-Reads :
      (l : Ledger) (ds : List StateDelta) (revision : Revision) (s : State W)
      → view s ≡ l
      → Reads c l (λ _. Unit {0}) (apply_deltas c ds revision s)
  unfolding apply_deltas
  apply_deltas-Reads l ds revision s h =
      elim (is_nil ds)
        as (λ b.
          Reads c l (λ _. Unit {0})
            ((elim b as (λ x. Method W Revision) [
              | true ↦ pure revision
              | false ↦ call (c.apply_batch ds revision)
            ])
              s)) [
                | true ↦ (h, tt)
                | false ↦
                    Reads-with c l (λ _. Unit {0}) (c.apply_batch ds revision s.world).0 _ h
                      (λ a e. tt)
              ]

  learn_refs-Reaches :
      (l : Ledger) (a : Accepted) (revision : Revision) (ids : Dict String) (s : State W)
      → view s ≡ l
      → IsVerifiedAt l a
      → Reaches c l (view (learn_refs c a revision ids s).1)
  unfolding learn_refs event
  learn_refs-Reaches l a revision ids s h (request, executed, spec, reserved, current, reader, v) =
      let learning = λ (k : Ledger). the_ledger a k in
      Reaches-continue c l l (λ _. Unit {0}) raise _ (c.revision s.world, s)
        (Reads-ask c l c.revision s h) (λ e s₁ h₁. subst (Reaches c l) (sym h₁) none_left)
        (λ now s₁ h₁ _.
          Reaches-continue c l l (λ _. Unit {0}) raise _
            (refuse_if (not (eqb_revision revision now)) invariant_violation, s₁)
            (Reads-with c l (λ _. Unit {0}) _ s₁ h₁ (λ a e. tt))
            (λ e s₂ h₂. subst (Reaches c l) (sym h₂) none_left)
            (λ _ s₂ h₂ _. subst (Reaches c l) (sym (ap (λ k. the_ledger a k) h₂)) (
              step none_left (
                learned executed.result request spec executed.accounting reserved current reader
                  a.verified v))))
    where
      the_ledger : Accepted → Ledger → Ledger
      the_ledger a k = record k { known_refs = learn k.known_refs a.verified.refs }

  pub ingest-Keeps :
      (request : ToolCallRequest) (executed : Executed) (ids : Dict String)
      → Keeps c (ingest c request executed ids)
  unfolding ingest event
  ingest-Keeps request executed ids s =
      let l = view s in
      Reaches-continue c l l (IsVerifiedAt l) (rejected c "VERIFY_RESULT" request ids) _
        (verified_result c request executed s) (verified_result-Reads request executed s)
        (λ e s₁ h₁.
          subst (λ k. Reaches c k (view (rejected c "VERIFY_RESULT" request ids e s₁).1)) h₁
            (rejected-Keeps "VERIFY_RESULT" request ids e s₁))
        (λ a s₁ h₁ v.
          Reaches-continue c l l (λ _. Unit {0}) (rejected c "RESULT_INGESTION" request ids)
            (λ new_revision. learn_refs c a new_revision ids)
            (apply_deltas c a.verified.deltas a.revision
              (event "VERIFY_RESULT" "ACCEPTED" ids [] s₁).1)
            (apply_deltas-Reads l a.verified.deltas a.revision _ h₁)
            (λ e s₂ h₂.
              subst (λ k. Reaches c k (view (rejected c "RESULT_INGESTION" request ids e s₂).1)) h₂
                (rejected-Keeps "RESULT_INGESTION" request ids e s₂))
            (λ revision s₂ h₂ _. learn_refs-Reaches l a revision ids s₂ h₂ v))
