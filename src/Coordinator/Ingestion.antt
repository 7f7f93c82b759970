-- ===== src/Coordinator/Ingestion.antt =====
-- `_ingest` of src/industrial_agent_runtime/coordinator.py: verification of a result, then ingestion
-- bound to the current revision.
use industrial_agent_runtime.Prelude.{
  String, Bool, true, false, not, List, [], ◌∷◌, Dict, get, insert, is_nil,
}
use industrial_agent_runtime.Contracts.{
  InformationRef, Revision, eqb_revision, StateDelta, ToolCallRequest, ToolSpec,
}
use industrial_agent_runtime.Decisions.{Error, invariant_violation, key_error, or_raise, refuse_if}
use industrial_agent_runtime.Knowledge.{learn}
use industrial_agent_runtime.Verification.Outcome.{VerifiedResult, verify}
use industrial_agent_runtime.Coordinator.{
  Coordinator, Method, ◌>>=◌, ◌>>◌, pure, attempt, gets, modify, lift, ask, call, elapsed, event,
  deny,
}
use industrial_agent_runtime.Coordinator.Execution.{Executed}

-- `{ref.ref_id: ref for ref in refs}`
unfoldable pub index_refs : List InformationRef → Dict InformationRef → Dict InformationRef
index_refs [] refs = refs
index_refs (r ∷ rs) refs = index_refs rs (insert r.ref_id r refs)

-- `{**base, **known}`
unfoldable pub overlay : Dict InformationRef → Dict InformationRef → Dict InformationRef
overlay base [] = base
overlay base ((id, r) ∷ known) = overlay (insert id r base) known

-- A verified result with the revision that it was verified at.
pub record Accepted : Type 0 where
  pub verified : VerifiedResult
  pub revision : Revision

module _ {W : Type 0} (c : Coordinator W) where
  -- `reserved`: the task's references under the known ones.
  unfoldable pub reserved_refs : Dict InformationRef → Dict InformationRef
  reserved_refs known = overlay (index_refs c.pipeline.task.context_refs []) known

  -- The revision is read once more behind the hooks.
  unfoldable pub verify_at : ToolCallRequest → Executed → Revision → ToolSpec → Method W Accepted
  verify_at request executed revision spec = do
    s ← gets (λ s. s)
    elapsed c
    verified ← lift (
        verify c.verification executed.result request spec executed.accounting s.known_refs
          (reserved_refs s.known_refs) revision (c.revision (c.elapse s.world)))
    pure (record { verified = verified; revision = revision })

  unfoldable pub verified_result : ToolCallRequest → Executed → Method W Accepted
  verified_result request executed = do
    revision ← ask c.revision
    spec ← lift (or_raise (get request.tool_name c.pipeline.specs) key_error)
    verify_at request executed revision spec

  unfoldable pub apply_deltas : List StateDelta → Revision → Method W Revision
  apply_deltas deltas revision = elim (is_nil deltas) [
    | true ↦ pure revision
    | false ↦ call (c.apply_batch deltas revision)
  ]

  unfoldable pub learn_refs :
      Accepted → (new_revision : Revision) → (ids : Dict String) → Method W Bool
  learn_refs a new_revision ids = do
    now ← ask c.revision
    lift (refuse_if (not (eqb_revision new_revision now)) invariant_violation)
    modify (λ s. record s { known_refs = learn s.known_refs a.verified.refs })
    event "RESULT_INGESTION" "ACCEPTED" ids []
    pure true

  unfoldable pub rejected :
      (stage : String) → ToolCallRequest → (ids : Dict String) → Error → Method W Bool
  rejected stage request ids e = do
    event stage "REJECTED" ids []
    deny stage e (("request_id", request.request_id) ∷ ids)
    pure false

  unfoldable pub ingest : ToolCallRequest → Executed → (ids : Dict String) → Method W Bool
  ingest request executed ids =
      attempt (verified_result request executed) (rejected "VERIFY_RESULT" request ids) (λ a.
        event "VERIFY_RESULT" "ACCEPTED" ids []
        >> attempt (apply_deltas a.verified.deltas a.revision)
            (rejected "RESULT_INGESTION" request ids)
            (λ new_revision. learn_refs a new_revision ids))
