-- ===== src/Coordinator/Update.antt =====
-- `_project` and `_update` of src/industrial_agent_runtime/coordinator.py: the projection that the
-- model reads, and the state update that it proposes.
use industrial_agent_runtime.Prelude.{
  ◌==◌, Bool, true, false, not, ◌&&◌, Option, none, some, List, [], ◌∷◌, map, is_some,
}
use industrial_agent_runtime.Json.{units}
use industrial_agent_runtime.Contracts.{
  Revision, eqb_revision, is_agent, typed_ref, untyped_ref, StateDelta,
}
use industrial_agent_runtime.Actions.{
  Proposed, proposed_delta, malformed_delta, ModelStateUpdateProposal, ModelTurn,
}
use industrial_agent_runtime.Decisions.{Result, ok, err, Error, denied, attribute_error}
use industrial_agent_runtime.Gates.Budget.{used}
use industrial_agent_runtime.Coordinator.{
  Coordinator, Method, ◌>>=◌, ◌>>◌, pure, raise, attempt, gets, lift, ask, call, event, notify,
  update_denial, spend_budget, ContextProjection, Prompt,
}

unfoldable pub is_based : Option Revision → Revision → Bool
is_based none base = false
is_based (some r) base = eqb_revision r base

-- The deltas, where all are typed, named and bound to the projection's revision.
unfoldable pub typed_deltas : Revision → List Proposed → Option (List StateDelta)
unfolding is_based
typed_deltas base [] = some []
typed_deltas base (malformed_delta ∷ ds) = none
typed_deltas base (proposed_delta d ∷ ds) = elim (typed_deltas base ds) [
  | none ↦ none
  | some rest ↦ elim (is_based d.proposed_base_revision base && not (d.operation == "")) [
    | true ↦ some (d ∷ rest)
    | false ↦ none
  ]
]

-- `any(... != AGENT)`: a reason that is no reference has no visibility.
unfoldable pub hides_reason : List StateDelta → Result Bool
hides_reason [] = ok false
hides_reason (d ∷ ds) =
    let rest = hides_reason ds in
    elim d.reason_ref [
      | none ↦ rest
      | some cited ↦ elim cited [
        | untyped_ref ↦ err attribute_error
        | typed_ref ref ↦ elim (is_agent ref.visibility) [ true ↦ rest | false ↦ ok true ]
      ]
    ]

-- `replace(delta, producer="MODEL")`
unfoldable pub by_model : StateDelta → StateDelta
by_model d = record d { producer = "MODEL" }

-- The deltas of a proposal that may be applied.
unfoldable pub proposed_deltas : Revision → ModelStateUpdateProposal → Result (List StateDelta)
proposed_deltas base proposal = elim (is_based proposal.base_revision base) [
  | false ↦ err (denied "proposal base revision differs from model projection")
  | true ↦ elim (typed_deltas base proposal.deltas) [
    | none ↦ err (denied "malformed delta or missing/mismatched projection revision")
    | some deltas ↦ elim (hides_reason deltas) [
      | err e ↦ err e
      | ok hidden ↦ elim hidden [
        | true ↦ err (denied "hidden reason reference")
        | false ↦ ok (map by_model deltas)
      ]
    ]
  ]
]

unfoldable pub keep_projection : Bool → ContextProjection → Result ContextProjection
keep_projection true p = ok p
keep_projection false p = err (denied "invalid consumer projection identity/revision")

module _ {W : Type 0} (c : Coordinator W) where
  -- Of this task, and at the store's revision.
  unfoldable pub is_current : ContextProjection → Revision → Bool
  is_current p revision =
      p.task_id == c.pipeline.task.task_id && eqb_revision p.base_revision revision

  unfoldable pub check_projection : Option ContextProjection → Revision → Result ContextProjection
  check_projection none revision = err (denied "invalid consumer projection identity/revision")
  check_projection (some p) revision = keep_projection (is_current p revision) p

  -- `_project`
  unfoldable pub projected : Method W Prompt
  projected = do
    answer ← ask c.project
    revision ← ask c.revision
    p ← lift (check_projection answer revision)
    s ← gets (λ s. s)
    pure (record {
      projection = p;
      runtime_feedback = s.feedback;
      model_calls = used s.usage "model_calls";
    })

  -- The charge is kept where a later check refuses.
  unfoldable pub apply_update :
      Revision → ModelStateUpdateProposal → (turn_error : Option Error) → Method W Revision
  apply_update base proposal turn_error = do
    spend_budget c (("steps", units 1) ∷ [])
    elim turn_error [ none ↦ pure tt | some e ↦ raise e ]
    deltas ← lift (proposed_deltas base proposal)
    call (c.apply_batch deltas base)

  unfoldable pub update_refused : ModelStateUpdateProposal → Error → Method W Bool
  update_refused proposal e = do
    event "STATE_UPDATE" "DENIED" [] []
    notify (update_denial proposal.proposal_id e)
    pure false

  unfoldable pub propose :
      Option ModelStateUpdateProposal → Revision → (turn_error : Option Error) → Method W Bool
  propose none base turn_error = pure (not (is_some turn_error))
  propose (some proposal) base turn_error = do
    revision ← ask c.revision
    attempt (apply_update base proposal turn_error) (update_refused proposal)
        (λ current. event "STATE_UPDATE" "ACCEPTED" [] (("steps", units 1) ∷ []) >> pure true)

  -- `_update`
  unfoldable pub update : ModelTurn → Revision → (turn_error : Option Error) → Method W Bool
  update turn base turn_error = propose turn.state_update base turn_error
