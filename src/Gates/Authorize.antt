-- ===== src/Gates/Authorize.antt =====
-- The full pipeline of src/industrial_agent_runtime/gates.py: `static_check`, `authorize` and
-- `check_dispatch`.
pub mod Sound
pub mod Mediation
pub mod Classes
pub mod Redispatch
use industrial_agent_runtime.Prelude.{
  ℕ, String, ◌==◌, Bool, true, false, not, ◌&&◌, ◌||◌, Option, none, some, List, [], ◌∷◌, ◌++◌,
  Dict, get, insert, is_some, is_nil, eqb,
}
use industrial_agent_runtime.Json.{units}
use industrial_agent_runtime.Contracts.{
  InformationRef, Revision, SideEffectClass, mutate, ToolSpec, ToolCallRequest, eqb_class,
  eqb_revision,
}
use industrial_agent_runtime.Decisions.{
  Result, ok, err, ◌>>=◌, ◌>>◌, refuse_if, or_raise, GateDecision, Verdict, allow, deny,
  require_approval, GateStage, g0_schema, g1_authority, g2_budget, g3_side_effect, dispatch,
  gate_denied,
}
use industrial_agent_runtime.Gates.Policy.{contains_class}
use industrial_agent_runtime.Gates.Pipeline.{
  GatePipeline, ResolvedReservation, FrozenRequest, Reading, Consumer, Approval, decision, refusal,
  deny_as,
}
use industrial_agent_runtime.Gates.Static.{
  Submitted, typed, untyped, find_spec, check_schema, check_authority,
}
use industrial_agent_runtime.Gates.Reservation.{resolve, eqb_reservation, eqb_dict}
use industrial_agent_runtime.Gates.Budget.{check_budget}
use industrial_agent_runtime.Gates.SideEffect.{check_side_effect}

pub record Checked : Type 0 where
  pub spec : ToolSpec
  pub reservation : ResolvedReservation
  pub decisions : List GateDecision

-- Every entry of the second mapping written into the first.
unfoldable pub merge : Dict ℕ → Dict ℕ → Dict ℕ
merge base [] = base
merge base ((n, a) ∷ d) = merge (insert n a base) d

-- `{"tool_calls": 1, "steps": 1, **reservation}`
unfoldable pub with_counters : Dict ℕ → Dict ℕ
with_counters reservation = merge (("tool_calls", units 1) ∷ ("steps", units 1) ∷ []) reservation

unfoldable pub bound_to : GateDecision → String → Revision → Bool
bound_to d id revision =
    d.request_id == id
    && (elim d.expected_state_revision [ none ↦ false | some r ↦ eqb_revision r revision ])

unfoldable pub is_deny : Verdict → Bool
is_deny deny = true
is_deny _ = false

unfoldable pub asks_approval : Verdict → Bool
asks_approval require_approval = true
asks_approval _ = false

unfoldable pub same_reference : Option Revision → Revision → Bool
same_reference none expected = false
same_reference (some current) expected = eqb_revision current expected

unfoldable pub same_spec : GatePipeline → Option ToolSpec → String → Bool
same_spec g none checksum = false
same_spec g (some spec) checksum = g.digest spec == checksum

module _ (g : GatePipeline) where
  unfoldable pub reproduces : Option ResolvedReservation → ResolvedReservation → Bool
  reproduces none r = true
  reproduces (some e) r = eqb_reservation e r

  unfoldable pub check_typed :
      ToolCallRequest
      → Dict InformationRef
      → (expected_reservation : Option ResolvedReservation) → Result Checked
  check_typed request known expected = do
    let id = request.request_id
    spec ← find_spec g request
    check_schema g request spec known
    check_authority g request spec
    reservation ← resolve g request spec
    refuse_if (not (reproduces expected reservation))
        (refusal g id g2_budget "RESERVATION_NOT_DETERMINISTIC")
    ok (record {
      spec = spec;
      reservation = reservation;
      decisions =
          decision g id g0_schema "SCHEMA_VALID" allow
          ∷ decision g id g1_authority "AUTHORIZED" allow
          ∷ [];
    })

  -- G0, G1 and the sizing of G2.
  unfoldable pub static_check :
      Submitted → Dict InformationRef → Option ResolvedReservation → Result Checked
  unfolding check_typed
  static_check (typed request) known expected = check_typed request known expected
  static_check (untyped id) known expected = deny_as g id g0_schema "UNTYPED_REQUEST"

  -- The revision of the reference state, where there is a guard.
  unfoldable pub read_reference : String → Reading → Result (Option Revision)
  read_reference id reading = elim g.has_reference_guard [
    | false ↦ ok none
    | true ↦ elim reading [
      | err e ↦ err e
      | ok answer ↦ elim answer [
        | none ↦ deny_as g id g3_side_effect "INVALID_REFERENCE_REVISION"
        | some revision ↦ ok (some revision)
      ]
    ]
  ]

  -- The consumer's decision, once it permits the request.
  unfoldable pub ask_consumer :
      ToolCallRequest → ToolSpec → Dict ℕ → Revision → Dict ℕ → Result GateDecision
  ask_consumer request spec usage revision reservation = do
    let id = request.request_id
    hook ← or_raise g.consumer (refusal g id GateStage.consumer "NO_CONSUMER_VALIDATOR")
    answer ← hook request spec g.task revision usage
    d ← or_raise answer (refusal g id GateStage.consumer "INVALID_CONSUMER_DECISION")
    refuse_if (not (bound_to d id revision))
        (refusal g id GateStage.consumer "CONSUMER_DECISION_UNBOUND")
    refuse_if (is_deny d.decision) (gate_denied d)
    refuse_if (is_some d.normalized_request_ref)
        (refusal g id GateStage.consumer "NORMALIZATION_UNSUPPORTED")
    refuse_if
        (not (is_nil d.reserved_budget_draw)
          && not (eqb_dict eqb d.reserved_budget_draw reservation))
        (refusal g id GateStage.consumer "RESERVATION_MISMATCH")
    ok d

  unfoldable pub needs_approval : SideEffectClass → Verdict → Bool
  needs_approval cls verdict =
      asks_approval verdict || contains_class cls g.policy.approval_required_for

  -- The decision that an approval adds.
  unfoldable pub approved_decision : FrozenRequest → GateDecision
  approved_decision frozen =
      record (decision g frozen.request.request_id GateStage.approval "APPROVED" allow) {
        expected_state_revision = some frozen.expected_state_revision;
      }

  unfoldable pub approve : FrozenRequest → Result FrozenRequest
  approve frozen = do
    let refused = refusal g frozen.request.request_id GateStage.approval "NOT_APPROVED"
    hook ← or_raise g.approval refused
    answer ← hook frozen
    refuse_if (not (answer == "APPROVE")) refused
    ok (record frozen { decisions = frozen.decisions ++ approved_decision frozen ∷ [] })

  -- The approval of the exact frozen request, where one is needed.
  unfoldable pub ask_approval : FrozenRequest → Verdict → Result FrozenRequest
  ask_approval frozen verdict = elim (needs_approval frozen.side_effect_class verdict) [
    | false ↦ ok frozen
    | true ↦ approve frozen
  ]

  unfoldable pub freeze :
      ToolCallRequest → Checked → Revision → Option Revision → List GateDecision → FrozenRequest
  freeze request c revision reference decisions = record {
    request = request;
    spec_checksum = g.digest c.spec;
    side_effect_class = c.spec.side_effect_class;
    reserved_budget_draw = c.reservation.draw;
    expected_state_revision = revision;
    expected_reference_revision = reference;
    policy_version = g.policy.policy_version;
    decisions = decisions;
    reservation_origins = c.reservation.origins;
  }

  unfoldable pub authorize :
      Submitted
      → Dict InformationRef
      → (usage : Dict ℕ) → Revision
      → Reading
      → Option ResolvedReservation
      → Result FrozenRequest
  authorize (untyped id) known usage revision reading expected =
      deny_as g id g0_schema "UNTYPED_REQUEST"
  authorize (typed request) known usage revision reading expected = do
    c ← check_typed request known expected
    let id = request.request_id
    budget ← check_budget g id (with_counters c.reservation.draw) usage
    effect ← check_side_effect g id c.spec c.reservation.draw
    reference ← read_reference id reading
    d ← ask_consumer request c.spec usage revision c.reservation.draw
    ask_approval (freeze request c revision reference (c.decisions ++ budget ∷ effect ∷ d ∷ []))
        d.decision

  unfoldable pub check_fresh : String → Revision → Reading → Result (Unit {0})
  check_fresh id expected reading = do
    current ← reading
    refuse_if (not (same_reference current expected))
        (refusal g id dispatch "STALE_REFERENCE_REVISION")

  unfoldable pub check_reference : String → FrozenRequest → Reading → Result (Unit {0})
  check_reference id frozen reading = elim frozen.expected_reference_revision [
    | none ↦ deny_as g id dispatch "REFERENCE_REVISION_UNBOUND"
    | some expected ↦ elim g.has_reference_guard [
      | false ↦ deny_as g id dispatch "REFERENCE_REVISION_UNBOUND"
      | true ↦ check_fresh id expected reading
    ]
  ]

  -- Every binding once more, immediately before the executor is called.
  unfoldable pub check_dispatch : FrozenRequest → Revision → Reading → Result (Unit {0})
  check_dispatch frozen revision reading = do
    let id = frozen.request.request_id
    refuse_if (not (same_spec g (get frozen.request.tool_name g.specs) frozen.spec_checksum))
        (refusal g id dispatch "SPEC_CHANGED")
    refuse_if (not (eqb_revision revision frozen.expected_state_revision))
        (refusal g id dispatch "STALE_STATE_REVISION")
    elim (eqb_class frozen.side_effect_class mutate) [
      | true ↦ check_reference id frozen reading
      | false ↦ ok tt
    ]
