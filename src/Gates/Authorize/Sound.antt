-- ===== src/Gates/Authorize/Sound.antt =====
-- What an authorization rests on: the stages that `authorize` passed, each with its outcome.
use industrial_agent_runtime.Prelude.{
  ℕ, ◌≡◌, subst, true, not, Option, some, [], ◌∷◌, ◌++◌, Dict, get, arith,
}
use industrial_agent_runtime.Contracts.{InformationRef, Revision, ToolSpec, ToolCallRequest}
use industrial_agent_runtime.Decisions.{ok, refuse_if-eq-ok, >>=-eq-ok, ok-injective, GateDecision}
use industrial_agent_runtime.Gates.Pipeline.{
  GatePipeline, ResolvedReservation, FrozenRequest, Reading,
}
use industrial_agent_runtime.Gates.Static.{typed, find_spec, check_schema, check_authority}
use industrial_agent_runtime.Gates.Reservation.{resolve}
use industrial_agent_runtime.Gates.Budget.{check_budget}
use industrial_agent_runtime.Gates.SideEffect.{check_side_effect}
use industrial_agent_runtime.Gates.Authorize.{
  Checked, check_typed, reproduces, with_counters, read_reference, ask_consumer, ask_approval,
  freeze, authorize,
}

module _ (g : GatePipeline) where
  -- The stages of `static_check`, passed.
  pub record StaticPass (request : ToolCallRequest) (known : Dict InformationRef)
      (expected : Option ResolvedReservation) (c : Checked) : Type 0 where
    pub registered : get request.tool_name g.specs ≡ some c.spec
    pub schema : check_schema g request c.spec known ≡ ok tt
    pub authority : check_authority g request c.spec ≡ ok tt
    pub sized : resolve g request c.spec ≡ ok c.reservation
    pub reproduced : reproduces g expected c.reservation ≡ true

  find_spec-registered :
      (request : ToolCallRequest) (spec : ToolSpec)
      → find_spec g request ≡ ok spec
      → get request.tool_name g.specs ≡ some spec
  unfolding find_spec
  find_spec-registered request spec h = ground arith

  check_typed-StaticPass :
      (request : ToolCallRequest) (known : Dict InformationRef)
      (expected : Option ResolvedReservation) (c : Checked)
      → check_typed g request known expected ≡ ok c
      → StaticPass request known expected c
  unfolding check_typed
  check_typed-StaticPass request known expected c h =
      let (spec, found, h₁) = >>=-eq-ok (find_spec g request) _ h in
      let (_, schema, h₂) = >>=-eq-ok (check_schema g request spec known) _ h₁ in
      let (_, authority, h₃) = >>=-eq-ok (check_authority g request spec) _ h₂ in
      let (reservation, sized, h₄) = >>=-eq-ok (resolve g request spec) _ h₃ in
      let (reproduced, h₅) = refuse_if-eq-ok (not (reproduces g expected reservation)) _ _ h₄ in
      subst (StaticPass request known expected) (ok-injective h₅) (record {
        registered = find_spec-registered request spec found;
        schema = schema;
        authority = authority;
        sized = sized;
        reproduced = ground (arith, reproduced);
      })

  -- The stages of `authorize` behind them, up to the approval.
  pub record Pass (request : ToolCallRequest) (known : Dict InformationRef) (usage : Dict ℕ)
      (revision : Revision) (reading : Reading) (expected : Option ResolvedReservation)
      (frozen : FrozenRequest) : Type 0 where
    pub checked : Checked
    pub static : StaticPass request known expected checked
    pub budget : GateDecision
    pub quota :
        check_budget g request.request_id (with_counters checked.reservation.draw) usage ≡ ok budget
    pub effect : GateDecision
    pub eligible :
        check_side_effect g request.request_id checked.spec checked.reservation.draw ≡ ok effect
    pub reference : Option Revision
    pub read : read_reference g request.request_id reading ≡ ok reference
    pub answer : GateDecision
    pub consumed :
        ask_consumer g request checked.spec usage revision checked.reservation.draw ≡ ok answer
    pub approved :
        ask_approval g
          (freeze g request checked revision reference
            (checked.decisions ++ budget ∷ effect ∷ answer ∷ []))
          answer.decision
        ≡ ok frozen

  pub authorize-Pass :
      (request : ToolCallRequest) (known : Dict InformationRef) (usage : Dict ℕ)
      (revision : Revision) (reading : Reading) (expected : Option ResolvedReservation)
      (frozen : FrozenRequest)
      → authorize g (typed request) known usage revision reading expected ≡ ok frozen
      → Pass request known usage revision reading expected frozen
  unfolding authorize
  authorize-Pass request known usage revision reading expected frozen h =
      let id = request.request_id in
      let (c, checks, h₁) = >>=-eq-ok (check_typed g request known expected) _ h in
      let (budget, quota, h₂) =
        >>=-eq-ok (check_budget g id (with_counters c.reservation.draw) usage) _ h₁ in
      let (effect, eligible, h₃) =
        >>=-eq-ok (check_side_effect g id c.spec c.reservation.draw) _ h₂ in
      let (reference, read, h₄) = >>=-eq-ok (read_reference g id reading) _ h₃ in
      let (answer, consumed, approved) =
        >>=-eq-ok (ask_consumer g request c.spec usage revision c.reservation.draw) _ h₄ in
      record {
        checked = c;
        static = check_typed-StaticPass request known expected c checks;
        budget = budget;
        quota = quota;
        effect = effect;
        eligible = eligible;
        reference = reference;
        read = read;
        answer = answer;
        consumed = consumed;
        approved = approved;
      }
