-- ===== src/Gates/Authorize/Classes.antt =====
-- What `authorize` guarantees by the side-effect class of the tool.
use industrial_agent_runtime.Prelude.{
  ℕ, String, ◌≡◌, ◌∙◌, ◌≢◌, sym, ap, true, false, not, ◌&&◌, Option, some, [], ◌∷◌, ◌++◌, Dict, inl,
  inr, arith, false≢true,
}
use industrial_agent_runtime.Contracts.{
  InformationRef, Revision, SideEffectClass, simulate, admin, mutate, ToolSpec, ToolCallRequest,
  eqb_class,
}
use industrial_agent_runtime.Decisions.{ok, refuse_if-eq-ok, GateDecision, Verdict}
use industrial_agent_runtime.Gates.Policy.{contains_class}
use industrial_agent_runtime.Gates.Policy.Delegation.{IsSound, IsSound-IsBuilt}
use industrial_agent_runtime.Gates.Pipeline.{
  GatePipeline, ResolvedReservation, FrozenRequest, Reading, Approval,
}
use industrial_agent_runtime.Gates.Static.{typed}
use industrial_agent_runtime.Gates.SideEffect.{
  check_side_effect, touches_simulation, isolates, draws_simulation, needs_guard,
}
use industrial_agent_runtime.Gates.Authorize.{authorize, freeze, needs_approval, approved_decision}
use industrial_agent_runtime.Gates.Authorize.Mediation.{pass, frozen-freeze, ask_approval-cases}

-- What G3 asks of a class: no ADMIN; simulation dimensions are drawn by SIMULATE alone, which has an
-- isolation guarantee and a positive draw; a guard for the classes that may touch reference state.
pub record IsEligible (g : GatePipeline) (spec : ToolSpec) (reserved : Dict ℕ) : Type 0 where
  pub no_admin : eqb_class spec.side_effect_class admin ≡ false
  pub classified :
      (touches_simulation g spec && not (eqb_class spec.side_effect_class simulate)) ≡ false
  pub isolated :
      (eqb_class spec.side_effect_class simulate && not (isolates g spec.isolation_guarantee))
      ≡ false
  pub drawn :
      (eqb_class spec.side_effect_class simulate
        && not (draws_simulation g.policy.simulation_dimensions reserved))
      ≡ false
  pub guarded : (needs_guard spec.side_effect_class && not g.has_reference_guard) ≡ false

pub check_side_effect-IsEligible :
    (g : GatePipeline) (id : String) (spec : ToolSpec) (reserved : Dict ℕ) (d : GateDecision)
    → check_side_effect g id spec reserved ≡ ok d
    → IsEligible g spec reserved
unfolding check_side_effect
check_side_effect-IsEligible g id spec reserved d h =
    let cls = spec.side_effect_class in
    let (no_admin, h₁) = refuse_if-eq-ok (eqb_class cls admin) _ _ h in
    let (classified, h₂) =
      refuse_if-eq-ok (touches_simulation g spec && not (eqb_class cls simulate)) _ _ h₁ in
    let (isolated, h₃) =
      refuse_if-eq-ok (eqb_class cls simulate && not (isolates g spec.isolation_guarantee)) _ _
        h₂ in
    let (drawn, h₄) =
      refuse_if-eq-ok
        (eqb_class cls simulate && not (draws_simulation g.policy.simulation_dimensions reserved)) _
        _ h₃ in
    let (guarded, _) = refuse_if-eq-ok (needs_guard cls && not g.has_reference_guard) _ _ h₄ in
    record {
      no_admin = no_admin;
      classified = classified;
      isolated = isolated;
      drawn = drawn;
      guarded = guarded;
    }

-- No policy lets an ADMIN request through: what is authorized has another class.
pub authorize-ne-admin :
    (g : GatePipeline) (request : ToolCallRequest) (known : Dict InformationRef) (usage : Dict ℕ)
    (revision : Revision) (reading : Reading) (expected : Option ResolvedReservation)
    (frozen : FrozenRequest)
    → authorize g (typed request) known usage revision reading expected ≡ ok frozen
    → frozen.side_effect_class ≢ admin
unfolding freeze eqb_class
authorize-ne-admin g request known usage revision reading expected frozen h is_admin =
    let p = pass g request known usage revision reading expected frozen h in
    let same = frozen-freeze g request known usage revision reading expected frozen h p in
    let eligible =
      check_side_effect-IsEligible g request.request_id p.checked.spec p.checked.reservation.draw
        p.effect p.eligible in
    let class : p.checked.spec.side_effect_class ≡ admin =
      sym (ap (λ t. t.side_effect_class) same) ∙ is_admin in
    false≢true (sym eligible.no_admin ∙ ap (λ c. eqb_class c admin) class)

needs_approval-mutate :
    (g : GatePipeline) (c : SideEffectClass) (v : Verdict)
    → c ≡ mutate
    → contains_class mutate g.policy.approval_required_for ≡ true
    → needs_approval g c v ≡ true
unfolding needs_approval
needs_approval-mutate g c v same listed = ground (arith, same, listed)

-- Under a policy that the constructor built, a MUTATE request is authorized only where an approval
-- hook answered APPROVE for the exact request that is returned, with all its decisions but the
-- approval's own, which follows them.
pub authorize-mutate-approved :
    (g : GatePipeline) (request : ToolCallRequest) (known : Dict InformationRef) (usage : Dict ℕ)
    (revision : Revision) (reading : Reading) (expected : Option ResolvedReservation)
    (frozen : FrozenRequest)
    → IsSound g.policy
    → authorize g (typed request) known usage revision reading expected ≡ ok frozen
    → frozen.side_effect_class ≡ mutate
    → (hook : Approval) × (shown : FrozenRequest) × (g.approval ≡ some hook)
      × (hook shown ≡ ok "APPROVE")
      × (frozen ≡ record shown { decisions = shown.decisions ++ approved_decision g shown ∷ [] })
unfolding freeze
authorize-mutate-approved g request known usage revision reading expected frozen sound h mutates =
    let p = pass g request known usage revision reading expected frozen h in
    let same = frozen-freeze g request known usage revision reading expected frozen h p in
    let class : p.checked.spec.side_effect_class ≡ mutate =
      sym (ap (λ t. t.side_effect_class) same) ∙ mutates in
    let listed = (IsSound-IsBuilt g.policy sound).mutate_approved in
    elim (ask_approval-cases g _ p.answer.decision frozen p.approved) [
      | inl (free, _) ↦
          absurd (false≢true (sym free ∙ needs_approval-mutate g _ p.answer.decision class listed))
      | inr (hook, found, said, shown) ↦ (hook, _, found, said, shown)
    ]
