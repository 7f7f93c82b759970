-- ===== src/Gates/SideEffect.antt =====
-- G3, `check_side_effect` of src/industrial_agent_runtime/gates.py.
use industrial_agent_runtime.Prelude.{
  ℕ, String, ◌==◌, Bool, true, false, not, ◌&&◌, ◌||◌, Option, none, some, List, [], ◌∷◌, ◌++◌,
  Dict, keys, contains, ltb,
}
use industrial_agent_runtime.Contracts.{
  SideEffectClass, simulate, propose, mutate, admin, eqb_class, ToolSpec,
}
use industrial_agent_runtime.Decisions.{
  Result, ok, ◌>>◌, refuse_if, GateDecision, g3_side_effect, allow,
}
use industrial_agent_runtime.Gates.Policy.{overlaps}
use industrial_agent_runtime.Gates.Pipeline.{GatePipeline, decision, refusal}

-- Whether the reservation holds a positive amount of a simulation dimension.
unfoldable pub draws_simulation : List String → Dict ℕ → Bool
draws_simulation dimensions [] = false
draws_simulation dimensions ((n, a) ∷ d) =
    contains n dimensions && ltb 0 a || draws_simulation dimensions d

unfoldable pub touches_simulation : GatePipeline → ToolSpec → Bool
unfolding overlaps
touches_simulation g spec =
    overlaps (keys spec.declared_budget_draw ++ keys spec.max_budget_draw)
      g.policy.simulation_dimensions

-- The text after Python's `strip().upper()`.
unfoldable pub isolates : GatePipeline → Option String → Bool
isolates g none = false
isolates g (some s) = not (g.normalized s == "") && not (g.normalized s == "NONE")

unfoldable pub needs_guard : SideEffectClass → Bool
needs_guard simulate = true
needs_guard propose = true
needs_guard mutate = true
needs_guard _ = false

unfoldable pub check_side_effect : GatePipeline → String → ToolSpec → Dict ℕ → Result GateDecision
check_side_effect g id spec reservation = do
  let cls = spec.side_effect_class
  refuse_if (eqb_class cls admin) (refusal g id g3_side_effect "ADMIN_DISABLED")
  refuse_if (touches_simulation g spec && not (eqb_class cls simulate))
      (refusal g id g3_side_effect "SIMULATION_MISCLASSIFIED")
  refuse_if (eqb_class cls simulate && not (isolates g spec.isolation_guarantee))
      (refusal g id g3_side_effect "NO_ISOLATION_GUARANTEE")
  refuse_if
      (eqb_class cls simulate && not (draws_simulation g.policy.simulation_dimensions reservation))
      (refusal g id g3_side_effect "SIMULATION_DRAW_UNDECLARED")
  refuse_if (needs_guard cls && not g.has_reference_guard)
      (refusal g id g3_side_effect "REFERENCE_GUARD_REQUIRED")
  ok (decision g id g3_side_effect "SIDE_EFFECT_ELIGIBLE" allow)
