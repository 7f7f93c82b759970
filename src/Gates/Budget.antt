-- ===== src/Gates/Budget.antt =====
-- The G2 quota check of src/industrial_agent_runtime/gates.py: `remaining` and `check_budget`.
pub mod Quota
use industrial_agent_runtime.Prelude.{
  ℕ, String, ◌==◌, Bool, true, false, not, ◌&&◌, Option, none, some, List, [], ◌∷◌, Dict, get, has,
  keys, insert, contains, sorted, ℤ, pos, ltb_ℤ, if◌then◌else◌,
}
use industrial_agent_runtime.Json.{units}
use industrial_agent_runtime.Amounts.{difference}
use industrial_agent_runtime.Contracts.{Budget}
use industrial_agent_runtime.Decisions.{
  Result, ok, err, ◌>>=◌, ◌>>◌, refuse_if, for_each, GateDecision, g2_budget, allow,
}
use industrial_agent_runtime.Gates.Policy.{standard_dimensions}
use industrial_agent_runtime.Gates.Pipeline.{GatePipeline, decision, refusal}

-- `usage.get(name, 0)`
unfoldable pub used : Dict ℕ → String → ℕ
used usage name = elim (get name usage) [ none ↦ 0 | some n ↦ n ]

-- The quota of a dimension in quanta, `none` where the task configures none. The first four are the
-- standard counters.
unfoldable pub quota : Budget → String → Option ℕ
quota b name =
    if name == "model_calls"
    then some (units b.max_model_calls)
    else if name == "tool_calls"
    then some (units b.max_tool_calls)
    else if name == "subagents"
    then some (units b.max_subagents)
    else if name == "steps"
    then some (units b.max_steps)
    else get name b.extra_dimensions

-- What is left of a quota; `none` is minus infinity. More may have been used than the quota allows.
unfoldable pub remaining : Budget → Dict ℕ → String → Option ℤ
remaining b usage name = elim (quota b name) [
  | none ↦ none
  | some n ↦ some (difference n (used usage name))
]

unfoldable pub exceeds : ℕ → Option ℤ → Bool
exceeds amount none = true
exceeds amount (some left) = ltb_ℤ left (pos amount)

module _ (g : GatePipeline) (id : String) (usage : Dict ℕ) where
  unfoldable pub check_amount : String → ℕ → Result (Unit {0})
  check_amount name amount = do
    refuse_if
        (not (contains name standard_dimensions) && not (has name g.task.budget.extra_dimensions))
        (refusal g id g2_budget "UNCONFIGURED_DIMENSION")
    refuse_if (exceeds amount (remaining g.task.budget usage name))
        (refusal g id g2_budget "BUDGET_EXHAUSTED")

  -- One round of the loop, which reads the draw by name.
  unfoldable pub check_dimension : Dict ℕ → String → Result (Unit {0})
  check_dimension draw name = elim (get name draw) [
    | none ↦ ok tt
    | some amount ↦ check_amount name amount
  ]

-- The draw without the standard counters.
unfoldable pub extra_draw : Dict ℕ → Dict ℕ
extra_draw [] = []
extra_draw ((n, a) ∷ d) =
    let rest = extra_draw d in if contains n standard_dimensions then rest else (n, a) ∷ rest

unfoldable pub reservable : GatePipeline → String → Dict ℕ → GateDecision
unfolding extra_draw
reservable g id draw = record (decision g id g2_budget "RESERVABLE" allow) {
  reserved_budget_draw = extra_draw draw;
}

unfoldable pub check_budget : GatePipeline → String → Dict ℕ → Dict ℕ → Result GateDecision
check_budget g id draw usage = do
  for_each (sorted (keys draw)) (check_dimension g id usage draw)
  ok (reservable g id draw)
