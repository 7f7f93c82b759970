-- ===== src/Gates/Budget/Quota.antt =====
-- The quota check as a statement on amounts: what it lets pass, and what it refuses.
use industrial_agent_runtime.Prelude.{
  ℕ, String, ◌==◌, ◌≡◌, ◌∙◌, eq_iff, ◌≤◌, ◌+◌, true, false, some, Dict, get, has, keys, sorted,
  contains, contains-keys, contains-sorted, diff, ltb_ℤ, inl, inr, Option-cases, arith,
}
use industrial_agent_runtime.Amounts.{is_whole}
use industrial_agent_runtime.Amounts.Whole.{difference-whole, is_whole-units}
use industrial_agent_runtime.Contracts.{Budget}
use industrial_agent_runtime.Decisions.{ok, >>=-eq-ok, for_each, for_each-at, GateDecision}
use industrial_agent_runtime.Gates.Policy.{standard_dimensions}
use industrial_agent_runtime.Gates.Pipeline.{GatePipeline}
use industrial_agent_runtime.Gates.Budget.{
  used, quota, remaining, exceeds, check_amount, check_dimension, check_budget,
}

-- The dimension has a quota, and the amount on top of what is used stays within it.
abbrev pub FitsQuota : Budget → Dict ℕ → String → ℕ → Type 0
FitsQuota b usage name amount = (n : ℕ) × (quota b name ≡ some n) × (used usage name + amount ≤ n)

-- The quota of the dimension and what is used of it are whole, so that the program's subtraction of the
-- one from the other is exact.
abbrev pub IsWholeAt : Budget → Dict ℕ → String → Type 0
IsWholeAt b usage name =
    ((q : ℕ) → quota b name ≡ some q → is_whole q ≡ true) × (is_whole (used usage name) ≡ true)

pub eq_sym : (s t : String) → (s == t) ≡ (t == s)
eq_sym s t = ground (arith, eq_iff s t, eq_iff t s)

-- The quotas of the standard counters are integers.
pub quota-whole :
    (b : Budget) (name : String) (q : ℕ)
    → contains name standard_dimensions ≡ true
    → quota b name ≡ some q
    → is_whole q ≡ true
unfolding quota contains
quota-whole b name q h e = ground (
  arith,
  h,
  e,
  eq_sym "model_calls" name,
  eq_sym "tool_calls" name,
  eq_sym "subagents" name,
  eq_sym "steps" name,
  is_whole-units b.max_model_calls,
  is_whole-units b.max_tool_calls,
  is_whole-units b.max_subagents,
  is_whole-units b.max_steps,
)

module _ (b : Budget) (usage : Dict ℕ) (name : String) (amount : ℕ)
    (whole : IsWholeAt b usage name) where
  pub not-exceeds : exceeds amount (remaining b usage name) ≡ false → FitsQuota b usage name amount
  unfolding exceeds remaining diff ltb_ℤ
  not-exceeds h = elim (Option-cases (quota b name)) [
    | inl absent ↦ absurd (ground (arith, absent, h))
    | inr (n, found) ↦ (
      n,
      found,
      ground (arith, found, h, difference-whole n (used usage name) (whole.0 n found) whole.1),
    )
  ]

  pub exceeds-not : FitsQuota b usage name amount → exceeds amount (remaining b usage name) ≡ false
  unfolding exceeds remaining diff ltb_ℤ
  exceeds-not (n, has_quota, fits) =
      ground
        (arith, has_quota, fits, difference-whole n (used usage name) (whole.0 n has_quota) whole.1)

module _ (g : GatePipeline) (id : String) (usage draw : Dict ℕ) where
  check_dimension-fits :
      (name : String) (amount : ℕ)
      → IsWholeAt g.task.budget usage name
      → get name draw ≡ some amount
      → check_dimension g id usage draw name ≡ ok tt
      → FitsQuota g.task.budget usage name amount
  unfolding check_dimension check_amount
  check_dimension-fits name amount whole found h =
      not-exceeds g.task.budget usage name amount whole (ground (arith, found, h))

listed :
    (draw : Dict ℕ) (name : String) (amount : ℕ)
    → get name draw ≡ some amount
    → contains name (sorted (keys draw)) ≡ true
unfolding has
listed draw name amount found =
    contains-sorted name (keys draw) ∙ contains-keys name draw ∙ ground (arith, found)

-- What the check lets pass in a dimension of whole quota and usage.
pub check_budget-FitsQuota :
    (g : GatePipeline) (id : String) (draw usage : Dict ℕ) (d : GateDecision) (name : String)
    (amount : ℕ)
    → check_budget g id draw usage ≡ ok d
    → IsWholeAt g.task.budget usage name
    → get name draw ≡ some amount
    → FitsQuota g.task.budget usage name amount
unfolding check_budget
check_budget-FitsQuota g id draw usage d name amount h whole found =
    let (_, loop, _) =
      >>=-eq-ok (for_each (sorted (keys draw)) (check_dimension g id usage draw)) _ h in
    check_dimension-fits g id usage draw name amount whole found
      (for_each-at (sorted (keys draw)) _ name loop (listed draw name amount found))
