-- ===== src/Accounting.antt =====
-- The budget that src/industrial_agent_runtime/coordinator.py keeps: `_charge`, and the accounting
-- part of `_execute`, from the charge for the dispatch to the charges of the reconciliation. Amounts
-- are in quanta.
pub mod Spending
pub mod Reserved
pub mod Charged
pub mod Usage
pub mod Settling
pub mod WithinQuota
pub mod Preserved
use industrial_agent_runtime.Prelude.{
  ℕ, String, ◌==◌, Bool, true, false, not, ◌||◌, Option, none, some, List, [], ◌∷◌, Dict, get,
  insert, keys, sorted, pos,
}
use industrial_agent_runtime.Json.{Json, object, float, Fields, end, field, units}
use industrial_agent_runtime.Amounts.{sum}
use industrial_agent_runtime.Contracts.{Budget, ToolResult, ToolCallRequest}
use industrial_agent_runtime.Decisions.{
  Result, ok, err, ◌>>=◌, ◌>>◌, refuse_if, Error, denied, key_error,
}
use industrial_agent_runtime.Gates.Budget.{remaining, exceeds}
use industrial_agent_runtime.Gates.Reconcile.{Reconciliation, reconcile}
use industrial_agent_runtime.Verification.Provenance.{Returned, tool_result, untyped_result}

-- The usage that `__init__` starts with; the extra dimensions behind, in sorted order.
unfoldable pub zeros : List String → Dict ℕ
zeros [] = []
zeros (n ∷ ns) = (n, 0) ∷ zeros ns

unfoldable pub start_usage : Budget → Dict ℕ
start_usage budget =
    zeros
      ("model_calls" ∷ "tool_calls" ∷ "steps" ∷ "subagents" ∷ sorted (keys budget.extra_dimensions))

-- `for name, amount in draw.items(): self.usage[name] += amount`
unfoldable pub spend : Dict ℕ → Dict ℕ → Result (Dict ℕ)
spend usage [] = ok usage
spend usage ((n, a) ∷ draw) = elim (get n usage) [
  | none ↦ err key_error
  | some u ↦ spend (insert n (sum u a) usage) draw
]

unfoldable pub any_exceeds : Budget → Dict ℕ → Dict ℕ → Bool
any_exceeds budget usage [] = false
any_exceeds budget usage ((n, a) ∷ draw) =
    exceeds a (remaining budget usage n) || any_exceeds budget usage draw

unfoldable pub charge : Budget → Dict ℕ → Dict ℕ → Result (Dict ℕ)
charge budget usage draw = do
  refuse_if (any_exceeds budget usage draw) (denied "standard budget exhausted")
  spend usage draw

-- `_charge(tool_calls=1, steps=1)`
abbrev pub dispatch_draw : Dict ℕ
dispatch_draw = ("tool_calls", units 1) ∷ ("steps", units 1) ∷ []

-- A reservation as the report of its own draw.
unfoldable pub as_report : Dict ℕ → Fields
as_report [] = end
as_report ((n, a) ∷ draw) = field n (float (pos a)) (as_report draw)

-- The draw that is reconciled: the report of a bound result, or else the full reservation. A failed
-- executor returns no result.
unfoldable pub actual_draw : Returned → ToolCallRequest → Dict ℕ → Json
actual_draw untyped_result request reserved = object (as_report reserved)
actual_draw (tool_result r) request reserved = elim (r.request_id == request.request_id) [
  | true ↦ r.actual_budget_draw
  | false ↦ object (as_report reserved)
]

pub record Settlement : Type 0 where
  pub usage : Dict ℕ
  pub accounting : Reconciliation

unfoldable pub settle :
    Budget → Dict ℕ → ToolCallRequest → (reserved : Dict ℕ) → Returned → Result Settlement
settle budget usage request reserved returned = do
  charged ← charge budget usage dispatch_draw
  accounting ← reconcile reserved (actual_draw returned request reserved) budget
  settled ← spend charged accounting.charged
  ok (record { usage = settled; accounting = accounting })
