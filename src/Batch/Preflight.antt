-- ===== src/Batch/Preflight.antt =====
-- `_request_supported` and `_validate_batch` of src/industrial_agent_runtime/coordinator.py: the checks
-- before the first item of a batch runs. Amounts are in quanta.
pub mod Distinct
pub mod Runnable
pub mod WellFormed
pub mod Cumulative
use industrial_agent_runtime.Prelude.{
  ℕ, ◌+◌, String, ◌==◌, Bool, true, false, not, ◌&&◌, ◌||◌, Option, none, some, List, [], ◌∷◌, Dict,
  get, insert, keys, contains, subset, sorted, length, eqb,
}
use industrial_agent_runtime.Json.{Json, object, Fields, end, field, member, finite_amount, units}
use industrial_agent_runtime.Amounts.{check_finite, sum}
use industrial_agent_runtime.Contracts.{InformationRef, ToolSpec, ToolCallRequest}
use industrial_agent_runtime.Actions.{WorkItem, WorkBatch, Payload, tool, subtask}
use industrial_agent_runtime.Decisions.{
  Result, ok, err, ◌>>=◌, ◌>>◌, refuse_if, for_each, denied, key_error,
}
use industrial_agent_runtime.Gates.Policy.{standard_dimensions}
use industrial_agent_runtime.Gates.Pipeline.{GatePipeline, ResolvedReservation}
use industrial_agent_runtime.Gates.Static.{typed}
use industrial_agent_runtime.Gates.Reservation.{union}
use industrial_agent_runtime.Gates.Budget.{used, remaining, exceeds, check_budget}
use industrial_agent_runtime.Gates.SideEffect.{check_side_effect}
use industrial_agent_runtime.Gates.Authorize.{Checked, static_check, merge}
use industrial_agent_runtime.Batch.Waves.{is_cyclic}

-- What the checks keep of an item: its request with the entries of `specs` and `sized`.
pub record Sized : Type 0 where
  pub request : ToolCallRequest
  pub spec : ToolSpec
  pub reservation : ResolvedReservation

-- `reserved`, `sized` with `specs`, and `request_ids`, as the loop over the items fills them.
pub record Preflight : Type 0 where
  pub reserved : Dict ℕ
  pub sized : Dict Sized
  pub seen : List String

-- `{item.work_id: item for item in batch.items}`
unfoldable pub index : List WorkItem → Dict WorkItem → Dict WorkItem
index [] items = items
index (x ∷ xs) items = index xs (insert x.work_id x items)

-- `reserved[name] = reserved.get(name, 0) + amount`
unfoldable pub add_draw : Dict ℕ → Dict ℕ → Dict ℕ
unfolding used
add_draw reserved [] = reserved
add_draw reserved ((n, a) ∷ draw) = add_draw (insert n (sum (used reserved n) a) reserved) draw

unfoldable pub dependencies : Dict WorkItem → String → List String
dependencies items key = elim (get key items) [ none ↦ [] | some item ↦ item.depends_on ]

-- What an item's `budget_request` names for a dimension.
unfoldable pub requested_in : Json → String → ℕ
requested_in (object fs) name = elim (member name fs) [
  | none ↦ 0
  | some v ↦ elim (finite_amount v) [ none ↦ 0 | some a ↦ a ]
]
requested_in _ name = 0

-- `sum` over the items, from the left; Python 3.12 adds floats with a compensation there.
unfoldable pub requested_from : ℕ → List WorkItem → String → ℕ
unfolding requested_in
requested_from before [] name = before
requested_from before (x ∷ xs) name =
    requested_from (sum before (requested_in x.budget_request name)) xs name

unfoldable pub requested : List WorkItem → String → ℕ
unfolding requested_from
requested xs name = requested_from 0 xs name

unfoldable pub is_counter : String → Bool
is_counter name = name == "tool_calls" || name == "steps"

module _ (g : GatePipeline) (known : Dict InformationRef) (dispatched : List String)
    (has_hooks : Bool) where
  -- `_request_supported`
  unfoldable pub request_supported : ToolCallRequest → Result Checked
  request_supported request = do
    c ← static_check g (typed request) known none
    refuse_if (contains request.request_id dispatched)
        (denied "request_id already dispatched; use a new explicit request")
    refuse_if (not has_hooks)
        (denied "execution requires explicit gate/executor/verifier/ingestor hooks")
    ok c

  unfoldable pub check_tool :
      List String → WorkItem → ToolCallRequest → Preflight → Result Preflight
  check_tool ids item request p = do
    refuse_if (not (item.status == "PENDING")) (denied "model may not pre-complete work")
    c ← request_supported request
    refuse_if (contains request.request_id p.seen) (denied "duplicate request_id in batch")
    refuse_if (not (subset item.depends_on ids)) (denied "unknown dependency")
    ok (record {
      reserved = add_draw p.reserved c.reservation.draw;
      sized =
          insert item.work_id
            (record { request = request; spec = c.spec; reservation = c.reservation }) p.sized;
      seen = request.request_id ∷ p.seen;
    })

  -- One round of the loop over the items.
  unfoldable pub check_item : List String → WorkItem → Preflight → Result Preflight
  unfolding check_tool
  check_item ids item p = elim item.request_or_subtask [
    | tool request ↦ check_tool ids item request p
    | subtask s ↦ err (denied "SUBTASK execution requires downstream B4 implementation")
  ]

  unfoldable pub check_items : List String → List WorkItem → Preflight → Result Preflight
  check_items ids [] p = ok p
  check_items ids (x ∷ xs) p = do next ← check_item ids x p; check_items ids xs next

module _ (g : GatePipeline) (usage : Dict ℕ) where
  unfoldable pub too_much : ℕ → String → Bool
  too_much amount name = exceeds amount (remaining g.task.budget usage name)

  unfoldable pub check_amounts : Fields → Result (Unit {0})
  check_amounts end = ok tt
  check_amounts (field name v rest) = check_finite v >> elim (finite_amount v) [
    | none ↦ err (denied "invalid requested budget")
    | some amount ↦
        refuse_if
          (contains name standard_dimensions && not (is_counter name) || too_much amount name)
          (denied "unsupported/excessive WorkBatch budget request")
        >> check_amounts rest
  ]

  unfoldable pub check_request_draw : Json → Result (Unit {0})
  unfolding check_amounts
  check_request_draw (object fs) = check_amounts fs
  check_request_draw _ = err (denied "budget_request must be an object")

  unfoldable pub check_draws : List WorkItem → Result (Unit {0})
  unfolding check_request_draw
  check_draws [] = ok tt
  check_draws (x ∷ xs) = check_request_draw x.budget_request >> check_draws xs

  unfoldable pub check_requested : List WorkItem → String → Result (Unit {0})
  check_requested xs name =
      refuse_if (too_much (requested xs name) name)
        (denied "cumulative WorkItem budget exceeds remaining quota")

unfoldable pub check_effect : GatePipeline → Dict Sized → String → Result (Unit {0})
check_effect g sized key = elim (get key sized) [
  | none ↦ err key_error
  | some s ↦ do decision ← check_side_effect g s.request.request_id s.spec s.reservation.draw; ok tt
]

-- `{"tool_calls": len(items), "steps": len(items), **reserved}`
unfoldable pub batch_draw : ℕ → Dict ℕ → Dict ℕ
batch_draw n reserved = merge (("tool_calls", units n) ∷ ("steps", units n) ∷ []) reserved

abbrev pub start_preflight : Preflight
start_preflight = record { reserved = []; sized = []; seen = [] }

-- The requested budgets of the batch and of its items, each alone and then together.
unfoldable pub check_requests : GatePipeline → Dict ℕ → WorkBatch → Result (Unit {0})
check_requests g usage batch = do
  check_request_draw g usage batch.budget_request
  check_draws g usage batch.items
  for_each (sorted (union ("tool_calls" ∷ "steps" ∷ []) (keys g.task.budget.extra_dimensions)))
      (check_requested g usage batch.items)

unfoldable pub validate_batch :
    GatePipeline
    → Dict InformationRef
    → (dispatched : List String) → (has_hooks : Bool) → (usage : Dict ℕ) → WorkBatch
    → Result (Dict Sized)
validate_batch g known dispatched has_hooks usage batch = do
  refuse_if (not (batch.completion_policy == "ALL_SETTLED"))
      (denied "unsupported completion_policy")
  let items = index batch.items []
  let count = length items
  refuse_if (not (eqb count (length batch.items))) (denied "duplicate work_id")
  p ← check_items g known dispatched has_hooks (keys items) batch.items start_preflight
  refuse_if (is_cyclic (dependencies items) count [] (keys items)) (denied "cyclic WorkBatch")
  refuse_if (too_much g usage (units count) "tool_calls" || too_much g usage (units count) "steps")
      (denied "cumulative WorkBatch budget exceeds remaining quota")
  check_requests g usage batch
  decision ← check_budget g batch.batch_id (batch_draw count p.reserved) usage
  for_each (sorted (keys items)) (check_effect g p.sized)
  ok p.sized
