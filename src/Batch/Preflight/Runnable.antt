-- ===== src/Batch/Preflight/Runnable.antt =====
-- The items of a batch that passed the loop of `_validate_batch`
-- (src/industrial_agent_runtime/coordinator.py).
use industrial_agent_runtime.Prelude.{
  String, ◌==◌, ◌≡◌, ◌∙◌, refl, sym, ap, subst, Bool, true, false, not, none, List, [], ◌∷◌, Dict,
  insert, false≢true, ◌⊎◌, contains, subset, arith, eq_iff, eq_refl, inl, inr, Bool-cases,
}
use industrial_agent_runtime.Contracts.{InformationRef, ToolCallRequest}
use industrial_agent_runtime.Actions.{WorkItem, Payload, Subtask, tool, subtask}
use industrial_agent_runtime.Decisions.{ok, ok-injective, >>=-eq-ok, refuse_if-eq-ok}
use industrial_agent_runtime.Gates.Pipeline.{GatePipeline}
use industrial_agent_runtime.Gates.Static.{typed}
use industrial_agent_runtime.Gates.Authorize.{Checked, static_check}
use industrial_agent_runtime.Batch.Preflight.{
  Preflight, request_supported, add_draw, check_tool, check_item, check_items,
}
use industrial_agent_runtime.Batch.Preflight.Distinct.{IsDistinct}

-- The ids of the requests of the items that hold one.
abbrev pub request_ids : List WorkItem → List String
request_ids [] = []
request_ids (x ∷ xs) = elim x.request_or_subtask [
  | tool request ↦ request.request_id ∷ request_ids xs
  | subtask s ↦ request_ids xs
]

-- An item that may run: a pending tool call, new and statically admitted, with known dependencies.
pub record IsRunnable (g : GatePipeline) (known : Dict InformationRef)
    (dispatched ids : List String) (item : WorkItem) : Type 0 where
  pub request : ToolCallRequest
  pub is_tool : item.request_or_subtask ≡ tool request
  pub pending : item.status ≡ "PENDING"
  pub fresh : contains request.request_id dispatched ≡ false
  pub checked : Checked
  pub admitted : static_check g (typed request) known none ≡ ok checked
  pub declared : subset item.depends_on ids ≡ true

abbrev pub AllRunnable :
    GatePipeline → Dict InformationRef → (dispatched ids : List String) → List WorkItem → Type 0
AllRunnable g known dispatched ids [] = Unit
AllRunnable g known dispatched ids (x ∷ xs) =
    IsRunnable g known dispatched ids x × AllRunnable g known dispatched ids xs

Payload-cases :
    (p : Payload)
    → ((request : ToolCallRequest) × (p ≡ tool request)) ⊎ ((s : Subtask) × (p ≡ subtask s))
Payload-cases (tool request) = inl (request, refl)
Payload-cases (subtask s) = inr (s, refl)

eq_of_test : (s t : String) → not (s == t) ≡ false → s ≡ t
eq_of_test s t h = (eq_iff s t).0 (ground arith)

request_ids-tool :
    (x : WorkItem) (xs : List WorkItem) (request : ToolCallRequest)
    → x.request_or_subtask ≡ tool request
    → request_ids (x ∷ xs) ≡ request.request_id ∷ request_ids xs
request_ids-tool x xs request e = rw e

module _ (id : String) (ids seen : List String) where
  once_seen :
      ((n : String) → contains n ids ≡ true → contains n (id ∷ seen) ≡ false)
      → contains id ids ≡ false
  unfolding contains
  once_seen free = elim (Bool-cases (contains id ids)) [
    | inl again ↦ absurd (ground (arith, free id again, eq_refl id))
    | inr absent ↦ absent
  ]

  unheld :
      contains id seen ≡ false
      → ((n : String) → contains n ids ≡ true → contains n (id ∷ seen) ≡ false)
      → (n : String) → contains n (id ∷ ids) ≡ true
      → contains n seen ≡ false
  unfolding contains
  unheld unseen free n listed = elim (Bool-cases (id == n)) [
    | inl same ↦ subst (λ i. contains i seen ≡ false) ((eq_iff id n).0 same) unseen
    | inr differs ↦ ground (arith, free n (ground (arith, listed, differs)))
  ]

module _ (g : GatePipeline) (known : Dict InformationRef) (dispatched : List String)
    (has_hooks : Bool) (ids : List String) where
  -- What one round of the loop over the items leaves.
  pub record IsChecked (item : WorkItem) (before after : Preflight) : Type 0 where
    pub runnable : IsRunnable g known dispatched ids item
    pub unseen : contains runnable.request.request_id before.seen ≡ false
    pub seen : after.seen ≡ runnable.request.request_id ∷ before.seen
    pub reserved : after.reserved ≡ add_draw before.reserved runnable.checked.reservation.draw
    pub sized :
        after.sized
        ≡ insert item.work_id
            (record {
              request = runnable.request;
              spec = runnable.checked.spec;
              reservation = runnable.checked.reservation;
            })
            before.sized

  check_tool-IsChecked :
      (item : WorkItem) (request : ToolCallRequest) (before after : Preflight)
      → item.request_or_subtask ≡ tool request
      → check_tool g known dispatched has_hooks ids item request before ≡ ok after
      → IsChecked item before after
  unfolding check_tool request_supported
  check_tool-IsChecked item request before after is_tool h =
      let (pending, h₁) = refuse_if-eq-ok (not (item.status == "PENDING")) _ _ h in
      let (c, supported, h₂) =
        >>=-eq-ok (request_supported g known dispatched has_hooks request) _ h₁ in
      let (c₁, admitted, g₁) = >>=-eq-ok (static_check g (typed request) known none) _ supported in
      let (fresh, g₂) = refuse_if-eq-ok (contains request.request_id dispatched) _ _ g₁ in
      let (hooked, g₃) = refuse_if-eq-ok (not has_hooks) _ _ g₂ in
      let (unseen, h₃) = refuse_if-eq-ok (contains request.request_id before.seen) _ _ h₂ in
      let (declared, h₄) = refuse_if-eq-ok (not (subset item.depends_on ids)) _ _ h₃ in
      let left = ok-injective h₄ in
      record {
        runnable = record {
          request = request;
          is_tool = is_tool;
          pending = eq_of_test item.status "PENDING" pending;
          fresh = fresh;
          checked = c;
          admitted = admitted ∙ g₃;
          declared = ground (arith, declared);
        };
        unseen = unseen;
        seen = sym (ap (λ p. p.seen) left);
        reserved = sym (ap (λ p. p.reserved) left);
        sized = sym (ap (λ p. p.sized) left);
      }

  pub check_item-IsChecked :
      (item : WorkItem) (before after : Preflight)
      → check_item g known dispatched has_hooks ids item before ≡ ok after
      → IsChecked item before after
  unfolding check_item
  check_item-IsChecked item before after h = elim (Payload-cases item.request_or_subtask) [
    | inl (request, is_tool) ↦
        check_tool-IsChecked item request before after is_tool (sym (round is_tool) ∙ h)
    | inr (s, is_subtask) ↦ absurd (ground (arith, h, is_subtask))
  ]
    where
      round :
          {request : ToolCallRequest}
          → item.request_or_subtask ≡ tool request
          → check_item g known dispatched has_hooks ids item before
            ≡ check_tool g known dispatched has_hooks ids item request before
      round e = rw e

  pub check_items-AllRunnable :
      (xs : List WorkItem) (before after : Preflight)
      → check_items g known dispatched has_hooks ids xs before ≡ ok after
      → AllRunnable g known dispatched ids xs
        × IsDistinct (request_ids xs)
        × ((n : String) → contains n (request_ids xs) ≡ true → contains n before.seen ≡ false)
  unfolding check_items contains
  check_items-AllRunnable [] before after h = (tt, tt, λ n listed. absurd (false≢true listed))
  check_items-AllRunnable (x ∷ xs) before after h =
      let (next, first, rest) =
        >>=-eq-ok (check_item g known dispatched has_hooks ids x before) _ h in
      let c = check_item-IsChecked x before next first in
      let (all, once, free) = check_items-AllRunnable xs next after rest in
      subst
        (λ ids₁.
          AllRunnable g known dispatched ids (x ∷ xs)
          × IsDistinct ids₁
          × ((n : String) → contains n ids₁ ≡ true → contains n before.seen ≡ false))
        (sym (request_ids-tool x xs c.runnable.request c.runnable.is_tool))
        (
          (c.runnable, all),
          (
            once_seen c.runnable.request.request_id (request_ids xs) before.seen
                (λ n listed. sym (ap (contains n) c.seen) ∙ free n listed),
            once,
          ),
          unheld c.runnable.request.request_id (request_ids xs) before.seen c.unseen
              (λ n listed. sym (ap (contains n) c.seen) ∙ free n listed),
        )
