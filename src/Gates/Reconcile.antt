-- ===== src/Gates/Reconcile.antt =====
-- `reconcile` of src/industrial_agent_runtime/gates.py: the actual draw against the reservation, and
-- the charges. Amounts are in quanta; the messages are data.
pub mod Charges
use industrial_agent_runtime.Prelude.{
  ℕ, String, ◌==◌, Bool, true, false, not, ◌&&◌, ◌||◌, Option, none, some, List, [], ◌∷◌, ◌++◌,
  Dict, get, has, keys, insert, contains, sorted, ltb, if◌then◌else◌, is_nil,
}
use industrial_agent_runtime.Json.{Json, object, Fields, end, field, finite_amount}
use industrial_agent_runtime.Amounts.{overflows}
use industrial_agent_runtime.Contracts.{Budget}
use industrial_agent_runtime.Decisions.{Result, ok, ◌>>◌, refuse_if, overflow_error}
use industrial_agent_runtime.Gates.Policy.{standard_dimensions}
use industrial_agent_runtime.Gates.Reservation.{union}
use industrial_agent_runtime.Gates.Budget.{used}

pub data Violation : Type 0 where
  not_an_object : Violation
  invalid_draw runtime_charged unreserved not_reported over_reservation : String → Violation

pub record Reconciliation : Type 0 where
  pub reserved : Dict ℕ
  pub actual : Dict ℕ
  pub charged : Dict ℕ
  pub violations : List Violation

-- The members of a reported draw, none for what is no mapping.
unfoldable pub reported : Json → Fields
reported (object fs) = fs
reported _ = end

unfoldable pub shape_violations : Json → List Violation
shape_violations (object fs) = []
shape_violations _ = not_an_object ∷ []

-- The finite nonnegative amounts, and a violation for each other entry.
unfoldable pub clean_draw : Fields → Dict ℕ → Dict ℕ
clean_draw end clean = clean
clean_draw (field name v rest) clean =
    clean_draw rest (elim (finite_amount v) [ none ↦ clean | some a ↦ insert name a clean ])

unfoldable pub invalid_draws : Fields → List Violation
invalid_draws end = []
invalid_draws (field name v rest) =
    let others = invalid_draws rest in
    elim (finite_amount v) [ none ↦ invalid_draw name ∷ others | some a ↦ others ]

-- `for name in sorted(clean)`
unfoldable pub hidden_draws : Dict ℕ → Dict ℕ → List String → List Violation
hidden_draws reserved clean [] = []
hidden_draws reserved clean (n ∷ ns) =
    let others = hidden_draws reserved clean ns in
    if contains n standard_dimensions
    then runtime_charged n ∷ others
    else if not (has n reserved) && ltb 0 (used clean n)
    then unreserved n ∷ others
    else others

-- `for name, amount in sorted(reserved.items())`
unfoldable pub excess_draws : Dict ℕ → Dict ℕ → List String → List Violation
excess_draws reserved clean [] = []
excess_draws reserved clean (n ∷ ns) =
    let others = excess_draws reserved clean ns in
    if not (has n clean)
    then not_reported n ∷ others
    else if ltb (used reserved n) (used clean n)
    then over_reservation n ∷ others
    else others

unfoldable pub max : ℕ → ℕ → ℕ
max a b = if ltb a b then b else a

-- What one dimension is charged.
unfoldable pub charge_for : Dict ℕ → Dict ℕ → Bool → String → ℕ
unfolding max
charge_for reserved clean violating n =
    if violating then max (used clean n) (used reserved n) else used clean n

unfoldable pub is_charged : Budget → String → Bool
is_charged budget n = not (contains n standard_dimensions) && has n budget.extra_dimensions

unfoldable pub charges : Budget → Dict ℕ → Dict ℕ → Bool → List String → Dict ℕ → Dict ℕ
charges budget reserved clean violating [] charged = charged
charges budget reserved clean violating (n ∷ ns) charged =
    charges budget reserved clean violating ns (
      if is_charged budget n
      then insert n (charge_for reserved clean violating n) charged
      else charged)

unfoldable pub violations_of : Dict ℕ → Dict ℕ → Json → List Violation
violations_of reserved clean actual =
    shape_violations actual
    ++ (invalid_draws (reported actual)
        ++ (hidden_draws reserved clean (sorted (keys clean))
            ++ excess_draws reserved clean (sorted (keys reserved))))

-- What the rest of `reconcile` makes of a report that it can read.
unfoldable pub tally : Dict ℕ → Json → Budget → Reconciliation
tally reserved actual budget =
    let clean = clean_draw (reported actual) [] in
    let violations = violations_of reserved clean actual in
    record {
      reserved = reserved;
      actual = clean;
      charged =
          charges budget reserved clean (not (is_nil violations))
            (sorted (union (keys reserved) (keys clean))) [];
      violations = violations;
    }

-- Whether a reported amount is an integer that `_finite` raises for.
unfoldable pub overflowing : Fields → Bool
overflowing end = false
overflowing (field name v rest) = overflows v || overflowing rest

-- The loop over the report raises at the first such integer; nothing but its own locals has changed
-- by then.
unfoldable pub reconcile : Dict ℕ → Json → Budget → Result Reconciliation
unfolding tally
reconcile reserved actual budget = do
  refuse_if (overflowing (reported actual)) overflow_error
  ok (tally reserved actual budget)
