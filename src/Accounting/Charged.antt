-- ===== src/Accounting/Charged.antt =====
-- The charges of a reconciliation as a draw: each dimension once, and each with a quota.
use industrial_agent_runtime.Prelude.{
  ℕ, ◌≤◌, String, ◌≡◌, refl, Bool, true, false, some, List, [], ◌∷◌, Dict, get, has, insert, IsDict,
  insert-IsDict, eq_iff, inl, inr, Option-cases, arith, if◌then◌else◌, contains, eq_refl,
}
use industrial_agent_runtime.Json.{Json}
use industrial_agent_runtime.Contracts.{Budget}
use industrial_agent_runtime.Gates.Budget.{used, quota}
use industrial_agent_runtime.Gates.Reconcile.{tally, charges, is_charged, charge_for}
use industrial_agent_runtime.Gates.Reconcile.Charges.{tally-le-reserved}
use industrial_agent_runtime.Accounting.Spending.{AllHeld}

if-IsDict : (b : Bool) (m n : Dict ℕ) → IsDict m → IsDict n → IsDict (if b then m else n)
if-IsDict true m n d e = d
if-IsDict false m n d e = e

charges-IsDict :
    (budget : Budget) (reserved clean : Dict ℕ) (violating : Bool) (ns : List String)
    (charged : Dict ℕ)
    → IsDict charged
    → IsDict (charges budget reserved clean violating ns charged)
unfolding charges
charges-IsDict budget reserved clean violating [] charged d = d
charges-IsDict budget reserved clean violating (n ∷ ns) charged d =
    let c = charge_for reserved clean violating n in
    charges-IsDict budget reserved clean violating ns _
      (if-IsDict (is_charged budget n) (insert n c charged) charged (insert-IsDict n c charged d) d)

pub tally-IsDict :
    (reserved : Dict ℕ) (actual : Json) (budget : Budget)
    → IsDict (tally reserved actual budget).charged
unfolding tally
tally-IsDict reserved actual budget = charges-IsDict budget reserved _ _ _ [] tt

pub quota-of_is_charged :
    (budget : Budget) (n : String)
    → is_charged budget n ≡ true
    → (q : ℕ) × (quota budget n ≡ some q)
unfolding is_charged quota has contains
quota-of_is_charged budget n h = elim (Option-cases (quota budget n)) [
  | inl absent ↦ absurd (
      ground (
        arith,
        absent,
        h,
        eq_iff "model_calls" n,
        eq_iff n "model_calls",
        eq_iff "tool_calls" n,
        eq_iff n "tool_calls",
        eq_iff "subagents" n,
        eq_iff n "subagents",
        eq_iff "steps" n,
        eq_iff n "steps",
      ))
  | inr found ↦ found
]

-- Where every dimension of a draw has an entry, the draw can be spent.
pub AllHeld-of :
    (usage draw : Dict ℕ)
    → ((n : String) → has n draw ≡ true → has n usage ≡ true)
    → AllHeld usage draw
unfolding has get
AllHeld-of usage [] h = tt
AllHeld-of usage ((k, a) ∷ draw) h =
    (h k (rw eq_refl refl), AllHeld-of usage draw (λ n m. h n (kept n m)))
  where
    kept : (n : String) → has n draw ≡ true → has n ((k, a) ∷ draw) ≡ true
    kept n m = ground (arith, m)

-- A charge is for an extra dimension with a quota, and without a violation at most its reservation.
pub charged-le-reserved :
    (reserved : Dict ℕ) (actual : Json) (budget : Budget) (n : String)
    → (tally reserved actual budget).violations ≡ []
    → used (tally reserved actual budget).charged n ≤ used reserved n
unfolding used
charged-le-reserved reserved actual budget n honest =
    elim (Option-cases (get n (tally reserved actual budget).charged)) [
      | inl absent ↦ ground (arith, absent)
      | inr (c, found) ↦
          let (_, bounded) = tally-le-reserved reserved actual budget n c honest found in
          ground (arith, found, bounded)
    ]
