-- ===== src/Accounting/Preserved.antt =====
-- The usage that a run starts with, and the usage behind a charge (coordinator.py `_charge`).
use industrial_agent_runtime.Prelude.{
  ℕ, String, ◌==◌, ◌≡◌, ◌∙◌, refl, sym, subst, true, false, some, List, [], ◌∷◌, Dict, get, has,
  keys, IsDict, eq_iff, inl, inr, Bool-cases, contains, contains-keys, contains-sorted,
  Option-cases, arith, false≢true, sorted, eq_refl, ◌≤◌,
}
use industrial_agent_runtime.Amounts.{is_whole}
use industrial_agent_runtime.Amounts.Whole.{is_whole-zero}
use industrial_agent_runtime.Contracts.{Budget}
use industrial_agent_runtime.Decisions.{ok, refuse_if-eq-ok, ok-injective}
use industrial_agent_runtime.Gates.Budget.{used, quota}
use industrial_agent_runtime.Gates.Budget.Quota.{FitsQuota, IsWholeAt, not-exceeds, eq_sym}
use industrial_agent_runtime.Accounting.{any_exceeds, charge, start_usage, zeros}
use industrial_agent_runtime.Accounting.Spending.{
  total-used, whole_at, whole_at-used, used-whole, AllHeld, IsSpent, spend-IsSpent,
}
use industrial_agent_runtime.Accounting.Usage.{
  IsCounted, IsUsage, IsUsage-IsCounted, counter-IsWholeAt, IsCounterDraw,
}
use industrial_agent_runtime.Accounting.Charged.{AllHeld-of}

has-zeros : (n : String) (ns : List String) → contains n ns ≡ true → has n (zeros ns) ≡ true
unfolding has get zeros contains
has-zeros n [] h = absurd (false≢true h)
has-zeros n (m ∷ ns) h = ground (arith, h, has-zeros n ns)

used-zeros : (n : String) (ns : List String) → used (zeros ns) n ≡ 0
unfolding used get zeros
used-zeros n [] = refl
used-zeros n (m ∷ ns) = ground (arith, used-zeros n ns)

started :
    (budget : Budget) (n : String) (q : ℕ)
    → quota budget n ≡ some q
    → contains n (
        "model_calls"
        ∷ "tool_calls"
        ∷ "steps"
        ∷ "subagents"
        ∷ sorted (keys budget.extra_dimensions))
      ≡ true
unfolding quota contains has
started budget n q h = ground (
  arith,
  h,
  contains-sorted n (keys budget.extra_dimensions),
  contains-keys n budget.extra_dimensions,
  eq_sym "model_calls" n,
  eq_sym "tool_calls" n,
  eq_sym "subagents" n,
  eq_sym "steps" n,
)

-- A run starts within the quota, with an entry for every dimension that has one.
pub start_usage-IsUsage : (budget : Budget) → IsUsage budget (start_usage budget)
unfolding start_usage
start_usage-IsUsage budget = record {
  held = λ n q h. has-zeros n _ (started budget n q h);
  whole = λ n standard. subst (λ m. is_whole m ≡ true) (sym (used-zeros n _)) is_whole-zero;
  within = λ n q h. omega (arith, used-zeros n _);
}

get-later :
    (k : String) (b : ℕ) (draw : Dict ℕ) (j : String) (c : ℕ)
    → has k draw ≡ false
    → get j draw ≡ some c
    → get j ((k, b) ∷ draw) ≡ some c
unfolding has get
get-later k b draw j c free held = elim (Bool-cases (k == j)) [
  | inl same ↦
      let taken = subst (λ i. has i draw ≡ false) ((eq_iff k j).0 same) free in
      absurd (ground (arith, taken, held))
  | inr differs ↦ ground (arith, differs, held)
]

module _ (budget : Budget) (usage : Dict ℕ) where
  abbrev AllFit : Dict ℕ → Type 0
  AllFit draw = (n : String) (a : ℕ) → get n draw ≡ some a → FitsQuota budget usage n a

  abbrev AllCounted : Dict ℕ → Type 0
  AllCounted draw = (n : String) (a : ℕ) → get n draw ≡ some a → IsWholeAt budget usage n

  any_exceeds-AllFit :
      (draw : Dict ℕ)
      → IsDict draw
      → AllCounted draw
      → any_exceeds budget usage draw ≡ false
      → AllFit draw
  unfolding any_exceeds get
  any_exceeds-AllFit [] d w h n a found = absurd (cc)
  any_exceeds-AllFit ((k, b) ∷ draw) d w h n a found = elim (Bool-cases (k == n)) [
    | inl same ↦ subst (FitsQuota budget usage n) (ground (arith, found, same)) (
        subst (λ i. FitsQuota budget usage i b) ((eq_iff k n).0 same)
          (not-exceeds budget usage k b (w k b (rw (eq_refl k) refl)) (ground (arith, h))))
    | inr differs ↦
        any_exceeds-AllFit draw d.1 (λ j c held. w j c (get-later k b draw j c d.0 held))
          (ground (arith, h)) n a (ground (arith, found, differs))
  ]

  module _ (draw : Dict ℕ) (u : IsCounted budget usage) (d : IsDict draw)
      (counter : IsCounterDraw draw) where
    counted : AllCounted draw
    counted n a found = counter-IsWholeAt budget usage n u (counter n a found).0

    fitting-AllHeld : AllFit draw → AllHeld usage draw
    unfolding has
    fitting-AllHeld all = AllHeld-of usage draw λ n m. elim (Option-cases (get n draw)) [
      | inl absent ↦ absurd (false≢true (ground (arith, absent, m)))
      | inr (a, found) ↦ let (q, has_quota, _) = all n a found in u.held n q has_quota
    ]

    whole_draw : (n : String) → whole_at draw n ≡ true
    unfolding used
    whole_draw n = whole_at-used draw n d (elim (Option-cases (get n draw)) [
      | inl absent ↦ ground (arith, absent, is_whole-zero)
      | inr (a, found) ↦ ground (arith, found, (counter n a found).1)
    ])

    -- A dimension stays within its quota, where it was.
    spent-within :
        (after : Dict ℕ) (n : String) (q : ℕ)
        → AllFit draw
        → IsSpent usage draw after
        → quota budget n ≡ some q
        → used usage n ≤ q
        → used after n ≤ q
    unfolding used has
    spent-within after n q all s h bounded = elim (Option-cases (get n draw)) [
      | inl absent ↦ ground (arith, s.kept n (ground (arith, absent)), bounded)
      | inr (a, found) ↦
          let (q', same, fits) = all n a found in
          ground (
            arith,
            found,
            s.grown n (u.whole n (counter n a found).0) (whole_draw n),
            total-used draw n d,
            same,
            h,
            fits,
          )
    ]

-- A charge that is let through spends the draw: `_charge` refuses before it changes anything.
charge-IsSpent :
    (budget : Budget) (usage draw after : Dict ℕ)
    → IsCounted budget usage
    → IsDict draw
    → IsCounterDraw draw
    → charge budget usage draw ≡ ok after
    → AllFit budget usage draw × IsSpent usage draw after
unfolding charge
charge-IsSpent budget usage draw after u d counter h =
    let (fits, ran) = refuse_if-eq-ok (any_exceeds budget usage draw) _ _ h in
    let all = any_exceeds-AllFit budget usage draw d (counted budget usage draw u d counter) fits in
    let (spent, done, s) =
      spend-IsSpent usage draw (fitting-AllHeld budget usage draw u d counter all) in
    (all, subst (IsSpent usage draw) (ok-injective (sym done ∙ ran)) s)

-- A charge of integers on the standard counters that is let through leaves the usage within the quota.
pub charge-IsUsage :
    (budget : Budget) (usage draw after : Dict ℕ)
    → IsUsage budget usage
    → IsDict draw
    → IsCounterDraw draw
    → charge budget usage draw ≡ ok after
    → IsUsage budget after
charge-IsUsage budget usage draw after u d counter h =
    let c = IsUsage-IsCounted budget usage u in
    let (all, s) = charge-IsSpent budget usage draw after c d counter h in
    record {
      held = λ n q has_quota. s.held n (u.held n q has_quota);
      whole = λ n standard.
          used-whole usage draw after n s (u.whole n standard)
            (whole_draw budget usage draw c d counter n);
      within = λ n q has_quota.
          spent-within budget usage draw c d counter after n q all s has_quota
            (u.within n q has_quota);
    }

pub charge-IsCounted :
    (budget : Budget) (usage draw after : Dict ℕ)
    → IsCounted budget usage
    → IsDict draw
    → IsCounterDraw draw
    → charge budget usage draw ≡ ok after
    → IsCounted budget after
charge-IsCounted budget usage draw after c d counter h =
    let (all, s) = charge-IsSpent budget usage draw after c d counter h in
    record {
      held = λ n q has_quota. s.held n (c.held n q has_quota);
      whole = λ n standard.
          used-whole usage draw after n s (c.whole n standard)
            (whole_draw budget usage draw c d counter n);
      counters = λ n q standard has_quota.
          spent-within budget usage draw c d counter after n q all s has_quota
            (c.counters n q standard has_quota);
    }
