-- ===== src/Accounting/Spending.antt =====
-- What `spend` does to a usage: it adds each amount of a draw to its dimension, and raises nothing
-- where every dimension has an entry.
use industrial_agent_runtime.Prelude.{
  ℕ, ◌+◌, String, ◌==◌, ◌≡◌, ◌∙◌, refl, sym, ap, subst, Bool, true, false, not, ◌&&◌, ◌||◌, none,
  some, [], ◌∷◌, Dict, get, has, insert, get-insert, has-insert, IsDict, eq_iff, inl, inr,
  Bool-cases, Option-cases, arith, false≢true, if◌then◌else◌, get-absent,
}
use industrial_agent_runtime.Amounts.{is_whole, sum}
use industrial_agent_runtime.Amounts.Whole.{sum-whole, is_whole-add, is_whole-zero}
use industrial_agent_runtime.Decisions.{ok}
use industrial_agent_runtime.Gates.Budget.{used}
use industrial_agent_runtime.Gates.Authorize.{merge}
use industrial_agent_runtime.Accounting.{spend}

-- The sum of the entries of a dimension.
abbrev pub total : Dict ℕ → String → ℕ
total [] n = 0
total ((k, a) ∷ draw) n = (if k == n then a else 0) + total draw n

-- Where no key stands twice, the sum is the entry.
pub total-used : (draw : Dict ℕ) (n : String) → IsDict draw → total draw n ≡ used draw n
unfolding used get has
total-used [] n d = refl
total-used ((k, a) ∷ draw) n d = ground (arith, total-used draw n d.1, d.0, eq_iff k n)

pub used-insert :
    (usage : Dict ℕ) (k : String) (a : ℕ) (n : String)
    → used (insert k a usage) n ≡ (if k == n then a else used usage n)
unfolding used
used-insert usage k a n = ground (arith, get-insert k n a usage)

-- Every dimension of the draw has an entry in the usage.
abbrev pub AllHeld : Dict ℕ → Dict ℕ → Type 0
AllHeld usage [] = Unit
AllHeld usage ((k, a) ∷ draw) = (has k usage ≡ true) × AllHeld usage draw

AllHeld-insert :
    (usage : Dict ℕ) (k : String) (a : ℕ) (draw : Dict ℕ)
    → AllHeld usage draw
    → AllHeld (insert k a usage) draw
AllHeld-insert usage k a [] h = tt
AllHeld-insert usage k a ((j, b) ∷ draw) h =
    (has-insert k j a usage ∙ ground (arith, h.0), AllHeld-insert usage k a draw h.1)

-- Whether every amount is whole.
abbrev pub all_whole : Dict ℕ → Bool
all_whole [] = true
all_whole ((k, a) ∷ draw) = is_whole a && all_whole draw

pub all_whole-used :
    (draw : Dict ℕ) (n : String) → all_whole draw ≡ true → is_whole (used draw n) ≡ true
unfolding used get
all_whole-used [] n h = is_whole-zero
all_whole-used ((k, a) ∷ draw) n h = ground (arith, h, all_whole-used draw n)

-- Whether every amount for a dimension is whole.
abbrev pub whole_at : Dict ℕ → String → Bool
whole_at [] n = true
whole_at ((k, a) ∷ draw) n = (not (k == n) || is_whole a) && whole_at draw n

-- Where no key stands twice, one entry decides.
pub whole_at-used :
    (draw : Dict ℕ) (n : String)
    → IsDict draw
    → is_whole (used draw n) ≡ true
    → whole_at draw n ≡ true
unfolding used get has
whole_at-used [] n d h = refl
whole_at-used ((k, a) ∷ draw) n d h = elim (Bool-cases (k == n)) [
  | inl same ↦
      ground (arith, same, h, free draw (subst (λ i. has i draw ≡ false) ((eq_iff k n).0 same) d.0))
  | inr differs ↦ ground (arith, differs, whole_at-used draw n d.1 (ground (arith, differs, h)))
]
  where
    free : (draw : Dict ℕ) → has n draw ≡ false → whole_at draw n ≡ true
    free [] h = refl
    free ((k, a) ∷ draw) h = ground (arith, h, free draw)

pub total-whole :
    (draw : Dict ℕ) (n : String) → whole_at draw n ≡ true → is_whole (total draw n) ≡ true
total-whole [] n h = is_whole-zero
total-whole ((k, a) ∷ draw) n h = elim (Bool-cases (k == n)) [
  | inl same ↦
      ground (arith, same, h, total-whole draw n (ground (arith, h)), is_whole-add a (total draw n))
  | inr differs ↦ ground (arith, differs, total-whole draw n (ground (arith, h)))
]

-- What a draw leaves: every entry kept, and a dimension of whole amounts grown by its sum.
pub record IsSpent (usage draw after : Dict ℕ) : Type 0 where
  pub held : (n : String) → has n usage ≡ true → has n after ≡ true
  pub kept : (n : String) → has n draw ≡ false → used after n ≡ used usage n
  pub grown :
      (n : String)
      → is_whole (used usage n) ≡ true
      → whole_at draw n ≡ true
      → used after n ≡ used usage n + total draw n

IsSpent-step :
    (usage : Dict ℕ) (k : String) (a u : ℕ) (draw after : Dict ℕ)
    → get k usage ≡ some u
    → IsSpent (insert k (sum u a) usage) draw after
    → IsSpent usage ((k, a) ∷ draw) after
unfolding used has get
IsSpent-step usage k a u draw after found s = record {
  held = λ n h. s.held n (has-insert k n (sum u a) usage ∙ ground (arith, h));
  kept = λ n free.
      s.kept n (ground (arith, free)) ∙ (used-insert usage k (sum u a) n ∙ ground (arith, free));
  grown = λ n w v. elim (Bool-cases (k == n)) [
    | inl same ↦
        let at : used usage n ≡ u =
          ground (arith, found, ap (λ i. get i usage) ((eq_iff k n).0 same)) in
        let whole : is_whole u ≡ true = subst (λ m. is_whole m ≡ true) at w in
        let drawn : is_whole a ≡ true = ground (arith, same, v) in
        let now : used (insert k (sum u a) usage) n ≡ u + a =
          used-insert usage k (sum u a) n ∙ (ground (arith, same) ∙ sum-whole u a whole drawn) in
        let later =
          s.grown n (subst (λ m. is_whole m ≡ true) (sym now) (is_whole-add u a whole drawn))
            (ground (arith, v)) in
        ground (arith, later, now, at, same)
    | inr differs ↦
        let now : used (insert k (sum u a) usage) n ≡ used usage n =
          used-insert usage k (sum u a) n ∙ ground (arith, differs) in
        let later = s.grown n (subst (λ m. is_whole m ≡ true) (sym now) w) (ground (arith, v)) in
        ground (arith, later, now, differs)
  ];
}

-- Whole amounts stay whole.
pub used-whole :
    (usage draw after : Dict ℕ) (n : String)
    → IsSpent usage draw after
    → is_whole (used usage n) ≡ true
    → whole_at draw n ≡ true
    → is_whole (used after n) ≡ true
used-whole usage draw after n s w v =
    subst (λ m. is_whole m ≡ true) (sym (s.grown n w v))
      (is_whole-add (used usage n) (total draw n) w (total-whole draw n v))

pub spend-IsSpent :
    (usage draw : Dict ℕ)
    → AllHeld usage draw
    → (after : Dict ℕ) × (spend usage draw ≡ ok after) × IsSpent usage draw after
unfolding spend has
spend-IsSpent usage [] h =
    (usage, refl, record { held = λ n h. h; kept = λ n free. refl; grown = λ n w v. omega arith })
spend-IsSpent usage ((k, a) ∷ draw) h = elim (Option-cases (get k usage)) [
  | inl absent ↦ absurd (false≢true (ground (arith, absent, h.0)))
  | inr (u, found) ↦
      let (after, ran, s) =
        spend-IsSpent (insert k (sum u a) usage) draw (AllHeld-insert usage k (sum u a) draw h.1) in
      (after, ground (arith, found, ran), IsSpent-step usage k a u draw after found s)
]

-- The merged mapping reads the second one first.
pub merge-absent :
    (n : String) (base draw : Dict ℕ) → get n draw ≡ none → get n (merge base draw) ≡ get n base
unfolding merge get
merge-absent n base [] absent = refl
merge-absent n base ((k, a) ∷ draw) absent = elim (Bool-cases (k == n)) [
  | inl same ↦ absurd (ground (arith, absent, same))
  | inr differs ↦
      merge-absent n (insert k a base) draw (ground (arith, absent, differs))
      ∙ (get-insert k n a base ∙ ground (arith, differs))
]

pub merge-present :
    (n : String) (base draw : Dict ℕ) (b : ℕ)
    → IsDict draw
    → get n draw ≡ some b
    → get n (merge base draw) ≡ some b
unfolding merge get
merge-present n base [] b d found = absurd (cc)
merge-present n base ((k, a) ∷ draw) b d found = elim (Bool-cases (k == n)) [
  | inl same ↦
      merge-absent n (insert k a base) draw
        (get-absent n draw (subst (λ i. has i draw ≡ false) ((eq_iff k n).0 same) d.0))
      ∙ (get-insert k n a base ∙ ground (arith, same, found))
  | inr differs ↦ merge-present n (insert k a base) draw b d.1 (ground (arith, found, differs))
]
