-- ===== src/Gates/Reconcile/Charges.antt =====
-- The charges of `reconcile` in src/industrial_agent_runtime/gates.py, against the reservation.
use industrial_agent_runtime.Prelude.{
  ℕ, String, ◌==◌, ◌≡◌, ◌≢◌, ◌∙◌, ◌≤◌, refl, sym, subst, Bool, true, false, not, ◌&&◌, ◌||◌, some,
  List, [], ◌∷◌, Dict, get, has, keys, insert, get-insert, sorted, contains, contains-keys,
  contains-sorted, ltb, inl, inr, Bool-cases, arith, if◌then◌else◌, is_nil, eq_iff, false≢true,
}
use industrial_agent_runtime.Json.{Json}
use industrial_agent_runtime.Contracts.{Budget}
use industrial_agent_runtime.Decisions.{ok, ok-injective, refuse_if-eq-ok}
use industrial_agent_runtime.Gates.Reservation.{union}
use industrial_agent_runtime.Gates.Budget.{used}
use industrial_agent_runtime.Gates.Reconcile.{
  Violation, Reconciliation, reported, shape_violations, clean_draw, invalid_draws, hidden_draws,
  excess_draws, max, charge_for, is_charged, charges, violations_of, overflowing, tally, reconcile,
}
use industrial_agent_runtime.Schema.Accepted.{append-eq-nil}

pub contains-union :
    (k : String) (ns ms : List String) → contains k (union ns ms) ≡ (contains k ns || contains k ms)
unfolding union contains
contains-union k [] ms = refl
contains-union k (n ∷ ns) ms = ground (arith, contains-union k ns ms, eq_iff n k)

module _ (budget : Budget) (reserved clean : Dict ℕ) (violating : Bool) where
  charges-get :
      (ns : List String) (charged : Dict ℕ) (n : String)
      → get n (charges budget reserved clean violating ns charged) ≡ (
          if contains n ns && is_charged budget n
          then some (charge_for reserved clean violating n)
          else get n charged)
  unfolding charges contains
  charges-get [] charged n = refl
  charges-get (m ∷ ns) charged n =
      let c = charge_for reserved clean violating m in
      ground (
        arith,
        charges-get ns (insert m c charged) n,
        charges-get ns charged n,
        get-insert m n c charged,
        eq_iff m n,
      )

hidden_at :
    (reserved clean : Dict ℕ) (ns : List String) (n : String)
    → hidden_draws reserved clean ns ≡ []
    → contains n ns ≡ true
    → (not (has n reserved) && ltb 0 (used clean n)) ≡ false
unfolding hidden_draws contains
hidden_at reserved clean [] n h m = absurd (false≢true m)
hidden_at reserved clean (k ∷ ns) n h m = elim (Bool-cases (k == n)) [
  | inl same ↦
      subst (λ j. (not (has j reserved) && ltb 0 (used clean j)) ≡ false) ((eq_iff k n).0 same)
        (ground (arith, h))
  | inr differs ↦ hidden_at reserved clean ns n (ground (arith, h)) (ground (arith, m, differs))
]

excess_at :
    (reserved clean : Dict ℕ) (ns : List String) (n : String)
    → excess_draws reserved clean ns ≡ []
    → contains n ns ≡ true
    → used clean n ≤ used reserved n
unfolding excess_draws contains
excess_at reserved clean [] n h m = absurd (false≢true m)
excess_at reserved clean (k ∷ ns) n h m = elim (Bool-cases (k == n)) [
  | inl same ↦ subst (λ j. used clean j ≤ used reserved j) ((eq_iff k n).0 same) (ground (arith, h))
  | inr differs ↦ excess_at reserved clean ns n (ground (arith, h)) (ground (arith, m, differs))
]

unused : (m : Dict ℕ) (n : String) (k : ℕ) → has n m ≡ false → used m n ≤ k
unfolding has used
unused m n k h = ground (arith, h)

-- A report without a violation draws no more than was reserved, in every dimension.
violations_of-nil :
    (reserved clean : Dict ℕ) (actual : Json) (n : String)
    → violations_of reserved clean actual ≡ []
    → used clean n ≤ used reserved n
unfolding violations_of
violations_of-nil reserved clean actual n h =
    let (_, h₁) = append-eq-nil (shape_violations actual) _ h in
    let (_, h₂) = append-eq-nil (invalid_draws (reported actual)) _ h₁ in
    let (hidden, excess) = append-eq-nil (hidden_draws reserved clean (sorted (keys clean))) _ h₂ in
    elim (Bool-cases (has n reserved)) [
      | inl held ↦
          excess_at reserved clean (sorted (keys reserved)) n excess
            (contains-sorted n (keys reserved) ∙ contains-keys n reserved ∙ held)
      | inr free ↦ elim (Bool-cases (has n clean)) [
        | inl drawn ↦
            let quiet =
              hidden_at reserved clean (sorted (keys clean)) n hidden
                (contains-sorted n (keys clean) ∙ contains-keys n clean ∙ drawn) in
            ground (arith, quiet, free)
        | inr absent ↦ unused clean n (used reserved n) absent
      ]
    ]

pub charged_at :
    (reserved : Dict ℕ) (actual : Json) (budget : Budget) (n : String) (c : ℕ)
    → get n (tally reserved actual budget).charged ≡ some c
    → (is_charged budget n ≡ true)
      × (charge_for reserved
            (tally reserved actual budget).actual
            (not (is_nil (tally reserved actual budget).violations))
            n
          ≡ c)
unfolding tally get
charged_at reserved actual budget n c h =
    let clean = clean_draw (reported actual) [] in
    let violating = not (is_nil (violations_of reserved clean actual)) in
    let names = sorted (union (keys reserved) (keys clean)) in
    let at = charges-get budget reserved clean violating names [] n in
    (ground (arith, at, h), ground (arith, at, h))

honest-le :
    (reserved : Dict ℕ) (actual : Json) (budget : Budget) (n : String) (c : ℕ)
    → (tally reserved actual budget).violations ≡ []
    → charge_for reserved
        (tally reserved actual budget).actual
        (not (is_nil (tally reserved actual budget).violations))
        n
      ≡ c
    → c ≤ used reserved n
unfolding tally charge_for
honest-le reserved actual budget n c honest e =
    ground (
      arith,
      honest,
      e,
      violations_of-nil reserved (clean_draw (reported actual) []) actual n honest,
    )

charge_for-violating :
    (reserved clean : Dict ℕ) (n : String) (violating : Bool)
    → violating ≡ true
    → charge_for reserved clean violating n ≡ max (used clean n) (used reserved n)
unfolding charge_for
charge_for-violating reserved clean n true h = refl
charge_for-violating reserved clean n false h = absurd (false≢true h)

guilty_violations : (vs : List Violation) → vs ≢ [] → not (is_nil vs) ≡ true
guilty_violations [] h = absurd (h refl)
guilty_violations (v ∷ vs) h = refl

max-le_right : (a b : ℕ) → b ≤ max a b
unfolding max
max-le_right a b = ground arith

-- A reconciliation that raises nothing is the tally of the report.
pub reconcile-tally :
    (reserved : Dict ℕ) (actual : Json) (budget : Budget) (r : Reconciliation)
    → reconcile reserved actual budget ≡ ok r
    → tally reserved actual budget ≡ r
unfolding reconcile
reconcile-tally reserved actual budget r h =
    let (_, same) = refuse_if-eq-ok (overflowing (reported actual)) _ _ h in ok-injective same

pub tally-le-reserved :
    (reserved : Dict ℕ) (actual : Json) (budget : Budget) (n : String) (c : ℕ)
    → (tally reserved actual budget).violations ≡ []
    → get n (tally reserved actual budget).charged ≡ some c
    → (is_charged budget n ≡ true) × (c ≤ used reserved n)
tally-le-reserved reserved actual budget n c honest h =
    let (extra, charge) = charged_at reserved actual budget n c h in
    (extra, honest-le reserved actual budget n c honest charge)

-- Where the reconciliation returns and finds no violation, every charge is for an extra dimension
-- that the task configures, and is at most what was reserved for it.
pub reconcile-le-reserved :
    (reserved : Dict ℕ) (actual : Json) (budget : Budget) (r : Reconciliation) (n : String) (c : ℕ)
    → reconcile reserved actual budget ≡ ok r
    → r.violations ≡ []
    → get n r.charged ≡ some c
    → (is_charged budget n ≡ true) × (c ≤ used reserved n)
reconcile-le-reserved reserved actual budget r n c ran honest h =
    let same = sym (reconcile-tally reserved actual budget r ran) in
    tally-le-reserved reserved actual budget n c (subst (λ t. t.violations ≡ []) same honest)
      (subst (λ t. get n t.charged ≡ some c) same h)

pub reserved-le-tally :
    (reserved : Dict ℕ) (actual : Json) (budget : Budget) (n : String)
    → (tally reserved actual budget).violations ≢ []
    → has n reserved ≡ true
    → is_charged budget n ≡ true
    → (c : ℕ) × (get n (tally reserved actual budget).charged ≡ some c) × (used reserved n ≤ c)
unfolding tally
reserved-le-tally reserved actual budget n guilty held extra =
    let clean = clean_draw (reported actual) [] in
    let vs = violations_of reserved clean actual in
    let names = sorted (union (keys reserved) (keys clean)) in
    let listed : contains n names ≡ true = ground (
      arith,
      contains-sorted n (union (keys reserved) (keys clean)),
      contains-union n (keys reserved) (keys clean),
      contains-keys n reserved,
      held,
    ) in
    let at = charges-get budget reserved clean (not (is_nil vs)) names [] n in
    (
      max (used clean n) (used reserved n),
      ground (
        arith,
        at,
        listed,
        extra,
        charge_for-violating reserved clean n (not (is_nil vs)) (guilty_violations vs guilty),
      ),
      max-le_right (used clean n) (used reserved n),
    )

-- Where the reconciliation returns and finds a violation, each reserved dimension that the task
-- configures is charged, and at least what was reserved for it.
pub reserved-le-reconcile :
    (reserved : Dict ℕ) (actual : Json) (budget : Budget) (r : Reconciliation) (n : String)
    → reconcile reserved actual budget ≡ ok r
    → r.violations ≢ []
    → has n reserved ≡ true
    → is_charged budget n ≡ true
    → (c : ℕ) × (get n r.charged ≡ some c) × (used reserved n ≤ c)
reserved-le-reconcile reserved actual budget r n ran guilty held extra =
    let same = reconcile-tally reserved actual budget r ran in
    subst (λ t. (c : ℕ) × (get n t.charged ≡ some c) × (used reserved n ≤ c)) same
      (reserved-le-tally reserved actual budget n (subst (λ t. t.violations ≢ []) (sym same) guilty)
        held extra)
