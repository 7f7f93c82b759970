-- ===== src/Gates/Reservation/Bounds.antt =====
-- The loops of `reservation` and `resolve` in src/industrial_agent_runtime/gates.py, against the
-- declaration of the tool.
use industrial_agent_runtime.Prelude.{
  AllEntries, AllEntries-insert, ℕ, String, ◌≡◌, ◌≢◌, ◌≤◌, refl, subst, true, false, not, Option,
  none, some, List, [], ◌∷◌, Dict, get, has, insert, contains, Option-cases, inl, inr, arith,
}
use industrial_agent_runtime.Json.{Json, null, int, string, finite_amount}
use industrial_agent_runtime.Contracts.{ToolSpec}
use industrial_agent_runtime.Decisions.{ok, refuse_if-eq-ok, or_raise, >>=-eq-ok, ok-injective}
use industrial_agent_runtime.Gates.Policy.{standard_dimensions}
use industrial_agent_runtime.Gates.Pipeline.{GatePipeline, Raw, ResolvedReservation}
use industrial_agent_runtime.Gates.Reservation.{
  below_maximum, present, is_string, is_dynamic, cap_of, capped, sized_by, amount_for,
  reserve_names, reservation, declared_names, raw_amount, check_raw, resolved_amount, resolve_names,
}

-- The amount of an entry that holds a finite nonnegative number.
abbrev pub amount_at : String → Dict Json → Option ℕ
amount_at name m = elim (get name m) [ none ↦ none | some v ↦ finite_amount v ]

-- The amount is the number, or at most the number, where there is one.
abbrev pub Exactly : ℕ → Option ℕ → Type 0
Exactly a none = Unit
Exactly a (some d) = a ≡ d

abbrev pub AtMost : ℕ → Option ℕ → Type 0
AtMost a none = Unit
AtMost a (some cap) = a ≤ cap

Exactly-of : (a : ℕ) (o : Option ℕ) → ((d : ℕ) → o ≡ some d → a ≡ d) → Exactly a o
Exactly-of a none h = tt
Exactly-of a (some d) h = h d refl

AtMost-of : (a : ℕ) (o : Option ℕ) → ((c : ℕ) → o ≡ some c → a ≤ c) → AtMost a o
AtMost-of a none h = tt
AtMost-of a (some c) h = h c refl

-- An amount that fits the declaration of a dimension: it is no standard counter, a numeric
-- declaration is met exactly, and a numeric maximum is respected.
pub record Fits (spec : ToolSpec) (name : String) (a : ℕ) : Type 0 where
  pub not_standard : contains name standard_dimensions ≡ false
  pub exact : Exactly a (amount_at name spec.declared_budget_draw)
  pub bounded : AtMost a (amount_at name spec.max_budget_draw)

abbrev pub AllFit : ToolSpec → Dict ℕ → Type 0
AllFit spec = AllEntries (Fits spec)

string-inexact : (v : Json) (d : ℕ) → is_string v ≡ true → finite_amount v ≢ some d
unfolding is_string finite_amount
string-inexact (string s) d h e = cc
string-inexact (int z) d h e = cc
string-inexact v d h e = cc

module _ (g : GatePipeline) (id : String) where
  pub cap_of-ok :
      (o : Option Json) (cap : Option ℕ)
      → cap_of g id (present o) ≡ ok cap
      → (c : ℕ) → (elim o [ none ↦ none | some v ↦ finite_amount v ]) ≡ some c
      → cap ≡ some c
  unfolding cap_of present finite_amount
  cap_of-ok none cap h c e = absurd (cc)
  cap_of-ok (some null) cap h c e = absurd (cc)
  cap_of-ok (some v) cap h c e = ground arith

  pub sized_by-ok :
      (cap : Option ℕ) (o : Option Json) (a : ℕ)
      → sized_by g id cap (present o) ≡ ok a
      → ((d : ℕ) → (elim o [ none ↦ none | some v ↦ finite_amount v ]) ≡ some d → a ≡ d)
        × ((c : ℕ) → cap ≡ some c → a ≤ c)
  unfolding sized_by present finite_amount
  sized_by-ok cap none a h = (λ d e. absurd (cc), λ c e. ground arith)
  sized_by-ok cap (some null) a h = (λ d e. absurd (cc), λ c e. ground arith)
  sized_by-ok cap (some (string s)) a h = (λ d e. absurd (cc), λ c e. ground arith)
  sized_by-ok cap (some v) a h = (λ d e. ground arith, λ c e. ground arith)

  pub amount_for-Fits :
      (spec : ToolSpec) (name : String) (a : ℕ)
      → amount_for g id spec name ≡ ok a
      → Fits spec name a
  unfolding amount_for
  amount_for-Fits spec name a h =
      let (plain, h₁) = refuse_if-eq-ok (contains name standard_dimensions) _ _ h in
      let (cap, capped, h₂) =
        >>=-eq-ok (cap_of g id (present (get name spec.max_budget_draw))) _ h₁ in
      let (exact, bounded) = sized_by-ok cap (get name spec.declared_budget_draw) a h₂ in
      record {
        not_standard = plain;
        exact = Exactly-of a _ exact;
        bounded = AtMost-of a _ (λ c e. bounded c (cap_of-ok _ cap capped c e));
      }

  module _ (spec : ToolSpec) (P : String → ℕ → Type 0)
      (each : (n : String) (a : ℕ) → amount_for g id spec n ≡ ok a → P n a) where
    reserve_names-AllEntries :
        (ns : List String) (reserved draw : Dict ℕ)
        → AllEntries P reserved
        → reserve_names g id spec ns reserved ≡ ok draw
        → AllEntries P draw
    unfolding reserve_names
    reserve_names-AllEntries [] reserved draw all h = subst (AllEntries P) (ok-injective h) all
    reserve_names-AllEntries (n ∷ ns) reserved draw all h =
        let (a, sized, rest) = >>=-eq-ok (amount_for g id spec n) _ h in
        reserve_names-AllEntries ns (insert n a reserved) draw
          (AllEntries-insert P reserved n a all (each n a sized)) rest

    pub reservation-AllEntries :
        (draw : Dict ℕ) → reservation g id spec ≡ ok draw → AllEntries P draw
    unfolding reservation get
    reservation-AllEntries draw h =
        reserve_names-AllEntries (declared_names spec) [] draw (λ name a e. absurd (cc)) h

  -- A value that the loop of `resolve` takes is for a dimension already sized and declared by a
  -- string, and is at most its maximum.
  pub record Taken (spec : ToolSpec) (draw : Dict ℕ) (n : String) (a : ℕ) : Type 0 where
    pub sized : has n draw ≡ true
    pub dynamic : is_dynamic spec n ≡ true
    pub cap : ℕ
    pub maximum : amount_at n spec.max_budget_draw ≡ some cap
    pub bounded : a ≤ cap

  below_maximum-ok :
      (o : Option Json) (amount a : ℕ)
      → below_maximum g id o amount ≡ ok a
      → (cap : ℕ) × ((elim o [ none ↦ none | some v ↦ finite_amount v ]) ≡ some cap) × (a ≤ cap)
  unfolding below_maximum
  below_maximum-ok none amount a h = absurd (cc)
  below_maximum-ok (some v) amount a h = elim (Option-cases (finite_amount v)) [
    | inl absent ↦ absurd (ground (arith, absent))
    | inr (cap, found) ↦ (cap, found, ground (arith, found))
  ]

  pub resolved_amount-Taken :
      (spec : ToolSpec) (draw : Dict ℕ) (n : String) (value : Raw) (a : ℕ)
      → resolved_amount g id spec draw n value ≡ ok a
      → Taken spec draw n a
  unfolding resolved_amount
  resolved_amount-Taken spec draw n value a h =
      let (sized, h₁) = refuse_if-eq-ok (not (has n draw)) _ _ h in
      let (dynamic, h₂) = refuse_if-eq-ok (not (is_dynamic spec n)) _ _ h₁ in
      let (_, _, h₂') = >>=-eq-ok (check_raw value) _ h₂ in
      let (amount, _, h₃) = >>=-eq-ok (or_raise (raw_amount value) _) _ h₂' in
      let (cap, maximum, bounded) = below_maximum-ok (get n spec.max_budget_draw) amount a h₃ in
      record {
        sized = ground (arith, sized);
        dynamic = ground (arith, dynamic);
        cap = cap;
        maximum = maximum;
        bounded = bounded;
      }

  -- A dimension declared by a string has no numeric declaration, and is reserved at its maximum.
  dynamic-inexact :
      (spec : ToolSpec) (n : String) (d : ℕ)
      → is_dynamic spec n ≡ true
      → amount_at n spec.declared_budget_draw ≢ some d
  unfolding is_dynamic
  dynamic-inexact spec n d h e = elim (Option-cases (get n spec.declared_budget_draw)) [
    | inl absent ↦ absurd (ground (arith, absent, h))
    | inr (v, found) ↦ string-inexact v d (ground (arith, found, h)) (ground (arith, found, e))
  ]

  pub Taken-Fits :
      (spec : ToolSpec) (draw : Dict ℕ) (n : String) (a : ℕ)
      → AllFit spec draw
      → Taken spec draw n a
      → Fits spec n a
  unfolding has
  Taken-Fits spec draw n a all t = elim (Option-cases (get n draw)) [
    | inl absent ↦ absurd (ground (arith, absent, t.sized))
    | inr (b, found) ↦ record {
      not_standard = (all n b found).not_standard;
      exact = Exactly-of a _ (λ d e. absurd (dynamic-inexact spec n d t.dynamic e));
      bounded =
          AtMost-of a _ (λ cap e. subst (λ c. a ≤ c) (ground (arith, t.maximum, e)) t.bounded);
    }
  ]

  -- The loop of `resolve` keeps a property that every value it takes has.
  module _ (spec : ToolSpec) (resolved : Dict Raw) (P : String → ℕ → Type 0)
      (each : (draw : Dict ℕ) (n : String) (a : ℕ)
        → AllEntries P draw
        → Taken spec draw n a
        → P n a) where
    pub resolve_names-AllEntries :
        (ns : List String) (r s : ResolvedReservation)
        → AllEntries P r.draw
        → resolve_names g id spec resolved ns r ≡ ok s
        → AllEntries P s.draw
    unfolding resolve_names
    resolve_names-AllEntries [] r s all h = subst (λ t. AllEntries P t.draw) (ok-injective h) all
    resolve_names-AllEntries (n ∷ ns) r s all h =
        let (value, _, h₁) = >>=-eq-ok (or_raise (get n resolved) _) _ h in
        let (a, taken, rest) = >>=-eq-ok (resolved_amount g id spec r.draw n value) _ h₁ in
        resolve_names-AllEntries ns _ s
          (AllEntries-insert P r.draw n a all
            (each r.draw n a all (resolved_amount-Taken spec r.draw n value a taken)))
          rest
