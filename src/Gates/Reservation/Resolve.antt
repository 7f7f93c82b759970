-- ===== src/Gates/Reservation/Resolve.antt =====
-- The sizing as a whole: what `resolve` returns, against the declaration and against `reservation`.
use industrial_agent_runtime.Prelude.{
  AllEntries, ℕ, String, ◌≡◌, ◌≤◌, ◌∙◌, contains, false≢true, sym, subst, true, false, Option, none,
  some, Dict, get, has, keys, sorted, ◌⊎◌, inl, inr, Bool-cases, Option-cases, arith,
}
use industrial_agent_runtime.Json.{Json, int, string}
use industrial_agent_runtime.Contracts.{ToolSpec, ToolCallRequest}
use industrial_agent_runtime.Decisions.{ok, refuse_if-eq-ok, >>=-eq-ok, ok-injective}
use industrial_agent_runtime.Gates.Policy.{standard_dimensions}
use industrial_agent_runtime.Gates.Pipeline.{GatePipeline, Raw, Resolver, ResolvedReservation}
use industrial_agent_runtime.Gates.Reservation.{
  present, is_string, is_dynamic, cap_of, sized_by, amount_for, reservation, resolve_names, consult,
  refine, resolve, has_dynamic, ask_resolver,
}
use industrial_agent_runtime.Gates.Reservation.Bounds.{
  amount_at, Fits, amount_for-Fits, reservation-AllEntries, Taken, Taken-Fits, cap_of-ok,
  resolve_names-AllEntries,
}

module _ (g : GatePipeline) (request : ToolCallRequest) (spec : ToolSpec) where
  abbrev id : String
  id = request.request_id

  pub refine-cases :
      (sized r : ResolvedReservation)
      → refine g request spec sized ≡ ok r
      → (sized ≡ r)
        ⊎ ((resolved : Dict Raw) × (resolve_names g id spec resolved (sorted (keys resolved)) sized
              ≡ ok r))
  unfolding refine consult
  refine-cases sized r h = elim (Option-cases g.resolver) [
    | inl absent ↦ inl (ground (arith, absent))
    | inr (resolver, found) ↦
        elim (Bool-cases (has_dynamic spec (keys spec.declared_budget_draw))) [
          | inl asked ↦
              let (resolved, _, rest) =
                >>=-eq-ok (ask_resolver g id resolver request spec) _
                  (consulted resolver found asked) in
              inr (resolved, rest)
          | inr skipped ↦ inl (ground (arith, found, skipped))
        ]
  ]
    where
      consulted :
          (resolver : Resolver)
          → g.resolver ≡ some resolver
          → has_dynamic spec (keys spec.declared_budget_draw) ≡ true
          → consult g resolver request spec sized ≡ ok r
      consulted resolver found asked = ground (arith, found, asked, h)

  module _ (P : String → ℕ → Type 0)
      (sizing : (n : String) (a : ℕ) → amount_for g id spec n ≡ ok a → P n a)
      (taking : (draw : Dict ℕ) (n : String) (a : ℕ)
        → AllEntries P draw
        → Taken g id spec draw n a
        → P n a) where
    resolve-AllEntries :
        (r : ResolvedReservation) → resolve g request spec ≡ ok r → AllEntries P r.draw
    unfolding resolve
    resolve-AllEntries r h =
        let (draw, sized, rest) = >>=-eq-ok (reservation g id spec) _ h in
        let all = reservation-AllEntries g id spec P sizing draw sized in
        elim (refine-cases _ r rest) [
          | inl same ↦ subst (λ t. AllEntries P t.draw) same all
          | inr (resolved, loop) ↦
              resolve_names-AllEntries g id spec resolved P taking (sorted (keys resolved)) _ r all
                loop
        ]

-- What `resolve` returns fits the declaration in every dimension: no standard counter is reserved, a
-- numeric declared draw is reserved exactly, and no amount passes a numeric maximum, whatever the
-- resolver answers.
pub resolve-Fits :
    (g : GatePipeline) (request : ToolCallRequest) (spec : ToolSpec) (r : ResolvedReservation)
    (name : String) (amount : ℕ)
    → resolve g request spec ≡ ok r
    → get name r.draw ≡ some amount
    → Fits spec name amount
resolve-Fits g request spec r name amount h =
    resolve-AllEntries g request spec (Fits spec) (amount_for-Fits g request.request_id spec)
      (Taken-Fits g request.request_id spec) r h name amount

-- A dimension declared by a string is reserved at its maximum.
abbrev IsAtMaximum : ToolSpec → String → ℕ → Type 0
IsAtMaximum spec n b =
    is_dynamic spec n ≡ true → (cap : ℕ) → amount_at n spec.max_budget_draw ≡ some cap → b ≡ cap

module _ (g : GatePipeline) (id : String) where
  sized_by-string :
      (cap : ℕ) (o : Option Json) (b : ℕ)
      → (elim o [ none ↦ false | some v ↦ is_string v ]) ≡ true
      → sized_by g id (some cap) (present o) ≡ ok b
      → b ≡ cap
  unfolding sized_by present
  sized_by-string cap none b d h = absurd (cc)
  sized_by-string cap (some (string s)) b d h = ground arith
  sized_by-string cap (some (int z)) b d h = absurd (cc)
  sized_by-string cap (some v) b d h = absurd (cc)

  amount_for-IsAtMaximum :
      (spec : ToolSpec) (n : String) (b : ℕ) → amount_for g id spec n ≡ ok b → IsAtMaximum spec n b
  unfolding is_dynamic amount_for
  amount_for-IsAtMaximum spec n b h dynamic cap maximum =
      let (plain, h₁) = refuse_if-eq-ok (contains n standard_dimensions) _ _ h in
      let (c, read, h₂) = >>=-eq-ok (cap_of g id (present (get n spec.max_budget_draw))) _ h₁ in
      let same = cap_of-ok g id (get n spec.max_budget_draw) c read cap maximum in
      sized_by-string cap (get n spec.declared_budget_draw) b dynamic (rw same at h₂)

-- A smaller or equal amount stands in the draw.
abbrev pub IsBelow : Dict ℕ → String → ℕ → Type 0
IsBelow draw n a = (b : ℕ) × (get n draw ≡ some b) × (a ≤ b)

Taken-IsBelow :
    (g : GatePipeline) (id : String) (spec : ToolSpec) (draw : Dict ℕ)
    → AllEntries (IsAtMaximum spec) draw
    → (current : Dict ℕ) (n : String) (a : ℕ) → AllEntries (IsBelow draw) current
    → Taken g id spec current n a
    → IsBelow draw n a
unfolding has
Taken-IsBelow g id spec draw top current n a all t = elim (Option-cases (get n current)) [
  | inl absent ↦ absurd (false≢true (ground (arith, absent, t.sized)))
  | inr (a', found) ↦
      let (b, held, _) = all n a' found in
      (b, held, subst (λ c. a ≤ c) (sym (top n b held t.dynamic t.cap t.maximum)) t.bounded)
]

resolve-IsBelow :
    (g : GatePipeline) (request : ToolCallRequest) (spec : ToolSpec) (draw : Dict ℕ)
    (r : ResolvedReservation)
    → reservation g request.request_id spec ≡ ok draw
    → resolve g request spec ≡ ok r
    → AllEntries (IsBelow draw) r.draw
unfolding resolve
resolve-IsBelow g request spec draw r computed h =
    let top =
      reservation-AllEntries g request.request_id spec (IsAtMaximum spec)
        (amount_for-IsAtMaximum g request.request_id spec) draw computed in
    let self : AllEntries (IsBelow draw) draw = λ n a e. (a, e, omega arith) in
    let (draw', sized, rest) = >>=-eq-ok (reservation g request.request_id spec) _ h in
    let same = ok-injective (sym computed ∙ sized) in
    elim (refine-cases g request spec _ r rest) [
      | inl kept ↦
          subst (λ t. AllEntries (IsBelow draw) t.draw) kept
            (subst (AllEntries (IsBelow draw)) same self)
      | inr (resolved, loop) ↦
          resolve_names-AllEntries g request.request_id spec resolved (IsBelow draw)
            (Taken-IsBelow g request.request_id spec draw top) (sorted (keys resolved)) _ r
            (subst (AllEntries (IsBelow draw)) same self) loop
    ]

-- A resolver only lowers the sizing: each amount that `resolve` returns is at most the one that
-- `reservation` computes for the same dimension.
pub resolve-le-reservation :
    (g : GatePipeline) (request : ToolCallRequest) (spec : ToolSpec) (draw : Dict ℕ)
    (r : ResolvedReservation) (name : String) (amount : ℕ)
    → reservation g request.request_id spec ≡ ok draw
    → resolve g request spec ≡ ok r
    → get name r.draw ≡ some amount
    → (sized : ℕ) × (get name draw ≡ some sized) × (amount ≤ sized)
resolve-le-reservation g request spec draw r name amount computed h =
    resolve-IsBelow g request spec draw r computed h name amount
