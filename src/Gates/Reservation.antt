-- ===== src/Gates/Reservation.antt =====
-- G2 sizing: `reservation` and `resolve` of src/industrial_agent_runtime/gates.py. The loops go over
-- the sorted names and read the mappings by name.
pub mod Bounds
pub mod Resolve
use industrial_agent_runtime.Prelude.{
  ℕ, String, ◌==◌, Bool, true, false, not, ◌&&◌, ◌||◌, Option, none, some, List, [], ◌∷◌, ◌++◌,
  Dict, get, has, keys, insert, contains, sorted, ltb, eqb, if◌then◌else◌, is_some,
}
use industrial_agent_runtime.Json.{
  Json, null, boolean, int, float, string, array, object, finite_amount,
}
use industrial_agent_runtime.Amounts.{check_finite}
use industrial_agent_runtime.Contracts.{ToolSpec, ToolCallRequest}
use industrial_agent_runtime.Decisions.{
  Result, ok, err, key_error, type_error, ◌>>=◌, ◌>>◌, refuse_if, or_raise, g0_schema, g2_budget,
}
use industrial_agent_runtime.Refs.{or_null}
use industrial_agent_runtime.Gates.Policy.{standard_dimensions}
use industrial_agent_runtime.Gates.Pipeline.{
  GatePipeline, Raw, json, opaque, ReservationOrigin, declared, request_bound, max_fallback,
  ResolvedReservation, Resolver, refusal, deny_as,
}

-- `set(a) | set(b)`
unfoldable pub union : List String → List String → List String
union [] ms = ms
union (n ∷ ns) ms = let rest = union ns ms in if contains n rest then rest else n ∷ rest

-- A missing entry and `None` are read alike.
unfoldable pub present : Option Json → Option Json
present none = none
present (some null) = none
present (some v) = some v

unfoldable pub is_string : Json → Bool
is_string (string s) = true
is_string _ = false

-- Whether the declaration names no number: a string, or nothing.
unfoldable pub is_unsized : Option Json → Bool
unfolding is_string
is_unsized none = true
is_unsized (some v) = is_string v

-- A dimension whose declared draw is a string.
unfoldable pub is_dynamic : ToolSpec → String → Bool
unfolding is_string
is_dynamic spec name = elim (get name spec.declared_budget_draw) [
  | none ↦ false
  | some v ↦ is_string v
]

unfoldable pub raw_amount : Raw → Option ℕ
raw_amount (json v) = finite_amount v
raw_amount opaque = none

unfoldable pub check_raw : Raw → Result (Unit {0})
check_raw (json v) = check_finite v
check_raw opaque = ok tt

abbrev pub declared_names : ToolSpec → List String
declared_names spec = sorted (union (keys spec.declared_budget_draw) (keys spec.max_budget_draw))

module _ (g : GatePipeline) (id : String) where
  -- The declared maximum of a dimension, `none` where it has none.
  unfoldable pub cap_of : Option Json → Result (Option ℕ)
  cap_of none = ok none
  cap_of (some v) = check_finite v >> elim (finite_amount v) [
    | none ↦ deny_as g id g0_schema "INVALID_TOOL_SPEC"
    | some cap ↦ ok (some cap)
  ]

  unfoldable pub capped : Option ℕ → ℕ → Result ℕ
  capped none amount = ok amount
  capped (some cap) amount =
      if ltb cap amount then deny_as g id g0_schema "INVALID_TOOL_SPEC" else ok amount

  unfoldable pub sized_by : Option ℕ → Option Json → Result ℕ
  unfolding capped is_unsized
  sized_by cap value = elim (is_unsized value) [
    | true ↦ elim cap [ none ↦ deny_as g id g2_budget "UNRESERVABLE_DRAW" | some c ↦ ok c ]
    | false ↦ check_finite (or_null value) >> elim (finite_amount (or_null value)) [
      | none ↦ deny_as g id g0_schema "INVALID_TOOL_SPEC"
      | some amount ↦ capped cap amount
    ]
  ]

  -- One round of the loop of `reservation`.
  unfoldable pub amount_for : ToolSpec → String → Result ℕ
  amount_for spec name = do
    refuse_if (contains name standard_dimensions) (refusal g id g0_schema "INVALID_TOOL_SPEC")
    cap ← cap_of (present (get name spec.max_budget_draw))
    sized_by cap (present (get name spec.declared_budget_draw))

  unfoldable pub reserve_names : ToolSpec → List String → Dict ℕ → Result (Dict ℕ)
  reserve_names spec [] reserved = ok reserved
  reserve_names spec (n ∷ ns) reserved = do
    amount ← amount_for spec n
    reserve_names spec ns (insert n amount reserved)

  -- Each dimension's numeric declared draw, else its maximum.
  unfoldable pub reservation : ToolSpec → Result (Dict ℕ)
  reservation spec = reserve_names spec (declared_names spec) []

  -- The comparison with `max_budget_draw[name]`.
  unfoldable pub below_maximum : Option Json → ℕ → Result ℕ
  below_maximum none amount = err key_error
  below_maximum (some v) amount = elim (finite_amount v) [
    | none ↦ err type_error
    | some cap ↦
        if ltb cap amount then deny_as g id g2_budget "RESOLVED_DRAW_EXCEEDS_MAX" else ok amount
  ]

  -- One round of the loop of `resolve`: the value for a dimension is checked and taken.
  unfoldable pub resolved_amount : ToolSpec → Dict ℕ → String → Raw → Result ℕ
  resolved_amount spec draw name value = do
    refuse_if (not (has name draw)) (refusal g id g2_budget "RESOLVED_DIMENSION_UNDECLARED")
    refuse_if (not (is_dynamic spec name)) (refusal g id g2_budget "RESOLVED_DIMENSION_NOT_DYNAMIC")
    check_raw value
    amount ← or_raise (raw_amount value) (refusal g id g2_budget "INVALID_RESOLVED_DRAW")
    below_maximum (get name spec.max_budget_draw) amount

  unfoldable pub resolve_names :
      ToolSpec → Dict Raw → List String → ResolvedReservation → Result ResolvedReservation
  resolve_names spec resolved [] r = ok r
  resolve_names spec resolved (n ∷ ns) r = do
    value ← or_raise (get n resolved) key_error
    amount ← resolved_amount spec r.draw n value
    resolve_names spec resolved ns
        (record { draw = insert n amount r.draw; origins = insert n request_bound r.origins })

  -- What the resolver answers, or why it is refused.
  unfoldable pub ask_resolver : Resolver → ToolCallRequest → ToolSpec → Result (Dict Raw)
  ask_resolver resolver request spec = elim (resolver request spec) [
    | err e ↦ deny_as g id g2_budget "RESOLVER_ERROR"
    | ok answer ↦ elim answer [
      | none ↦ deny_as g id g2_budget "INVALID_RESOLVER_OUTPUT"
      | some resolved ↦ ok resolved
    ]
  ]

unfoldable pub origin_of : ToolSpec → String → ReservationOrigin
origin_of spec name =
    if is_unsized (present (get name spec.declared_budget_draw)) then max_fallback else declared

unfoldable pub origins_of : ToolSpec → List String → Dict ReservationOrigin
origins_of spec [] = []
origins_of spec (n ∷ ns) = insert n (origin_of spec n) (origins_of spec ns)

unfoldable pub has_dynamic : ToolSpec → List String → Bool
has_dynamic spec [] = false
has_dynamic spec (n ∷ ns) = is_dynamic spec n || has_dynamic spec ns

unfoldable pub consult :
    GatePipeline
    → Resolver
    → ToolCallRequest
    → ToolSpec
    → ResolvedReservation
    → Result ResolvedReservation
consult g resolver request spec sized = do
  resolved ← ask_resolver g request.request_id resolver request spec
  resolve_names g request.request_id spec resolved (sorted (keys resolved)) sized

unfoldable pub refine :
    GatePipeline → ToolCallRequest → ToolSpec → ResolvedReservation → Result ResolvedReservation
refine g request spec sized = elim g.resolver [
  | none ↦ ok sized
  | some resolver ↦
      if has_dynamic spec (keys spec.declared_budget_draw)
      then consult g resolver request spec sized
      else ok sized
]

-- `resolve`: the static sizing, refined by the resolver on the dimensions declared by a string.
unfoldable pub resolve : GatePipeline → ToolCallRequest → ToolSpec → Result ResolvedReservation
resolve g request spec = do
  draw ← reservation g request.request_id spec
  refine g request spec (record { draw = draw; origins = origins_of spec (keys draw) })

unfoldable pub eqb_origin : ReservationOrigin → ReservationOrigin → Bool
eqb_origin declared declared = true
eqb_origin request_bound request_bound = true
eqb_origin max_fallback max_fallback = true
eqb_origin _ _ = false

module _ {V : Type 0} (eq : V → V → Bool) where
  unfoldable pub agree_at : Option V → Option V → Bool
  agree_at none none = true
  agree_at (some v) (some w) = eq v w
  agree_at _ _ = false

  unfoldable pub agree_on : List String → Dict V → Dict V → Bool
  unfolding agree_at
  agree_on [] a b = true
  agree_on (n ∷ ns) a b = agree_at (get n a) (get n b) && agree_on ns a b

  -- Equality of mappings.
  unfoldable pub eqb_dict : Dict V → Dict V → Bool
  unfolding agree_on
  eqb_dict a b = agree_on (keys a) a b && agree_on (keys b) a b

unfoldable pub eqb_reservation : ResolvedReservation → ResolvedReservation → Bool
unfolding eqb_dict eqb_origin
eqb_reservation r s = eqb_dict eqb r.draw s.draw && eqb_dict eqb_origin r.origins s.origins
