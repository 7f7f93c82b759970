-- ===== src/Schema/Instance.antt =====
-- `instance_errors` of src/industrial_agent_runtime/schema.py: a value against a schema that
-- `schema_errors` has accepted. What Python raises on one that it has not is an error here too, but
-- its precise kind is not followed.
use Prim.Native.String.{count}
use industrial_agent_runtime.Prelude.{
  ℕ, zero, suc, String, ◌==◌, Bool, true, false, ◌||◌, Option, none, some, List, [], ◌∷◌, ◌++◌, ℤ,
  pos, ltb_ℤ, leb_ℤ, contains, if◌then◌else◌,
}
use industrial_agent_runtime.Json.{
  Json, null, boolean, int, float, string, array, object, Items, nil, cons, Fields, end, field,
  member, has_member, number_of, units,
}
use industrial_agent_runtime.Json.Equality.{json_equal}
use industrial_agent_runtime.Amounts.{check_finite}
use industrial_agent_runtime.Decisions.{
  Result, ok, err, type_error, key_error, attribute_error, ◌>>=◌, ◌>>◌,
}
use industrial_agent_runtime.Schema.{
  Regex, Segment, name, index, Complaint, Problem, complain, types, wrong_type, not_const,
  not_in_enum, below_minimum, above_maximum, not_above_minimum, not_below_maximum, too_short,
  too_long, pattern_mismatch, too_few_items, too_many_items, missing_required, unexpected_property,
}

-- The row of `_matches_type` that a value satisfies, where `_is_number` does not raise.
unfoldable pub has_type : Json → String → Bool
has_type (object fs) kind = kind == "object"
has_type (array xs) kind = kind == "array"
has_type (string s) kind = kind == "string"
has_type (int z) kind = kind == "integer" || kind == "number"
has_type (float q) kind = kind == "number"
has_type (boolean b) kind = kind == "boolean"
has_type null kind = kind == "null"

-- All rows are computed before the one is taken.
unfoldable pub matches_type : Json → Json → Result Bool
unfolding has_type
matches_type v (string kind) =
    check_finite v >> (if contains kind types then ok (has_type v kind) else err key_error)
matches_type v _ = err key_error

unfoldable pub any_match : Json → Items → Result Bool
unfolding matches_type
any_match v nil = ok false
any_match v (cons kind kinds) =
    let rest = any_match v kinds in do fits ← matches_type v kind; if fits then ok true else rest

unfoldable pub fits_type : Json → Option Json → Result Bool
unfolding any_match
fits_type v none = ok true
fits_type v (some null) = ok true
fits_type v (some (array kinds)) = any_match v kinds
fits_type v (some kind) = any_match v (cons kind nil)

unfoldable pub const_errors : List Segment → Json → Option Json → List Problem
const_errors path v none = []
const_errors path v (some w) = if json_equal v w then [] else complain path not_const

unfoldable pub any_equal : Json → Items → Bool
any_equal v nil = false
any_equal v (cons w ws) = json_equal v w || any_equal v ws

unfoldable pub choice_errors : List Segment → Json → Option Json → Result (List Problem)
unfolding any_equal
choice_errors path v none = ok []
choice_errors path v (some (array ws)) =
    ok (if any_equal v ws then [] else complain path not_in_enum)
choice_errors path v (some _) = err type_error

-- A number as Python compares it, where True and False are 1 and 0.
unfoldable pub as_bound : Json → Result ℤ
as_bound (boolean true) = ok (pos (units 1))
as_bound (boolean false) = ok (pos zero)
as_bound v = elim (number_of v) [ none ↦ err type_error | some z ↦ ok z ]

-- `if key in schema and test(schema[key]): errors.append(complaint)`
unfoldable pub limit_errors :
    List Segment → Option Json → (ℤ → Bool) → Complaint → Result (List Problem)
unfolding as_bound
limit_errors path none crossed c = ok []
limit_errors path (some bound) crossed c = do
  z ← as_bound bound
  ok (if crossed z then complain path c else [])

unfoldable pub range_errors : List Segment → Fields → Option ℤ → Result (List Problem)
unfolding limit_errors
range_errors path fs none = ok []
range_errors path fs (some n) = do
  low ← limit_errors path (member "minimum" fs) (λ z. ltb_ℤ n z) below_minimum
  high ← limit_errors path (member "maximum" fs) (λ z. ltb_ℤ z n) above_maximum
  above ← limit_errors path (member "exclusiveMinimum" fs) (λ z. leb_ℤ n z) not_above_minimum
  below ← limit_errors path (member "exclusiveMaximum" fs) (λ z. leb_ℤ z n) not_below_maximum
  ok (low ++ high ++ above ++ below)

-- The two bounds on a length, by their keywords.
unfoldable pub size_errors :
    List Segment → ℕ → Fields → String → String → Complaint → Complaint → Result (List Problem)
unfolding limit_errors
size_errors path size fs least most few many = do
  low ← limit_errors path (member least fs) (λ z. ltb_ℤ (pos (units size)) z) few
  high ← limit_errors path (member most fs) (λ z. ltb_ℤ z (pos (units size))) many
  ok (low ++ high)

unfoldable pub size_of : Items → ℕ
size_of nil = 0
size_of (cons v xs) = suc (size_of xs)

unfoldable pub missing_errors : List Segment → Fields → Items → List Problem
missing_errors path ms nil = []
missing_errors path ms (cons (string key) more) =
    let others = missing_errors path ms more in
    if has_member key ms then others else complain path (missing_required key) ++ others
missing_errors path ms (cons v more) = missing_errors path ms more

unfoldable pub absent_errors : List Segment → Fields → Option Json → Result (List Problem)
unfolding missing_errors
absent_errors path ms none = ok []
absent_errors path ms (some (array required)) = ok (missing_errors path ms required)
absent_errors path ms (some _) = err type_error

-- What a schema asks of the member of a mapping: nothing, that it is not there, or a schema.
pub data Rule : Type 0 where
  free forbidden : Rule
  under : Json → Rule

unfoldable pub property_of : String → Option Json → Option Json
property_of key (some (object fs)) = member key fs
property_of key _ = none

unfoldable pub extra_rule : Option Json → Rule
extra_rule (some (boolean false)) = forbidden
extra_rule (some (object fs)) = under (object fs)
extra_rule _ = free

unfoldable pub rule_for : String → Fields → Rule
unfolding property_of extra_rule
rule_for key fs = elim (property_of key (member "properties" fs)) [
  | some child ↦ under child
  | none ↦ extra_rule (member "additionalProperties" fs)
]

module _ (re : Regex) where
  unfoldable pub search_errors : List Segment → String → Option Json → Result (List Problem)
  search_errors path s none = ok []
  search_errors path s (some (string pattern)) =
      if re.compiles pattern
      then ok (if re.search pattern s then [] else complain path pattern_mismatch)
      else err type_error
  search_errors path s (some _) = err type_error

  unfoldable pub shape_errors : List Segment → Json → Fields → Result (List Problem)
  unfolding size_errors size_of absent_errors search_errors
  shape_errors path (string s) fs = do
    size ← size_errors path (count s) fs "minLength" "maxLength" too_short too_long
    pattern ← search_errors path s (member "pattern" fs)
    ok (size ++ pattern)
  shape_errors path (array xs) fs =
      size_errors path (size_of xs) fs "minItems" "maxItems" too_few_items too_many_items
  shape_errors path (object ms) fs = absent_errors path ms (member "required" fs)
  shape_errors path v fs = ok []

  -- The checks on the value itself, all but those on its items and members.
  unfoldable pub own_errors : List Segment → Json → Fields → Result (List Problem)
  unfolding const_errors choice_errors range_errors shape_errors
  own_errors path v fs = do
    choice ← choice_errors path v (member "enum" fs)
    check_finite v
    number ← range_errors path fs (number_of v)
    rest ← shape_errors path v fs
    ok (const_errors path v (member "const" fs) ++ choice ++ number ++ rest)

  -- The type first, and nothing else if it is wrong; then the value, then what it holds.
  unfoldable pub checked :
      List Segment → Json → Fields → Result (List Problem) → Result (List Problem)
  unfolding fits_type own_errors
  checked path v fs nested = do
    fits ← fits_type v (member "type" fs)
    if fits
        then (do own ← own_errors path v fs; inner ← nested; ok (own ++ inner))
        else ok (complain path wrong_type)

  unfoldable mutual
    unfolding checked rule_for

    pub instance_errors : List Segment → Json → Json → Result (List Problem)
    instance_errors path (array xs) (object fs) =
        checked path (array xs) fs (item_errors path 0 xs (member "items" fs))
    instance_errors path (object ms) (object fs) =
        checked path (object ms) fs (member_errors path ms fs)
    instance_errors path v (object fs) = checked path v fs (ok [])
    instance_errors path v _ = err attribute_error

    pub item_errors : List Segment → ℕ → Items → Option Json → Result (List Problem)
    item_errors path i nil s = ok []
    item_errors path i (cons v xs) none = ok []
    item_errors path i (cons v xs) (some s) = do
      first ← instance_errors (index i ∷ path) v s
      others ← item_errors path (suc i) xs (some s)
      ok (first ++ others)

    pub member_errors : List Segment → Fields → Fields → Result (List Problem)
    member_errors path end fs = ok []
    member_errors path (field key v rest) fs = do
      first ← elim (rule_for key fs) [
        | free ↦ ok []
        | forbidden ↦ ok (complain path (unexpected_property key))
        | under s ↦ instance_errors (name key ∷ path) v s
      ]
      others ← member_errors path rest fs
      ok (first ++ others)
