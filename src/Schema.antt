-- ===== src/Schema.antt =====
-- src/industrial_agent_runtime/schema.py: the supported subset of JSON Schema, and the validation of
-- a value. The messages are data; a path is the list of its segments, the innermost first.
-- `re` is Python's; `compiles` says that a pattern compiles and `search` that it is found.
pub mod Instance
pub mod Accepted
pub mod Guards
pub mod Total
use industrial_agent_runtime.Prelude.{
  ℕ, String, ◌==◌, Bool, true, false, not, ◌&&◌, ◌||◌, Option, none, some, List, [], ◌∷◌, ◌++◌, pos,
  negsuc, contains, if◌then◌else◌, is_some,
}
use industrial_agent_runtime.Json.{
  Json, null, boolean, int, float, string, array, object, Items, nil, cons, Fields, end, field,
  member, is_number,
}
use industrial_agent_runtime.Amounts.{check_finite}
use industrial_agent_runtime.Decisions.{Result, ok, err, type_error, ◌>>=◌, ◌>>◌}

pub record Regex : Type 0 where
  pub compiles : String → Bool
  pub search : String → String → Bool

pub data Segment : Type 0 where
  properties additional_properties items : Segment
  name : String → Segment
  index : ℕ → Segment

pub data Complaint : Type 0 where
  schema_not_object invalid_type properties_not_object required_not_strings enum_not_list :
      Complaint
  unsupported_keyword bound_not_number length_not_count : String → Complaint
  invalid_pattern : Complaint
  wrong_type not_const not_in_enum below_minimum above_maximum : Complaint
  not_above_minimum not_below_maximum too_short too_long pattern_mismatch : Complaint
  too_few_items too_many_items : Complaint
  missing_required unexpected_property : String → Complaint

pub record Problem : Type 0 where
  pub path : List Segment
  pub complaint : Complaint

abbrev pub complain : List Segment → Complaint → List Problem
complain path c = record { path = path; complaint = c } ∷ []

abbrev pub keywords : List String
keywords =
    "type" ∷ "properties" ∷ "required" ∷ "additionalProperties" ∷ "items" ∷ "enum" ∷ "const"
    ∷ "minimum" ∷ "maximum" ∷ "exclusiveMinimum" ∷ "exclusiveMaximum" ∷ "minLength" ∷ "maxLength"
    ∷ "minItems" ∷ "maxItems" ∷ "pattern" ∷ "title" ∷ "description" ∷ "examples" ∷ "default"
    ∷ "$comment" ∷ []

abbrev pub types : List String
types = "object" ∷ "array" ∷ "string" ∷ "integer" ∷ "number" ∷ "boolean" ∷ "null" ∷ []

unfoldable pub keyword_errors : List Segment → Fields → List Problem
keyword_errors path end = []
keyword_errors path (field key v rest) =
    let others = keyword_errors path rest in
    if contains key keywords then others else complain path (unsupported_keyword key) ++ others

-- Whether Python can hash a frozen value: a mapping is not hashable, nor what holds one.
unfoldable mutual
  pub hashable : Json → Bool
  hashable (array xs) = hashable_items xs
  hashable (object fs) = false
  hashable _ = true

  pub hashable_items : Items → Bool
  hashable_items nil = true
  hashable_items (cons v xs) = hashable v && hashable_items xs

-- `item in _TYPES`, which raises a TypeError for what has no hash.
unfoldable pub is_type : Json → Result Bool
unfolding hashable
is_type (string s) = ok (contains s types)
is_type v = if hashable v then ok false else err type_error

-- `any(item not in _TYPES for item in kinds)`
unfoldable pub any_invalid : Items → Result Bool
unfolding is_type
any_invalid nil = ok false
any_invalid (cons v xs) =
    let rest = any_invalid xs in do valid ← is_type v; if valid then rest else ok true

unfoldable pub kinds_invalid : Json → Result Bool
unfolding any_invalid
kinds_invalid null = ok false
kinds_invalid (array nil) = ok true
kinds_invalid (array xs) = any_invalid xs
kinds_invalid v = any_invalid (cons v nil)

unfoldable pub type_errors : List Segment → Option Json → Result (List Problem)
unfolding kinds_invalid
type_errors path none = ok []
type_errors path (some kind) = do
  bad ← kinds_invalid kind
  ok (if bad then complain path invalid_type else [])

unfoldable pub all_strings : Items → Bool
all_strings nil = true
all_strings (cons (string s) xs) = all_strings xs
all_strings (cons _ xs) = false

unfoldable pub required_errors : List Segment → Option Json → List Problem
unfolding all_strings
required_errors path none = []
required_errors path (some (array xs)) =
    if all_strings xs then [] else complain path required_not_strings
required_errors path (some _) = complain path required_not_strings

unfoldable pub enum_errors : List Segment → Option Json → List Problem
enum_errors path none = []
enum_errors path (some (array xs)) = []
enum_errors path (some _) = complain path enum_not_list

unfoldable pub bound_errors : List Segment → Fields → List String → List Problem
bound_errors path fs [] = []
bound_errors path fs (key ∷ more) =
    (elim (member key fs) [
      | none ↦ []
      | some v ↦ if is_number v then [] else complain path (bound_not_number key)
    ])
    ++ bound_errors path fs more

-- `_is_number` raises for a bound beyond the doubles.
unfoldable pub check_bounds : Fields → List String → Result (Unit {0})
check_bounds fs [] = ok tt
check_bounds fs (key ∷ more) =
    (elim (member key fs) [ none ↦ ok tt | some v ↦ check_finite v ]) >> check_bounds fs more

-- `type(value) is int and value >= 0`
unfoldable pub is_count : Json → Bool
is_count (int (pos n)) = true
is_count _ = false

unfoldable pub length_errors : List Segment → Fields → List String → List Problem
unfolding is_count
length_errors path fs [] = []
length_errors path fs (key ∷ more) =
    (elim (member key fs) [
      | none ↦ []
      | some v ↦ if is_count v then [] else complain path (length_not_count key)
    ])
    ++ length_errors path fs more

abbrev pub bound_keys : List String
bound_keys = "minimum" ∷ "maximum" ∷ "exclusiveMinimum" ∷ "exclusiveMaximum" ∷ []

abbrev pub length_keys : List String
length_keys = "minLength" ∷ "maxLength" ∷ "minItems" ∷ "maxItems" ∷ []

unfoldable pub is_boolean : Json → Bool
is_boolean (boolean b) = true
is_boolean _ = false

module _ (re : Regex) where
  unfoldable pub is_pattern : Json → Bool
  is_pattern (string s) = re.compiles s
  is_pattern _ = false

  unfoldable pub pattern_errors : List Segment → Option Json → List Problem
  unfolding is_pattern
  pattern_errors path none = []
  pattern_errors path (some v) = if is_pattern v then [] else complain path invalid_pattern

  -- The complaints about a mapping, with those about its children.
  unfoldable pub collect :
      List Segment
      → Fields
      → (children extra element : Result (List Problem)) → Result (List Problem)
  collect path fs children extra element = do
    kind ← type_errors path (member "type" fs)
    c ← children
    x ← extra
    e ← element
    check_bounds fs bound_keys
    ok (
        keyword_errors path fs
        ++ (kind
            ++ (c
                ++ (required_errors path (member "required" fs)
                    ++ (x
                        ++ (e
                            ++ (enum_errors path (member "enum" fs)
                                ++ (bound_errors path fs bound_keys
                                    ++ (length_errors path fs length_keys
                                        ++ pattern_errors path (member "pattern" fs))))))))))

  -- Every reason that a schema lies outside the subset. The children are those of the keywords
  -- "properties", "additionalProperties" and "items", which the helpers look up in the mapping.
  unfoldable mutual
    unfolding collect

    pub schema_errors : List Segment → Json → Result (List Problem)
    schema_errors path (object fs) =
        collect path fs (properties_errors path fs) (extra_errors path fs) (items_errors path fs)
    schema_errors path _ = ok (complain path schema_not_object)

    pub properties_errors : List Segment → Fields → Result (List Problem)
    properties_errors path end = ok []
    properties_errors path (field key v rest) = elim (key == "properties") [
      | true ↦ children_errors path v
      | false ↦ properties_errors path rest
    ]

    pub children_errors : List Segment → Json → Result (List Problem)
    children_errors path (object fs) = each_errors path fs
    children_errors path _ = ok (complain path properties_not_object)

    pub each_errors : List Segment → Fields → Result (List Problem)
    each_errors path end = ok []
    each_errors path (field key child rest) = do
      first ← schema_errors (name key ∷ properties ∷ path) child
      others ← each_errors path rest
      ok (first ++ others)

    pub extra_errors : List Segment → Fields → Result (List Problem)
    extra_errors path end = ok []
    extra_errors path (field key v rest) = elim (key == "additionalProperties") [
      | true ↦
          let extra = schema_errors (additional_properties ∷ path) v in
          if is_boolean v then ok [] else extra
      | false ↦ extra_errors path rest
    ]

    pub items_errors : List Segment → Fields → Result (List Problem)
    items_errors path end = ok []
    items_errors path (field key v rest) = elim (key == "items") [
      | true ↦ schema_errors (items ∷ path) v
      | false ↦ items_errors path rest
    ]
