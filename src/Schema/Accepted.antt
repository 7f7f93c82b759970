-- ===== src/Schema/Accepted.antt =====
-- What the acceptance of a schema says of its keywords, one fact for each, and of its children.
use industrial_agent_runtime.Prelude.{
  String, ◌==◌, ◌≡◌, ◌∙◌, refl, sym, subst, true, false, some, List, [], ◌∷◌, ◌++◌, inl, inr,
  Bool-cases, arith, if◌then◌else◌,
}
use industrial_agent_runtime.Json.{Json, object, Fields, end, field, member}
use industrial_agent_runtime.Decisions.{Result, ok, err, ◌>>=◌, >>=-eq-ok, ok-injective}
use industrial_agent_runtime.Schema.{
  Regex, Segment, Problem, name, properties, items, additional_properties, schema_errors,
  properties_errors, children_errors, each_errors, extra_errors, items_errors, type_errors,
  required_errors, enum_errors, bound_errors, length_errors, pattern_errors, keyword_errors,
  collect, check_bounds, bound_keys, length_keys, is_boolean,
}

pub append-eq-nil {ℓ} : {A : Type ℓ} (xs ys : List A) → xs ++ ys ≡ [] → (xs ≡ []) × (ys ≡ [])
append-eq-nil [] ys h = (refl, h)
append-eq-nil (x ∷ xs) ys h = absurd (cc)

module _ (re : Regex) where
  -- No complaint at some place: acceptance does not depend on where the schema stands.
  abbrev pub IsAccepted : Json → Type 0
  IsAccepted s = (path : List Segment) × (schema_errors re path s ≡ ok [])

  pub record Keywords (path : List Segment) (fs : Fields) : Type 0 where
    pub known : keyword_errors path fs ≡ []
    pub kind : type_errors path (member "type" fs) ≡ ok []
    pub children : properties_errors re path fs ≡ ok []
    pub extra : extra_errors re path fs ≡ ok []
    pub element : items_errors re path fs ≡ ok []
    pub required : required_errors path (member "required" fs) ≡ []
    pub choice : enum_errors path (member "enum" fs) ≡ []
    pub bounds : bound_errors path fs bound_keys ≡ []
    pub lengths : length_errors path fs length_keys ≡ []
    pub pattern : pattern_errors re path (member "pattern" fs) ≡ []

  collect-Keywords :
      (path : List Segment) (fs : Fields) (children extra element : Result (List Problem))
      → collect re path fs children extra element ≡ ok []
      → (keyword_errors path fs ≡ [])
        × (type_errors path (member "type" fs) ≡ ok [])
        × (children ≡ ok [])
        × (extra ≡ ok [])
        × (element ≡ ok [])
        × (required_errors path (member "required" fs) ≡ [])
        × (enum_errors path (member "enum" fs) ≡ [])
        × (bound_errors path fs bound_keys ≡ [])
        × (length_errors path fs length_keys ≡ [])
        × (pattern_errors re path (member "pattern" fs) ≡ [])
  unfolding collect
  collect-Keywords path fs children extra element h =
      let (k, ek, h₁) = >>=-eq-ok (type_errors path (member "type" fs)) _ h in
      let (c, ec, h₂) = >>=-eq-ok children _ h₁ in
      let (x, ex, h₃) = >>=-eq-ok extra _ h₂ in
      let (e, ee, h₄) = >>=-eq-ok element _ h₃ in
      let (_, _, h₅) = >>=-eq-ok (check_bounds fs bound_keys) _ h₄ in
      let (a₀, r₀) = append-eq-nil (keyword_errors path fs) _ (ok-injective h₅) in
      let (a₁, r₁) = append-eq-nil k _ r₀ in
      let (a₂, r₂) = append-eq-nil c _ r₁ in
      let (a₃, r₃) = append-eq-nil (required_errors path (member "required" fs)) _ r₂ in
      let (a₄, r₄) = append-eq-nil x _ r₃ in
      let (a₅, r₅) = append-eq-nil e _ r₄ in
      let (a₆, r₆) = append-eq-nil (enum_errors path (member "enum" fs)) _ r₅ in
      let (a₇, r₇) = append-eq-nil (bound_errors path fs bound_keys) _ r₆ in
      let (a₈, a₉) = append-eq-nil (length_errors path fs length_keys) _ r₇ in
      (a₀, cc, cc, cc, cc, a₃, a₆, a₇, a₈, a₉)

  schema_errors-object :
      (path : List Segment) (fs : Fields)
      → collect re path fs
          (properties_errors re path fs)
          (extra_errors re path fs)
          (items_errors re path fs)
        ≡ schema_errors re path (object fs)
  unfolding schema_errors
  schema_errors-object path fs = refl

  pub Keywords-of :
      (path : List Segment) (fs : Fields)
      → schema_errors re path (object fs) ≡ ok []
      → Keywords path fs
  Keywords-of path fs h =
      let (a₀, a₁, a₂, a₃, a₄, a₅, a₆, a₇, a₈, a₉) =
        collect-Keywords path fs (properties_errors re path fs) (extra_errors re path fs)
          (items_errors re path fs) (schema_errors-object path fs ∙ h) in
      record {
        known = a₀;
        kind = a₁;
        children = a₂;
        extra = a₃;
        element = a₄;
        required = a₅;
        choice = a₆;
        bounds = a₇;
        lengths = a₈;
        pattern = a₉;
      }

  -- What a schema says about its children, its "additionalProperties" and its "items".
  each_errors-field :
      (path : List Segment) (key : String) (child : Json) (rest : Fields)
      → each_errors re path (field key child rest) ≡ (
          schema_errors re (name key ∷ properties ∷ path) child >>= λ first.
          each_errors re path rest >>= λ others. ok (first ++ others))
  unfolding schema_errors
  each_errors-field path key child rest = refl

  both-nil :
      (r s : Result (List Problem))
      → (r >>= λ first. s >>= λ others. ok (first ++ others)) ≡ ok []
      → (r ≡ ok []) × (s ≡ ok [])
  both-nil (ok xs) (ok ys) h = let (a, b) = append-eq-nil xs ys (ok-injective h) in (cc, cc)
  both-nil (ok xs) (err e) h = absurd (cc)
  both-nil (err e) s h = absurd (cc)

  each-IsAccepted :
      (path : List Segment) (ps : Fields) (key : String) (child : Json)
      → each_errors re path ps ≡ ok []
      → member key ps ≡ some child
      → IsAccepted child
  unfolding member
  each-IsAccepted path end key child h m = absurd (cc)
  each-IsAccepted path (field k v rest) key child h m =
      let (first, others) =
        both-nil (schema_errors re (name k ∷ properties ∷ path) v) (each_errors re path rest)
          (sym (each_errors-field path k v rest) ∙ h) in
      elim (Bool-cases (k == key)) [
        | inl same ↦ (
          name k ∷ properties ∷ path,
          subst (λ c. schema_errors re (name k ∷ properties ∷ path) c ≡ ok []) (ground arith) first,
        )
        | inr differs ↦ each-IsAccepted path rest key child others (ground arith)
      ]

  properties_errors-field :
      (path : List Segment) (key : String) (v : Json) (rest : Fields)
      → properties_errors re path (field key v rest) ≡ (elim (key == "properties") [
        | true ↦ children_errors re path v
        | false ↦ properties_errors re path rest
      ])
  unfolding schema_errors
  properties_errors-field path key v rest = refl

  children_errors-object :
      (path : List Segment) (ps : Fields)
      → children_errors re path (object ps) ≡ each_errors re path ps
  unfolding schema_errors
  children_errors-object path ps = refl

  pub property-IsAccepted :
      (path : List Segment) (fs ps : Fields) (key : String) (child : Json)
      → properties_errors re path fs ≡ ok []
      → member "properties" fs ≡ some (object ps)
      → member key ps ≡ some child
      → IsAccepted child
  unfolding member
  property-IsAccepted path end ps key child h m c = absurd (cc)
  property-IsAccepted path (field k v rest) ps key child h m c =
      elim (Bool-cases (k == "properties")) [
        | inl same ↦
            each-IsAccepted path ps key child
              (ground
                (arith, properties_errors-field path k v rest, children_errors-object path ps))
              c
        | inr differs ↦
            property-IsAccepted path rest ps key child
              (ground (arith, properties_errors-field path k v rest)) (ground arith) c
      ]

  items_errors-field :
      (path : List Segment) (key : String) (v : Json) (rest : Fields)
      → items_errors re path (field key v rest) ≡ (elim (key == "items") [
        | true ↦ schema_errors re (items ∷ path) v
        | false ↦ items_errors re path rest
      ])
  unfolding schema_errors
  items_errors-field path key v rest = refl

  pub items-IsAccepted :
      (path : List Segment) (fs : Fields) (s : Json)
      → items_errors re path fs ≡ ok []
      → member "items" fs ≡ some s
      → IsAccepted s
  unfolding member
  items-IsAccepted path end s h m = absurd (cc)
  items-IsAccepted path (field k v rest) s h m = elim (Bool-cases (k == "items")) [
    | inl same ↦ (items ∷ path, ground (arith, items_errors-field path k v rest))
    | inr differs ↦
        items-IsAccepted path rest s (ground (arith, items_errors-field path k v rest))
          (ground arith)
  ]

  extra_errors-field :
      (path : List Segment) (key : String) (v : Json) (rest : Fields)
      → extra_errors re path (field key v rest) ≡ (elim (key == "additionalProperties") [
        | true ↦ if is_boolean v then ok [] else schema_errors re (additional_properties ∷ path) v
        | false ↦ extra_errors re path rest
      ])
  unfolding schema_errors
  extra_errors-field path key v rest = refl

  pub extra-IsAccepted :
      (path : List Segment) (fs gs : Fields)
      → extra_errors re path fs ≡ ok []
      → member "additionalProperties" fs ≡ some (object gs)
      → IsAccepted (object gs)
  unfolding member is_boolean
  extra-IsAccepted path end gs h m = absurd (cc)
  extra-IsAccepted path (field k v rest) gs h m = elim (Bool-cases (k == "additionalProperties")) [
    | inl same ↦ (additional_properties ∷ path, ground (arith, extra_errors-field path k v rest))
    | inr differs ↦
        extra-IsAccepted path rest gs (ground (arith, extra_errors-field path k v rest))
          (ground arith)
  ]
