-- ===== src/Schema/Total.antt =====
-- `instance_errors` of src/industrial_agent_runtime/schema.py on a schema that `schema_errors` accepts.
use industrial_agent_runtime.Prelude.{
  ℕ, suc, String, ◌≡◌, refl, sym, subst, Bool, true, false, ◌||◌, Option, none, some, List, [], ◌∷◌,
  ℤ, contains, inl, inr, Bool-cases, Option-cases, arith, false≢true,
}
use industrial_agent_runtime.Json.{
  Json, string, array, object, Items, nil, cons, Fields, end, field, member, number_of,
}
use industrial_agent_runtime.Amounts.{
  overflows, check_finite, any_overflow, overflow_in_items, overflow_in_fields,
}
use industrial_agent_runtime.Decisions.{Result, ok}
use industrial_agent_runtime.Schema.{
  Regex, Segment, Problem, Complaint, complain, unexpected_property, name, index, schema_errors,
  pattern_errors, bound_keys, length_keys,
}
use industrial_agent_runtime.Schema.Instance.{
  fits_type, limit_errors, range_errors, size_errors, search_errors, shape_errors, own_errors,
  checked, Rule, free, forbidden, under, rule_for, property_of, instance_errors, item_errors,
  member_errors,
}
use industrial_agent_runtime.Schema.Accepted.{
  IsAccepted, Keywords, Keywords-of, property-IsAccepted, items-IsAccepted, extra-IsAccepted,
}
use industrial_agent_runtime.Schema.Guards.{
  is_ok, bind-ok, fits_type-ok, choice-ok, limit-ok, bound_at, length_at, absent-ok,
  property_of-eq-some, extra_rule-eq-under,
}

or-eq-false : (a b : Bool) → (a || b) ≡ false → (a ≡ false) × (b ≡ false)
or-eq-false false b h = (refl, h)
or-eq-false true b h = absurd (false≢true (sym h))

module _ (re : Regex) where
  search-ok :
      (path at : List Segment) (s : String) (o : Option Json)
      → pattern_errors re path o ≡ []
      → is_ok (search_errors re at s o) ≡ true
  unfolding pattern_errors search_errors
  search-ok path at s none h = refl
  search-ok path at s (some (string p)) h = ground arith
  search-ok path at s (some v) h = absurd (cc)

  module _ (path : List Segment) (fs : Fields) (k : Keywords re path fs) where
    limit_at :
        (at : List Segment) (key : String) (crossed : ℤ → Bool) (c : Complaint)
        → contains key bound_keys ≡ true
        → is_ok (limit_errors at (member key fs) crossed c) ≡ true
    limit_at at key crossed c h =
        limit-ok at (member key fs) crossed c (bound_at path fs bound_keys key k.bounds h)

    size_at :
        (at : List Segment) (key : String) (crossed : ℤ → Bool) (c : Complaint)
        → contains key length_keys ≡ true
        → is_ok (limit_errors at (member key fs) crossed c) ≡ true
    size_at at key crossed c h =
        limit-ok at (member key fs) crossed c (length_at path fs length_keys key k.lengths h)

    range-ok : (at : List Segment) (o : Option ℤ) → is_ok (range_errors at fs o) ≡ true
    unfolding range_errors contains
    range-ok at none = refl
    range-ok at (some n) = bind-ok _ _ (limit_at at "minimum" _ _ refl) λ _.
        bind-ok _ _ (limit_at at "maximum" _ _ refl) λ _.
          bind-ok _ _ (limit_at at "exclusiveMinimum" _ _ refl)
            λ _. bind-ok _ _ (limit_at at "exclusiveMaximum" _ _ refl) λ _. refl

    size-ok :
        (at : List Segment) (n : ℕ) (least most : String) (few many : Complaint)
        → contains least length_keys ≡ true
        → contains most length_keys ≡ true
        → is_ok (size_errors at n fs least most few many) ≡ true
    unfolding size_errors
    size-ok at n least most few many hl hm =
        bind-ok _ _ (size_at at least _ _ hl) λ _. bind-ok _ _ (size_at at most _ _ hm) λ _. refl

    shape-ok : (at : List Segment) (v : Json) → is_ok (shape_errors re at v fs) ≡ true
    unfolding shape_errors contains
    shape-ok at (string s) =
        bind-ok _ _ (size-ok at _ "minLength" "maxLength" _ _ refl refl)
          λ _. bind-ok _ _ (search-ok path at s (member "pattern" fs) k.pattern) λ _. refl
    shape-ok at (array xs) = size-ok at _ "minItems" "maxItems" _ _ refl refl
    shape-ok at (object ms) = absent-ok path at ms (member "required" fs) k.required
    shape-ok at v = refl

    check_finite-ok : (v : Json) → overflows v ≡ false → is_ok (check_finite v) ≡ true
    unfolding check_finite
    check_finite-ok v small = rw small refl

    own-ok :
        (at : List Segment) (v : Json) → overflows v ≡ false → is_ok (own_errors re at v fs) ≡ true
    unfolding own_errors
    own-ok at v small = bind-ok _ _ (choice-ok path at v (member "enum" fs) k.choice) λ _.
        bind-ok _ _ (check_finite-ok v small)
          λ _. bind-ok _ _ (range-ok at (number_of v)) λ _. bind-ok _ _ (shape-ok at v) λ _. refl

    checked-ok :
        (at : List Segment) (v : Json) (nested : Result (List Problem))
        → overflows v ≡ false
        → is_ok nested ≡ true
        → is_ok (checked re at v fs nested) ≡ true
    unfolding checked
    checked-ok at v nested small h =
        bind-ok (fits_type v (member "type" fs)) _
          (fits_type-ok path v (member "type" fs) small k.kind)
          λ fits. elim (Bool-cases fits) [
            | inl good ↦ rw good (bind-ok _ _ (own-ok at v small) λ _. bind-ok _ _ h λ _. refl)
            | inr bad ↦ rw bad refl
          ]

    -- The schema that governs a member is accepted, where there is one.
    rule-IsAccepted : (key : String) (s : Json) → rule_for key fs ≡ under s → IsAccepted re s
    unfolding rule_for
    rule-IsAccepted key s h = elim (Option-cases (property_of key (member "properties" fs))) [
      | inl absent ↦
          let (gs, present, same) =
            extra_rule-eq-under (member "additionalProperties" fs) s (ground (arith, absent)) in
          subst (IsAccepted re) same (extra-IsAccepted re path fs gs k.extra present)
      | inr (child, found) ↦
          let (ps, present, at_key) =
            property_of-eq-some key (member "properties" fs) child found in
          property-IsAccepted re path fs ps key s k.children present (ground (arith, found, at_key))
    ]

  -- What a member's rule makes of it.
  abbrev ruled : List Segment → String → Json → Rule → Result (List Problem)
  ruled at key v r = elim r [
    | free ↦ ok []
    | forbidden ↦ ok (complain at (unexpected_property key))
    | under s ↦ instance_errors re (name key ∷ at) v s
  ]

  under_object :
      (P : Json → Type 0) (s : Json)
      → IsAccepted re s
      → ((path : List Segment) (fs : Fields) → Keywords re path fs → P (object fs))
      → P s
  unfolding schema_errors
  under_object P (object fs) (path, a) h = h path fs (Keywords-of re path fs a)
  under_object P s (path, a) h = absurd (cc)

  rule-ok :
      (at : List Segment) (key : String) (v : Json) (path : List Segment) (fs : Fields)
      → Keywords re path fs
      → ((t : Json) → IsAccepted re t → is_ok (instance_errors re (name key ∷ at) v t) ≡ true)
      → is_ok (ruled at key v (rule_for key fs)) ≡ true
  rule-ok at key v path fs k ih = go (rule_for key fs) refl
    where
      go : (r : Rule) → rule_for key fs ≡ r → is_ok (ruled at key v r) ≡ true
      go free e = refl
      go forbidden e = refl
      go (under t) e = ih t (rule-IsAccepted path fs k key t e)

  mutual
    unfolding instance_errors any_overflow overflows

    instance-ok :
        (v : Json) (at : List Segment) (s : Json)
        → any_overflow v ≡ false
        → IsAccepted re s
        → is_ok (instance_errors re at v s) ≡ true
    instance-ok (array xs) at s small a =
        under_object (λ t. is_ok (instance_errors re at (array xs) t) ≡ true) s a
          λ path fs k. checked-ok path fs k at (array xs) _ refl (
            items-ok xs at 0 (member "items" fs) small
              (λ t. items-IsAccepted re path fs t k.element))
    instance-ok (object ms) at s small a =
        under_object (λ t. is_ok (instance_errors re at (object ms) t) ≡ true) s a
          λ path fs k.
            checked-ok path fs k at (object ms) (member_errors re at ms fs) refl
              (members-ok ms at path fs small k)
    instance-ok v at s small a =
        under_object (λ t. is_ok (instance_errors re at v t) ≡ true) s a
          λ path fs k. checked-ok path fs k at v (ok []) small refl

    items-ok :
        (xs : Items) (at : List Segment) (i : ℕ) (o : Option Json)
        → overflow_in_items xs ≡ false
        → ((s : Json) → o ≡ some s → IsAccepted re s)
        → is_ok (item_errors re at i xs o) ≡ true
    items-ok nil at i o small h = refl
    items-ok (cons v xs) at i none small h = refl
    items-ok (cons v xs) at i (some s) small h =
        bind-ok _ _ (instance-ok v (index i ∷ at) s (ground (arith, small)) (h s refl))
          λ _. bind-ok _ _ (items-ok xs at (suc i) (some s) (or-eq-false _ _ small).1 h) λ _. refl

    members-ok :
        (ms : Fields) (at path : List Segment) (fs : Fields)
        → overflow_in_fields ms ≡ false
        → Keywords re path fs
        → is_ok (member_errors re at ms fs) ≡ true
    members-ok end at path fs small k = refl
    members-ok (field key v rest) at path fs small k =
        bind-ok _ _
          (rule-ok at key v path fs k
            (λ t a. instance-ok v (name key ∷ at) t (or-eq-false _ _ small).0 a))
          λ _. bind-ok _ _ (members-ok rest at path fs (or-eq-false _ _ small).1 k) λ _. refl
