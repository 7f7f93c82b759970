-- ===== src/Schema/Guards.antt =====
-- The keywords of a schema that `schema_errors` accepts, and the steps of `instance_errors` in
-- src/industrial_agent_runtime/schema.py that read them.
use industrial_agent_runtime.Prelude.{
  String, ◌==◌, ◌≡◌, refl, sym, subst, Bool, true, false, Option, none, some, List, [], ◌∷◌, ℤ,
  contains, eq_iff, inl, inr, Bool-cases, arith, false≢true,
}
use industrial_agent_runtime.Json.{
  Json, null, boolean, int, float, string, array, object, Items, nil, cons, Fields, member,
  is_number,
}
use industrial_agent_runtime.Amounts.{overflows, check_finite}
use industrial_agent_runtime.Decisions.{Result, ok, err, ◌>>=◌}
use industrial_agent_runtime.Schema.{
  Segment, Complaint, type_errors, any_invalid, required_errors, enum_errors, bound_errors,
  length_errors, is_count,
}
use industrial_agent_runtime.Schema.Instance.{
  any_match, fits_type, choice_errors, limit_errors, absent_errors, under, property_of, extra_rule,
}
use industrial_agent_runtime.Schema.Accepted.{append-eq-nil}

abbrev pub is_ok {ℓ} : {A : Type ℓ} → Result A → Bool
is_ok (ok a) = true
is_ok (err e) = false

pub bind-ok {ℓ κ} :
    {A : Type ℓ} {B : Type κ} (m : Result A) (f : A → Result B)
    → is_ok m ≡ true
    → ((a : A) → is_ok (f a) ≡ true)
    → is_ok (m >>= f) ≡ true
bind-ok (ok a) f h k = k a
bind-ok (err e) f h k = h

pub any_match-ok :
    (v : Json) (ks : Items)
    → overflows v ≡ false
    → any_invalid ks ≡ ok false
    → is_ok (any_match v ks) ≡ true
unfolding any_invalid any_match check_finite
any_match-ok v nil small h = refl
any_match-ok v (cons (string s) ks) small h = ground (arith, small, any_match-ok v ks small)
any_match-ok v (cons k ks) small h = absurd (ground arith)

pub fits_type-ok :
    (path : List Segment) (v : Json) (kind : Option Json)
    → overflows v ≡ false
    → type_errors path kind ≡ ok []
    → is_ok (fits_type v kind) ≡ true
unfolding type_errors fits_type
fits_type-ok path v none small h = refl
fits_type-ok path v (some null) small h = refl
fits_type-ok path v (some (array nil)) small h = absurd (cc)
fits_type-ok path v (some (array (cons k ks))) small h =
    any_match-ok v (cons k ks) small (ground arith)
fits_type-ok path v (some kind) small h = any_match-ok v (cons kind nil) small (ground arith)

pub choice-ok :
    (path at : List Segment) (v : Json) (o : Option Json)
    → enum_errors path o ≡ []
    → is_ok (choice_errors at v o) ≡ true
unfolding enum_errors choice_errors
choice-ok path at v none h = refl
choice-ok path at v (some (array xs)) h = refl
choice-ok path at v (some w) h = absurd (cc)

pub limit-ok :
    (path : List Segment) (o : Option Json) (crossed : ℤ → Bool) (c : Complaint)
    → ((v : Json) → o ≡ some v → is_number v ≡ true)
    → is_ok (limit_errors path o crossed c) ≡ true
unfolding limit_errors is_number
limit-ok path none crossed c h = refl
limit-ok path (some (int z)) crossed c h = refl
limit-ok path (some (float q)) crossed c h = refl
limit-ok path (some v) crossed c h = absurd (false≢true (h v refl))

pub bound_at :
    (path : List Segment) (fs : Fields) (ks : List String) (key : String)
    → bound_errors path fs ks ≡ []
    → contains key ks ≡ true
    → (v : Json) → member key fs ≡ some v
    → is_number v ≡ true
unfolding bound_errors contains
bound_at path fs [] key h m v e = absurd (cc)
bound_at path fs (k ∷ ks) key h m v e =
    let (first, others) = append-eq-nil _ (bound_errors path fs ks) h in
    elim (Bool-cases (k == key)) [
      | inl same ↦
          let at_key = subst (λ j. member j fs ≡ some v) (sym ((eq_iff k key).0 same)) e in
          ground (arith, first, at_key)
      | inr differs ↦ bound_at path fs ks key others (ground arith) v e
    ]

pub count-is_number : (v : Json) → is_count v ≡ true → is_number v ≡ true
unfolding is_count is_number
count-is_number (int z) h = refl
count-is_number (float q) h = refl
count-is_number v h = absurd (false≢true h)

pub length_at :
    (path : List Segment) (fs : Fields) (ks : List String) (key : String)
    → length_errors path fs ks ≡ []
    → contains key ks ≡ true
    → (v : Json) → member key fs ≡ some v
    → is_number v ≡ true
unfolding length_errors contains
length_at path fs [] key h m v e = absurd (cc)
length_at path fs (k ∷ ks) key h m v e =
    let (first, others) = append-eq-nil _ (length_errors path fs ks) h in
    elim (Bool-cases (k == key)) [
      | inl same ↦
          let at_key = subst (λ j. member j fs ≡ some v) (sym ((eq_iff k key).0 same)) e in
          count-is_number v (ground (arith, first, at_key))
      | inr differs ↦ length_at path fs ks key others (ground arith) v e
    ]

pub absent-ok :
    (path at : List Segment) (ms : Fields) (o : Option Json)
    → required_errors path o ≡ []
    → is_ok (absent_errors at ms o) ≡ true
unfolding required_errors absent_errors
absent-ok path at ms none h = refl
absent-ok path at ms (some (array xs)) h = refl
absent-ok path at ms (some v) h = absurd (cc)

pub property_of-eq-some :
    (key : String) (p : Option Json) (s : Json)
    → property_of key p ≡ some s
    → (ps : Fields) × (p ≡ some (object ps)) × (member key ps ≡ some s)
unfolding property_of
property_of-eq-some key none s h = absurd (cc)
property_of-eq-some key (some (object ps)) s h = (ps, refl, h)
property_of-eq-some key (some v) s h = absurd (cc)

pub extra_rule-eq-under :
    (e : Option Json) (s : Json)
    → extra_rule e ≡ under s
    → (gs : Fields) × (e ≡ some (object gs)) × (object gs ≡ s)
unfolding extra_rule
extra_rule-eq-under none s h = absurd (cc)
extra_rule-eq-under (some (object gs)) s h = (gs, refl, cc)
extra_rule-eq-under (some (boolean true)) s h = absurd (cc)
extra_rule-eq-under (some (boolean false)) s h = absurd (cc)
extra_rule-eq-under (some v) s h = absurd (cc)
