-- ===== src/Refs.antt =====
-- Information references inside JSON: the constructor of `InformationRef` applied to an envelope
-- (contracts.py), and `ref_envelopes` of gates.py.
use industrial_agent_runtime.Prelude.{
  String, ◌==◌, true, false, Option, none, some, List, [], ◌∷◌, ◌++◌, subset, if◌then◌else◌,
}
use industrial_agent_runtime.Json.{
  Json, null, string, array, object, Items, nil, cons, Fields, end, field, member, has_member,
}
use industrial_agent_runtime.Contracts.{InformationRef, Visibility, agent, evaluator, internal}

abbrev pub ref_fields : List String
ref_fields = "ref_id" ∷ "kind" ∷ "owner" ∷ "version" ∷ "visibility" ∷ "created_at" ∷ "checksum" ∷ []

-- `set(envelope)`
unfoldable pub names : Fields → List String
names end = []
names (field key v rest) = key ∷ names rest

-- A nonempty string.
unfoldable pub text_of : Option Json → Option String
text_of (some (string s)) = if s == "" then none else some s
text_of _ = none

unfoldable pub visibility_of : Option Json → Option Visibility
visibility_of (some (string s)) =
    if s == "AGENT"
    then some agent
    else if s == "EVALUATOR"
    then some evaluator
    else if s == "INTERNAL"
    then some internal
    else none
visibility_of _ = none

-- The default of a field that may be left out.
abbrev pub or_null : Option Json → Json
or_null none = null
or_null (some v) = v

infixl 5 ◌>>=◌
abbrev ◌>>=◌ : {A B : Type 0} → Option A → (A → Option B) → Option B
none >>= f = none
some a >>= f = f a

-- `InformationRef(**envelope)` after the check of the field names. Every TypeError and ValueError of
-- the call, a missing field, a visibility that is none or an empty text, is `none`.
unfoldable pub parse_ref : Fields → Option InformationRef
unfolding names text_of visibility_of
parse_ref fs = elim (subset (names fs) ref_fields) [
  | false ↦ none
  | true ↦ do
    ref_id ← text_of (member "ref_id" fs)
    kind ← text_of (member "kind" fs)
    owner ← text_of (member "owner" fs)
    version ← text_of (member "version" fs)
    visibility ← visibility_of (member "visibility" fs)
    created_at ← text_of (member "created_at" fs)
    some (record {
      ref_id = ref_id;
      kind = kind;
      owner = owner;
      version = version;
      visibility = visibility;
      created_at = created_at;
      checksum = or_null (member "checksum" fs);
    })
]

-- Every mapping that claims to be a reference, the outer ones first.
unfoldable mutual
  pub ref_envelopes : Json → List Fields
  ref_envelopes (object fs) =
      (if has_member "ref_id" fs then fs ∷ [] else []) ++ fields_envelopes fs
  ref_envelopes (array xs) = items_envelopes xs
  ref_envelopes _ = []

  pub items_envelopes : Items → List Fields
  items_envelopes nil = []
  items_envelopes (cons v xs) = ref_envelopes v ++ items_envelopes xs

  pub fields_envelopes : Fields → List Fields
  fields_envelopes end = []
  fields_envelopes (field key v rest) = ref_envelopes v ++ fields_envelopes rest
