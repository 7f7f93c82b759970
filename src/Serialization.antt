-- ===== src/Serialization.antt =====
-- src/industrial_agent_runtime/serialization.py: `to_jsonable` and `freeze_json` on Python's values.
pub mod Frozen
use industrial_agent_runtime.Prelude.{ℕ, zero, suc, String, Bool, true, false, ℤ}
use industrial_agent_runtime.Json.{
  Json, null, boolean, int, float, string, array, object, Items, nil, cons, Fields, end, field,
}
use industrial_agent_runtime.Decisions.{Result, ok, err, type_error, raised, ◌>>=◌, ◌>>◌, refuse_if}

-- A mapping's key: a string, or another value.
pub data Key : Type 0 where
  named : String → Key
  other_key : Key

-- A dict and a list can be written to; a MappingProxyType and a tuple are read only.
pub data Access : Type 0 where
  writable read_only : Access

mutual
  -- The values that the tests of `to_jsonable` tell apart; `opaque_value` is any other object.
  pub data Value : Type 0 where
    none_value : Value
    truth : Bool → Value
    integer : ℤ → Value
    finite : (quanta : ℤ) → Value
    non_finite : Value
    text_value : String → Value
    enumeration : Value → Value
    dataclass : Attributes → Value
    mapping : Access → Entries → Value
    sequence : Access → Elements → Value
    opaque_value : Value

  pub data Attributes : Type 0 where
    no_attribute : Attributes
    attribute : String → Value → Attributes → Attributes

  pub data Entries : Type 0 where
    no_entry : Entries
    entry : Key → Value → Entries → Entries

  pub data Elements : Type 0 where
    no_element : Elements
    element : Value → Elements → Elements

-- `any(not isinstance(key, str) for key in value)`
unfoldable pub any_unnamed : Entries → Bool
any_unnamed no_entry = false
any_unnamed (entry (named k) v es) = any_unnamed es
any_unnamed (entry other_key v es) = true

unfoldable mutual
  unfolding any_unnamed

  pub to_jsonable : Value → Result Json
  to_jsonable none_value = ok null
  to_jsonable (truth b) = ok (boolean b)
  to_jsonable (integer z) = ok (int z)
  to_jsonable (finite q) = ok (float q)
  to_jsonable non_finite = err type_error
  to_jsonable (text_value s) = ok (string s)
  to_jsonable (enumeration v) = to_jsonable v
  to_jsonable (dataclass members) = attributes_jsonable members >>= λ fs. ok (object fs)
  to_jsonable (mapping access es) =
      refuse_if (any_unnamed es) type_error >> (entries_jsonable es >>= λ fs. ok (object fs))
  to_jsonable (sequence access vs) = elements_jsonable vs >>= λ xs. ok (array xs)
  to_jsonable opaque_value = err type_error

  pub attributes_jsonable : Attributes → Result Fields
  attributes_jsonable no_attribute = ok end
  attributes_jsonable (attribute name v members) =
      to_jsonable v >>= λ j. (attributes_jsonable members >>= λ fs. ok (field name j fs))

  pub entries_jsonable : Entries → Result Fields
  entries_jsonable no_entry = ok end
  entries_jsonable (entry (named k) v es) =
      to_jsonable v >>= λ j. (entries_jsonable es >>= λ fs. ok (field k j fs))
  entries_jsonable (entry other_key v es) = err type_error

  pub elements_jsonable : Elements → Result Items
  elements_jsonable no_element = ok nil
  elements_jsonable (element v vs) =
      to_jsonable v >>= λ j. (elements_jsonable vs >>= λ xs. ok (cons j xs))

-- What `to_jsonable` returns, as a value again: its dicts and lists are writable.
unfoldable mutual
  pub plain : Json → Value
  plain null = none_value
  plain (boolean b) = truth b
  plain (int z) = integer z
  plain (float q) = finite q
  plain (string s) = text_value s
  plain (array xs) = sequence writable (plain_items xs)
  plain (object fs) = mapping writable (plain_fields fs)

  pub plain_items : Items → Elements
  plain_items nil = no_element
  plain_items (cons j xs) = element (plain j) (plain_items xs)

  pub plain_fields : Fields → Entries
  plain_fields end = no_entry
  plain_fields (field k j fs) = entry (named k) (plain j) (plain_fields fs)

-- The branches of `freeze_json` on the clean value, with its call on the parts.
module _ (freeze : Value → Result Value) where
  unfoldable pub freeze_items : Items → Result Elements
  unfolding plain
  freeze_items nil = ok no_element
  freeze_items (cons j xs) = do v ← freeze (plain j); vs ← freeze_items xs; ok (element v vs)

  unfoldable pub freeze_fields : Fields → Result Entries
  unfolding plain
  freeze_fields end = ok no_entry
  freeze_fields (field k j fs) = do
    v ← freeze (plain j)
    es ← freeze_fields fs
    ok (entry (named k) v es)

  unfoldable pub freeze_clean : Json → Result Value
  unfolding plain freeze_items freeze_fields
  freeze_clean (object fs) = freeze_fields fs >>= λ es. ok (mapping read_only es)
  freeze_clean (array xs) = freeze_items xs >>= λ vs. ok (sequence read_only vs)
  freeze_clean j = ok (plain j)

-- `freeze_json`, to a bound on the depth of its calls, behind which Python raises a RecursionError.
unfoldable pub freeze_json : (bound : ℕ) → Value → Result Value
unfolding freeze_clean
freeze_json zero v = err (raised "RecursionError")
freeze_json (suc n) v = to_jsonable v >>= freeze_clean (freeze_json n)
