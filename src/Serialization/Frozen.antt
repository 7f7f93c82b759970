-- ===== src/Serialization/Frozen.antt =====
-- What freezing keeps (src/industrial_agent_runtime/serialization.py).
use industrial_agent_runtime.Prelude.{
  ℕ, zero, suc, ◌+◌, ◌≤◌, ◌≡◌, refl, Bool, true, false, ◌&&◌, arith,
}
use industrial_agent_runtime.Json.{
  Json, null, boolean, int, float, string, array, object, Items, nil, cons, Fields, end, field,
}
use industrial_agent_runtime.Decisions.{Result, ok}
use industrial_agent_runtime.Serialization.{
  Value, none_value, truth, integer, finite, text_value, mapping, sequence, read_only, Entries,
  no_entry, entry, named, Elements, no_element, element, any_unnamed, to_jsonable, entries_jsonable,
  elements_jsonable, plain, plain_items, plain_fields, freeze_items, freeze_fields, freeze_clean,
  freeze_json,
}

-- No part of the value can be written to.
unfoldable mutual
  pub is_frozen : Value → Bool
  is_frozen (mapping read_only es) = are_entries_frozen es
  is_frozen (sequence read_only vs) = are_elements_frozen vs
  is_frozen none_value = true
  is_frozen (truth b) = true
  is_frozen (integer z) = true
  is_frozen (finite q) = true
  is_frozen (text_value s) = true
  is_frozen _ = false

  are_entries_frozen : Entries → Bool
  are_entries_frozen no_entry = true
  are_entries_frozen (entry k v es) = is_frozen v && are_entries_frozen es

  are_elements_frozen : Elements → Bool
  are_elements_frozen no_element = true
  are_elements_frozen (element v vs) = is_frozen v && are_elements_frozen vs

-- The parts of a JSON value, which bound its depth.
unfoldable mutual
  pub size : Json → ℕ
  size (array xs) = suc (items_size xs)
  size (object fs) = suc (fields_size fs)
  size j = 1

  items_size : Items → ℕ
  items_size nil = 0
  items_size (cons j xs) = size j + items_size xs

  fields_size : Fields → ℕ
  fields_size end = 0
  fields_size (field k j fs) = size j + fields_size fs

any_unnamed-plain_fields : (fs : Fields) → any_unnamed (plain_fields fs) ≡ false
unfolding any_unnamed plain_fields
any_unnamed-plain_fields end = refl
any_unnamed-plain_fields (field k j fs) = any_unnamed-plain_fields fs

mutual
  unfolding to_jsonable plain

  to_jsonable-plain : (j : Json) → to_jsonable (plain j) ≡ ok j
  to_jsonable-plain null = refl
  to_jsonable-plain (boolean b) = refl
  to_jsonable-plain (int z) = refl
  to_jsonable-plain (float q) = refl
  to_jsonable-plain (string s) = refl
  to_jsonable-plain (array xs) = rw (elements-plain_items xs)
  to_jsonable-plain (object fs) = rw (any_unnamed-plain_fields fs) (rw (entries-plain_fields fs))

  elements-plain_items : (xs : Items) → elements_jsonable (plain_items xs) ≡ ok xs
  elements-plain_items nil = refl
  elements-plain_items (cons j xs) = rw (to_jsonable-plain j) (rw (elements-plain_items xs))

  entries-plain_fields : (fs : Fields) → entries_jsonable (plain_fields fs) ≡ ok fs
  entries-plain_fields end = refl
  entries-plain_fields (field k j fs) = rw (to_jsonable-plain j) (rw (entries-plain_fields fs))

-- A frozen copy of a clean value.
record IsCopy (r : Result Value) (j : Json) (frozen : Value) : Type 0 where
  returned : r ≡ ok frozen
  locked : is_frozen frozen ≡ true
  kept : to_jsonable frozen ≡ ok j

leaf-IsCopy :
    (n : ℕ) (v : Value) (j : Json)
    → to_jsonable v ≡ ok j
    → freeze_clean (freeze_json n) j ≡ ok (plain j)
    → is_frozen (plain j) ≡ true
    → IsCopy (freeze_json (suc n) v) j (plain j)
unfolding freeze_json
leaf-IsCopy n v j h own locked = record {
  returned = rw h own;
  locked = locked;
  kept = to_jsonable-plain j;
}

mutual
  unfolding freeze_json to_jsonable is_frozen size any_unnamed

  copied :
      (j : Json) (n : ℕ) (v : Value)
      → to_jsonable v ≡ ok j
      → size j ≤ n
      → (frozen : Value) × IsCopy (freeze_json n v) j frozen
  copied (array xs) zero v h fits = absurd (omega (arith, fits))
  copied (array xs) (suc n) v h fits =
      let (vs, ran, locked, kept) = copied_items xs n (omega (arith, fits)) in
      (sequence read_only vs, record { returned = rw h (rw ran); locked = locked; kept = rw kept })
  copied (object fs) zero v h fits = absurd (omega (arith, fits))
  copied (object fs) (suc n) v h fits =
      let (es, ran, locked, kept, strings) = copied_fields fs n (omega (arith, fits)) in
      (
        mapping read_only es,
        record { returned = rw h (rw ran); locked = locked; kept = rw strings (rw kept) },
      )
  copied j zero v h fits = absurd (omega (arith, fits))
  copied null (suc n) v h fits = (_, leaf-IsCopy n v null h refl refl)
  copied (boolean b) (suc n) v h fits = (_, leaf-IsCopy n v (boolean b) h refl refl)
  copied (int z) (suc n) v h fits = (_, leaf-IsCopy n v (int z) h refl refl)
  copied (float q) (suc n) v h fits = (_, leaf-IsCopy n v (float q) h refl refl)
  copied (string s) (suc n) v h fits = (_, leaf-IsCopy n v (string s) h refl refl)

  copied_items :
      (xs : Items) (n : ℕ)
      → items_size xs ≤ n
      → (vs : Elements) × (freeze_items (freeze_json n) xs ≡ ok vs)
        × (are_elements_frozen vs ≡ true)
        × (elements_jsonable vs ≡ ok xs)
  copied_items nil n fits = (no_element, refl, refl, refl)
  copied_items (cons j xs) n fits =
      let (v, c) = copied j n (plain j) (to_jsonable-plain j) (omega (arith, fits)) in
      let (vs, ran, locked, kept) = copied_items xs n (omega (arith, fits)) in
      (element v vs, rw c.returned (rw ran), ground (arith, c.locked, locked), rw c.kept (rw kept))

  copied_fields :
      (fs : Fields) (n : ℕ)
      → fields_size fs ≤ n
      → (es : Entries) × (freeze_fields (freeze_json n) fs ≡ ok es)
        × (are_entries_frozen es ≡ true)
        × (entries_jsonable es ≡ ok fs)
        × (any_unnamed es ≡ false)
  copied_fields end n fits = (no_entry, refl, refl, refl, refl)
  copied_fields (field k j fs) n fits =
      let (v, c) = copied j n (plain j) (to_jsonable-plain j) (omega (arith, fits)) in
      let (es, ran, locked, kept, strings) = copied_fields fs n (omega (arith, fits)) in
      (
        entry (named k) v es,
        rw c.returned (rw ran),
        ground (arith, c.locked, locked),
        rw c.kept (rw kept),
        strings,
      )

-- A value with a JSON form is frozen, where the bound is at least the number of its parts: the copy has
-- the same JSON form, and every mapping and sequence in it, at any depth, is read only.
pub freeze_json-IsFrozen :
    (v : Value) (j : Json) (n : ℕ)
    → to_jsonable v ≡ ok j
    → size j ≤ n
    → (frozen : Value) × (freeze_json n v ≡ ok frozen)
      × (is_frozen frozen ≡ true)
      × (to_jsonable frozen ≡ ok j)
freeze_json-IsFrozen v j n h fits =
    let (frozen, c) = copied j n v h fits in (frozen, c.returned, c.locked, c.kept)
