-- ===== src/Json/Equality.antt =====
-- Equality of JSON values: Python's `==`, by which True, 1 and 1.0 are equal, and `_equal` of
-- src/industrial_agent_runtime/schema.py, by which a boolean is no number.
use industrial_agent_runtime.Prelude.{
  ℕ, suc, ◌==◌, Bool, true, false, ◌&&◌, Option, none, some, ℤ, pos, eqb, eqb_ℤ,
}
use industrial_agent_runtime.Json.{
  Json, null, boolean, string, array, object, Items, nil, cons, Fields, end, field, number_of,
  units, member,
}

abbrev pub eqb_bool : Bool → Bool → Bool
eqb_bool true b = b
eqb_bool false true = false
eqb_bool false false = true

-- A number or a boolean as Python compares it.
abbrev pub numeric : Json → Option ℤ
numeric (boolean true) = some (pos (units 1))
numeric (boolean false) = some (pos 0)
numeric v = number_of v

abbrev pub eqb_number : Option ℤ → Option ℤ → Bool
eqb_number (some a) (some b) = eqb_ℤ a b
eqb_number _ _ = false

unfoldable pub count_fields : Fields → ℕ
count_fields end = 0
count_fields (field k v fs) = suc (count_fields fs)

-- Python's `==`.
unfoldable mutual
  pub py_eq : Json → Json → Bool
  py_eq null null = true
  py_eq (string s) (string t) = s == t
  py_eq (array xs) (array ys) = items_eq xs ys
  py_eq (object fs) (object gs) = eqb (count_fields fs) (count_fields gs) && fields_eq fs gs
  py_eq v w = eqb_number (numeric v) (numeric w)

  pub items_eq : Items → Items → Bool
  items_eq nil nil = true
  items_eq (cons v xs) (cons w ys) = py_eq v w && items_eq xs ys
  items_eq _ _ = false

  pub fields_eq : Fields → Fields → Bool
  fields_eq end gs = true
  fields_eq (field k v fs) gs = elim (member k gs) [
    | none ↦ false
    | some w ↦ py_eq v w && fields_eq fs gs
  ]

-- `_equal` of schema.py.
unfoldable mutual
  pub json_equal : Json → Json → Bool
  json_equal (boolean a) (boolean b) = eqb_bool a b
  json_equal (boolean a) w = false
  json_equal (array xs) (array ys) = items_equal xs ys
  json_equal (object fs) (object gs) = eqb (count_fields fs) (count_fields gs) && fields_equal fs gs
  json_equal v (boolean b) = false
  json_equal v w = py_eq v w

  pub items_equal : Items → Items → Bool
  items_equal nil nil = true
  items_equal (cons v xs) (cons w ys) = json_equal v w && items_equal xs ys
  items_equal _ _ = false

  pub fields_equal : Fields → Fields → Bool
  fields_equal end gs = true
  fields_equal (field k v fs) gs = elim (member k gs) [
    | none ↦ false
    | some w ↦ json_equal v w && fields_equal fs gs
  ]
