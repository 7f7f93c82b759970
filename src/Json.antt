-- ===== src/Json.antt =====
-- The JSON values of src/industrial_agent_runtime/serialization.py: what `freeze_json` leaves, a tree
-- of primitives, sequences and mappings with string keys. A float is finite there. It is written as
-- a number of quanta, each 2 ^ -1074, the least positive double: every finite double is a whole
-- number of them, so that equality and order between integers and floats are exact.
pub mod Equality
use industrial_agent_runtime.Prelude.{
  ℕ, zero, suc, ◌*◌, ◌^◌, String, ◌==◌, Bool, true, false, Option, none, some, ℤ, pos, negsuc,
  if◌then◌else◌, is_some,
}

mutual
  pub data Json : Type 0 where
    null : Json
    boolean : Bool → Json
    int : ℤ → Json
    float : (quanta : ℤ) → Json
    string : String → Json
    array : Items → Json
    object : Fields → Json

  pub data Items : Type 0 where
    nil : Items
    cons : Json → Items → Items

  pub data Fields : Type 0 where
    end : Fields
    field : String → Json → Fields → Fields

-- The quanta in one unit.
unfoldable pub unit : ℕ
unit = 2 ^ 1074

unfoldable pub units : ℕ → ℕ
units n = n * unit

unfoldable pub scale : ℤ → ℤ
unfolding units
scale (pos n) = pos (units n)
scale (negsuc n) = elim (units (suc n)) [ zero ↦ pos zero | suc k ↦ negsuc k ]

-- `mapping.get(key)`, and `key in mapping`
unfoldable pub member : String → Fields → Option Json
member k end = none
member k (field j v rest) = if j == k then some v else member k rest

unfoldable pub has_member : String → Fields → Bool
unfolding member
has_member k fs = is_some (member k fs)

-- The value of an `int` or a `float`, `type(value) in (int, float)`; a `bool` has none.
unfoldable pub number_of : Json → Option ℤ
unfolding scale
number_of (int z) = some (scale z)
number_of (float q) = some q
number_of _ = none

-- The answer of `_is_number` of src/industrial_agent_runtime/schema.py, where it does not raise
-- (Amounts.antt).
unfoldable pub is_number : Json → Bool
unfolding number_of
is_number v = is_some (number_of v)

-- The answer of `_finite` of gates.py where it does not raise, with the amount that passes it:
-- nonnegative, in quanta.
unfoldable pub finite_amount : Json → Option ℕ
unfolding number_of
finite_amount v = elim (number_of v) [ none ↦ none | some z ↦ nonnegative z ]
  where
    nonnegative : ℤ → Option ℕ
    nonnegative (pos n) = some n
    nonnegative (negsuc n) = none
