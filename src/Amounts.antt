-- ===== src/Amounts.antt =====
-- The amounts of src/industrial_agent_runtime: the `int` and `float` values of a quota, a usage or a
-- draw, which Python adds, subtracts and tests for finiteness. An amount is a number of quanta, the
-- unit of Json.antt. Integers are added exactly; a sum or a difference with a float is the double
-- nearest to the exact one, ties to even, and an integer in it becomes the double nearest to it. A
-- float with a whole value is taken for the integer of that value: the two differ only where a sum of
-- whole floats reaches 2 ^ 53.
pub mod Whole
use Prim.Native.Nat.{◌/◌, ◌%◌}
use industrial_agent_runtime.Prelude.{
  ℕ, zero, suc, ◌+◌, ◌-◌, ◌*◌, ◌^◌, Bool, true, false, not, ◌&&◌, ◌||◌, ℤ, pos, negsuc, diff, ltb,
  eqb, if◌then◌else◌,
}
use industrial_agent_runtime.Json.{
  Json, int, array, object, Items, nil, cons, Fields, end, field, unit,
}
use industrial_agent_runtime.Decisions.{Result, ok, err, Error, overflow_error}

unfoldable pub is_whole : ℕ → Bool
unfolding unit
is_whole a = eqb (a % unit) 0

-- The distance of the doubles about a number of quanta: the least power of two of which 2 ^ 53
-- exceed it.
unfoldable pub spacing : (fuel : ℕ) → ℕ → ℕ → ℕ
spacing zero s a = s
spacing (suc n) s a = elim (ltb a (s * 2 ^ 53)) [ true ↦ s | false ↦ spacing n (2 * s) a ]

unfoldable pub nearest : ℕ → ℕ → ℕ
nearest s a =
    let below = a / s in
    let twice = 2 * (a % s) in
    if ltb twice s
    then below * s
    else if ltb s twice
    then (below + 1) * s
    else if eqb (below % 2) 0
    then below * s
    else (below + 1) * s

-- The nearest double. The sum of two doubles has less than 2100 bits.
unfoldable pub rounded : ℕ → ℕ
unfolding spacing nearest
rounded a = nearest (spacing 2100 1 a) a

-- `a + b`
unfoldable pub sum : ℕ → ℕ → ℕ
unfolding is_whole rounded
sum a b = if is_whole a && is_whole b then a + b else rounded (rounded a + rounded b)

-- `a - b`
unfoldable pub difference : ℕ → ℕ → ℤ
unfolding is_whole rounded diff
difference a b =
    if is_whole a && is_whole b
    then diff a b
    else diff (rounded (rounded a - rounded b)) (rounded (rounded b - rounded a))

-- The least integer that `math.isfinite` cannot turn into a double.
unfoldable pub float_limit : ℕ
float_limit = 2 ^ 1024 - 2 ^ 970

-- `math.isfinite` raises an OverflowError for such an integer.
unfoldable pub overflows : Json → Bool
unfolding float_limit
overflows (int (pos n)) = not (ltb n float_limit)
overflows (int (negsuc n)) = not (ltb (suc n) float_limit)
overflows _ = false

-- The call of `math.isfinite` in `_is_number` of schema.py and `_finite` of gates.py, whose answer
-- `number_of` and `finite_amount` give.
unfoldable pub check_finite : Json → Result (Unit {0})
unfolding overflows
check_finite v = if overflows v then err overflow_error else ok tt

-- Whether a value holds such an integer at some depth.
unfoldable mutual
  unfolding overflows

  pub any_overflow : Json → Bool
  any_overflow (array xs) = overflow_in_items xs
  any_overflow (object fs) = overflow_in_fields fs
  any_overflow v = overflows v

  pub overflow_in_items : Items → Bool
  overflow_in_items nil = false
  overflow_in_items (cons v xs) = any_overflow v || overflow_in_items xs

  pub overflow_in_fields : Fields → Bool
  overflow_in_fields end = false
  overflow_in_fields (field key v rest) = any_overflow v || overflow_in_fields rest
