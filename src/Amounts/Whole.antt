-- ===== src/Amounts/Whole.antt =====
-- Whole amounts, the integers of src/industrial_agent_runtime, are added and subtracted exactly.
use native.Mathlib.Nat.{add-mod, add-mul-mod_self_right}
use industrial_agent_runtime.Prelude.{ℕ, ◌+◌, ◌≡◌, refl, true, diff, arith}
use industrial_agent_runtime.Json.{units, unit}
use industrial_agent_runtime.Amounts.{is_whole, sum, difference}

pub sum-whole : (a b : ℕ) → is_whole a ≡ true → is_whole b ≡ true → sum a b ≡ a + b
unfolding sum
sum-whole a b h k = ground (arith, h, k)

pub difference-whole : (a b : ℕ) → is_whole a ≡ true → is_whole b ≡ true → difference a b ≡ diff a b
unfolding difference
difference-whole a b h k = ground (arith, h, k)

pub is_whole-add : (a b : ℕ) → is_whole a ≡ true → is_whole b ≡ true → is_whole (a + b) ≡ true
unfolding is_whole
is_whole-add a b h k = ground (arith, add-mod a b unit, h, k)

pub is_whole-zero : is_whole 0 ≡ true
unfolding is_whole unit
is_whole-zero = refl

pub is_whole-units : (n : ℕ) → is_whole (units n) ≡ true
unfolding is_whole units
is_whole-units n = ground (arith, add-mul-mod_self_right 0 n unit)
