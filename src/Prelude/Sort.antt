-- ===== src/Prelude/Sort.antt =====
-- `sorted` on names, by code points as Python orders them. The theorems need that sorting keeps the names.
use Prim.Native.Nat.{Ordering}
use Prim.Native.String.{String, compare}
use mathlib.Core.Path.{◌≡◌, refl}
use mathlib.Core.Bool.{Bool, true, false, ◌||◌}
use mathlib.Core.List.{List, [], ◌∷◌}
use native.Mathlib.Omega.{arith}
use text.Mathlib.Text.{◌==◌}
use industrial_agent_runtime.Prelude.Tests.{if◌then◌else◌}
use industrial_agent_runtime.Prelude.Assoc.{contains}

abbrev leb_name : String → String → Bool
leb_name a b = elim (compare a b) [ Ordering.gt ↦ false | _ ↦ true ]

unfoldable pub place : String → List String → List String
place n [] = n ∷ []
place n (m ∷ ms) = if leb_name n m then n ∷ m ∷ ms else m ∷ place n ms

unfoldable pub sorted : List String → List String
unfolding place
sorted [] = []
sorted (n ∷ ns) = place n (sorted ns)

contains-place :
    (k n : String) (ms : List String) → contains k (place n ms) ≡ (n == k || contains k ms)
unfolding contains place
contains-place k n [] = refl
contains-place k n (m ∷ ms) = ground (arith, contains-place k n ms)

pub contains-sorted : (k : String) (ns : List String) → contains k (sorted ns) ≡ contains k ns
unfolding contains sorted
contains-sorted k [] = refl
contains-sorted k (n ∷ ns) = ground (arith, contains-place k n (sorted ns), contains-sorted k ns)
