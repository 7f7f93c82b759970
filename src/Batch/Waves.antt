-- ===== src/Batch/Waves.antt =====
-- The cycle check of `_validate_batch` in src/industrial_agent_runtime/coordinator.py: items leave
-- `pending` in waves, each when all its dependencies are visited.
pub mod Ranked
use industrial_agent_runtime.Prelude.{
  ℕ, zero, suc, String, Bool, true, false, List, [], ◌∷◌, ◌++◌, subset, if◌then◌else◌,
}

module _ (deps : String → List String) where
  -- The keys of `pending` whose dependencies are visited.
  unfoldable pub ready : (visited pending : List String) → List String
  ready visited [] = []
  ready visited (k ∷ ks) =
      let rest = ready visited ks in if subset (deps k) visited then k ∷ rest else rest

  unfoldable pub waiting : (visited pending : List String) → List String
  waiting visited [] = []
  waiting visited (k ∷ ks) =
      let rest = waiting visited ks in if subset (deps k) visited then rest else k ∷ rest

  -- `while pending`, with `true` for the exception. A wave without a key ends the loop, so a bound of
  -- one round for each key is enough.
  unfoldable pub is_cyclic : (bound : ℕ) → (visited pending : List String) → Bool
  is_cyclic bound visited [] = false
  is_cyclic zero visited (k ∷ ks) = true
  is_cyclic (suc bound) visited (k ∷ ks) = elim (ready visited (k ∷ ks)) [
    | [] ↦ true
    | r ∷ rs ↦ is_cyclic bound (visited ++ ready visited (k ∷ ks)) (waiting visited (k ∷ ks))
  ]
