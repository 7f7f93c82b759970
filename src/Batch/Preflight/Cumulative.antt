-- ===== src/Batch/Preflight/Cumulative.antt =====
-- What the reservations of a batch that passed `_validate_batch` sum up to
-- (src/industrial_agent_runtime/coordinator.py).
use industrial_agent_runtime.Prelude.{ℕ, ◌+◌, String, ◌≡◌, Bool, true, ◌&&◌, [], ◌∷◌, Dict, IsDict}
use industrial_agent_runtime.Gates.Budget.{used}
use industrial_agent_runtime.Accounting.Spending.{total, whole_at}
use industrial_agent_runtime.Batch.Preflight.{Sized, Preflight}

-- The sum of a dimension over the reservations of the items.
abbrev pub batch_total : Dict Sized → String → ℕ
batch_total [] n = 0
batch_total ((k, s) ∷ sized) n = total s.reservation.draw n + batch_total sized n

-- Whether all reservations of the items for a dimension are whole.
abbrev pub batch_whole : Dict Sized → String → Bool
batch_whole [] n = true
batch_whole ((k, s) ∷ sized) n = whole_at s.reservation.draw n && batch_whole sized n

-- The reserved amounts are the sums over the items that the loop has sized, where those are whole.
record IsSummed (p : Preflight) : Type 0 where
  once : IsDict p.reserved
  sums : (n : String) → batch_whole p.sized n ≡ true → used p.reserved n ≡ batch_total p.sized n
