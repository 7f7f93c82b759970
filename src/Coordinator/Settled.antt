-- ===== src/Coordinator/Settled.antt =====
-- The outcomes that `_batch` of src/industrial_agent_runtime/coordinator.py leaves.
mod Answers
mod Waves
use industrial_agent_runtime.Prelude.{
  ℕ, zero, suc, String, ◌==◌, ◌≡◌, refl, sym, ap, subst, true, false, ◌||◌, List, [], ◌∷◌, ◌++◌,
  Dict, get, has, keys, contains, subset, sorted, length, contains-append, contains-sorted,
  contains-keys, arith, ◌⊎◌, inl, inr, false≢true,
}
use industrial_agent_runtime.Contracts.{InformationRef}
use industrial_agent_runtime.Actions.{WorkItem, WorkBatch}
use industrial_agent_runtime.Decisions.{ok, err, Error}
use industrial_agent_runtime.Batch.Waves.{ready, waiting, is_cyclic}
use industrial_agent_runtime.Batch.Waves.Ranked.{contains-ready, contains-waiting}
use industrial_agent_runtime.Batch.Preflight.{Sized, index, dependencies, validate_batch}
use industrial_agent_runtime.Batch.Preflight.Distinct.{work_ids, index-IsDistinct}
use industrial_agent_runtime.Batch.Preflight.WellFormed.{validate_batch-IsValidated}
use industrial_agent_runtime.Coordinator.{State, Coordinator}
use industrial_agent_runtime.Coordinator.Execution.{has_hooks}
use industrial_agent_runtime.Coordinator.Batches.{run_wave, settle_items}
use industrial_agent_runtime.Coordinator.Settled.Answers.{Ends, Ends-pure, Ends-bind, returned}
use industrial_agent_runtime.Coordinator.Settled.Waves.{run_wave-Ends}

-- Two collections with the same members.
abbrev IsSame : List String → List String → Type 0
IsSame ns ms = (n : String) → contains n ns ≡ contains n ms

subset-IsSame : (ds ns ms : List String) → IsSame ns ms → subset ds ns ≡ subset ds ms
unfolding subset
subset-IsSame [] ns ms same = refl
subset-IsSame (d ∷ ds) ns ms same = ground (arith, same d, subset-IsSame ds ns ms same)

module _ (deps : String → List String) (ns ms : List String) (same : IsSame ns ms) where
  ready-IsSame : (ks : List String) → ready deps ns ks ≡ ready deps ms ks
  unfolding ready
  ready-IsSame [] = refl
  ready-IsSame (k ∷ ks) = ground (arith, subset-IsSame (deps k) ns ms same, ready-IsSame ks)

  waiting-IsSame : (ks : List String) → waiting deps ns ks ≡ waiting deps ms ks
  unfolding waiting
  waiting-IsSame [] = refl
  waiting-IsSame (k ∷ ks) = ground (arith, subset-IsSame (deps k) ns ms same, waiting-IsSame ks)

is_cyclic-next :
    (deps : String → List String) (bound : ℕ) (visited : List String) (k : String)
    (ks : List String)
    → is_cyclic deps (suc bound) visited (k ∷ ks) ≡ false
    → is_cyclic deps bound (visited ++ ready deps visited (k ∷ ks)) (waiting deps visited (k ∷ ks))
      ≡ false
unfolding is_cyclic
is_cyclic-next deps bound visited k ks h = ground (arith, h)

module _ {W : Type 0} (c : Coordinator W) (batch : WorkBatch) (sized : Dict Sized)
    (items : Dict WorkItem) where
  -- Every key of a loop that returns is settled, where the cycle check passes on the same keys with as
  -- many rounds.
  abbrev Settles : (pending : List String) → (before after : Dict String) → Type 0
  Settles pending before after =
      (k : String) → (has k before || contains k pending) ≡ true → has k after ≡ true

  settle_items-Settles :
      (bound : ℕ) (visited pending : List String) (outcomes : Dict String)
      → IsSame visited (keys outcomes)
      → is_cyclic (dependencies items) bound visited pending ≡ false
      → Ends (settle_items c batch sized items bound pending outcomes) (Settles pending outcomes)
  unfolding settle_items is_cyclic contains
  settle_items-Settles bound visited [] outcomes same acyclic =
      Ends-pure (Settles [] outcomes) outcomes (λ k listed. ground (arith, listed))
  settle_items-Settles zero visited (k ∷ ks) outcomes same acyclic =
      absurd (false≢true (sym acyclic))
  settle_items-Settles (suc bound) visited (k ∷ ks) outcomes same acyclic =
      let deps = dependencies items in
      let wave = sorted (ready deps (keys outcomes) (k ∷ ks)) in
      let left = waiting deps (keys outcomes) (k ∷ ks) in
      Ends-bind (λ out. (j : String) → has j out ≡ (has j outcomes || contains j wave))
        (Settles (k ∷ ks) outcomes) (run_wave c batch sized items wave outcomes)
        (settle_items c batch sized items bound left)
        (run_wave-Ends c batch sized items wave outcomes)
        (λ next grown s out after h j listed.
          settle_items-Settles bound (visited ++ ready deps visited (k ∷ ks)) left next
            (λ n. ground (
              arith,
              contains-append n visited (ready deps visited (k ∷ ks)),
              same n,
              contains-keys n next,
              contains-keys n outcomes,
              grown n,
              contains-sorted n (ready deps (keys outcomes) (k ∷ ks)),
              ap (contains n) (ready-IsSame deps visited (keys outcomes) same (k ∷ ks)),
            ))
            (subst (λ p. is_cyclic deps bound (visited ++ ready deps visited (k ∷ ks)) p ≡ false)
              (waiting-IsSame deps visited (keys outcomes) same (k ∷ ks))
              (is_cyclic-next deps bound visited k ks acyclic))
            s out after h j (handled next j (grown j) listed))
    where
      handled :
          (next : Dict String) (j : String)
          → has j next ≡ (
              has j outcomes
              || contains j (sorted (ready (dependencies items) (keys outcomes) (k ∷ ks))))
          → (has j outcomes || (k == j || contains j ks)) ≡ true
          → (has j next || contains j (waiting (dependencies items) (keys outcomes) (k ∷ ks)))
            ≡ true
      handled next j grown listed = ground (
        arith,
        grown,
        listed,
        contains-sorted j (ready (dependencies items) (keys outcomes) (k ∷ ks)),
        contains-ready (dependencies items) j (keys outcomes) (k ∷ ks),
        contains-waiting (dependencies items) j (keys outcomes) (k ∷ ks),
      )

-- For a batch that `_validate_batch` let through, the loop over its waves raises, or it returns with an
-- outcome for every item: one round for each item is enough.
pub settle_items-validated :
    {W : Type 0} (c : Coordinator W) (batch : WorkBatch) (sized : Dict Sized)
    (known : Dict InformationRef) (dispatched : List String) (usage : Dict ℕ) (s : State W)
    → validate_batch c.pipeline known dispatched (has_hooks c) usage batch ≡ ok sized
    → ((e : Error) × ((settle_items c batch sized
            (index batch.items [])
            (length (index batch.items []))
            (keys (index batch.items []))
            []
            s).0
          ≡ err e))
      ⊎ ((out : Dict String) × ((settle_items c batch sized
              (index batch.items [])
              (length (index batch.items []))
              (keys (index batch.items []))
              []
              s).0
            ≡ ok out)
          × ((k : String) → contains k (work_ids batch.items) ≡ true → has k out ≡ true))
unfolding contains keys has get
settle_items-validated c batch sized known dispatched usage s h =
    let items = index batch.items [] in
    let v =
      validate_batch-IsValidated c.pipeline known dispatched (has_hooks c) usage batch sized h in
    let (_, _, order) = index-IsDistinct batch.items [] (omega (arith, v.counted)) in
    let ids : keys items ≡ work_ids batch.items = order in
    elim (returned (settle_items c batch sized items (length items) (keys items) [] s)) [
      | inl (e, raised) ↦ inl (e, raised)
      | inr (out, ended, same) ↦ inr (
        out,
        ended,
        λ k listed.
            settle_items-Settles c batch sized items (length items) [] (keys items) [] (λ n. refl)
              v.acyclic s out _ same k (subst (λ ks. contains k ks ≡ true) (sym ids) listed),
      )
    ]
