-- ===== src/Coordinator/Stuck.antt =====
-- A store whose projections `_project` of src/industrial_agent_runtime/coordinator.py refuses: the
-- denial comes before the charge for the model's call, so that the loop of `run` does not end.
use industrial_agent_runtime.Prelude.{ℕ, zero, suc, String, ◌≡◌, ◌∙◌, refl, sym, subst, false, some}
use industrial_agent_runtime.Contracts.{running, Revision}
use industrial_agent_runtime.Decisions.{Result, ok, err, denied}
use industrial_agent_runtime.Coordinator.{
  State, Coordinator, Method, raise, continue, ContextProjection, is_terminal, event, deny,
}
use industrial_agent_runtime.Coordinator.Update.{
  is_current, keep_projection, check_projection, projected,
}
use industrial_agent_runtime.Coordinator.Turn.{asked, take_turn, recover, guarded_turn}
use industrial_agent_runtime.Coordinator.Loop.{
  is_exhausted, turn_or_exhausted, stop_or_turn, when_running, is_running, round, rounds,
}

-- A store of a task that runs, whose projections are of another task or another revision.
pub record IsForeign {W : Type 0} (c : Coordinator W) : Type 0 where
  pub projection : ContextProjection
  pub revision : Revision
  pub status : (w : W) → c.store_status w ≡ ok running
  pub projects : (w : W) → c.project w ≡ ok (some projection)
  pub at : (w : W) → c.revision w ≡ ok revision
  pub differs : is_current c projection revision ≡ false

-- What a round leaves as it was.
pub record IsIdle {W : Type 0} (before after : State W) : Type 0 where
  pub status : after.status ≡ running
  pub usage : after.usage ≡ before.usage
  pub world : after.world ≡ before.world

IsIdle-trans : {W : Type 0} {a b c : State W} → IsIdle a b → IsIdle b c → IsIdle a c
IsIdle-trans i j = record {
  status = j.status;
  usage = j.usage ∙ i.usage;
  world = j.world ∙ i.world;
}

-- A method that raises nothing and leaves all that a round leaves.
abbrev Stays : {W : Type 0} → State W → Result (Unit {0}) × State W → Type 0
Stays s r = (r.0 ≡ ok tt) × IsIdle s r.1

Stays-continue :
    {W : Type 0} (s : State W) (next : Method W (Unit {0})) (r : Result (Unit {0}) × State W)
    → Stays s r
    → ((s' : State W) → IsIdle s s' → Stays s (next s'))
    → Stays s (continue raise (λ _. next) r)
Stays-continue s next (err e, s') (raised, i) k = absurd (cc)
Stays-continue s next (ok t, s') (done, i) k = k s' i

module _ {W : Type 0} (c : Coordinator W) (f : IsForeign c) where
  check_projection-foreign :
      check_projection c (some f.projection) f.revision
      ≡ err (denied "invalid consumer projection identity/revision")
  unfolding check_projection keep_projection
  check_projection-foreign = rw f.differs

  projected-denied : (s : State W) → (r : String) × (projected c s ≡ (err (denied r), s))
  unfolding projected
  projected-denied s = (
    "invalid consumer projection identity/revision",
    rw (f.projects s.world) (rw (f.at s.world) (rw check_projection-foreign)),
  )

  guarded_turn-Stays : (s : State W) → s.status ≡ running → Stays s (guarded_turn c s)
  unfolding guarded_turn take_turn asked recover event deny
  guarded_turn-Stays s on =
      let (r, raised) = projected-denied s in
      rw raised (refl, record { status = on; usage = refl; world = refl })

  round-Stays :
      (s : State W) → s.status ≡ running → is_exhausted c s.usage ≡ false → Stays s (round c s)
  unfolding round stop_or_turn turn_or_exhausted is_terminal
  round-Stays s on left = rw (f.status s.world) (rw left (guarded_turn-Stays s on))

  -- Under a store of a running task whose projections are refused, any number of rounds of the loop
  -- raises nothing and leaves the loop running, with nothing charged and nothing changed in what the
  -- application keeps, where the quotas of model calls and steps are not used up.
  pub rounds-IsIdle :
      (bound : ℕ) (s : State W)
      → s.status ≡ running
      → is_exhausted c s.usage ≡ false
      → ((rounds c bound s).0 ≡ ok tt) × IsIdle s (rounds c bound s).1
  unfolding rounds when_running is_running
  rounds-IsIdle zero s on left = (refl, record { status = on; usage = refl; world = refl })
  rounds-IsIdle (suc bound) s on left =
      subst (λ status. Stays s (when_running c (is_running status) body s)) (sym on)
        (Stays-continue s (rounds c bound) (round c s) (round-Stays s on left) (λ s' i.
          let (done, j) =
            rounds-IsIdle bound s' i.status
              (subst (λ u. is_exhausted c u ≡ false) (sym i.usage) left) in
          (done, IsIdle-trans i j)))
    where
      body : Method W (Unit {0})
      body s = continue raise (λ _. rounds c bound) (round c s)
