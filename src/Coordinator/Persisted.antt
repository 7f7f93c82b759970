-- ===== src/Coordinator/Persisted.antt =====
-- The end of a run in `_persist_terminal_status` of src/industrial_agent_runtime/coordinator.py.
use industrial_agent_runtime.Prelude.{
  ◌≡◌, refl, ap, subst, true, not, ◌≢◌, Option, none, some, arith,
}
use industrial_agent_runtime.Contracts.{Revision, eqb_revision, TaskStatus}
use industrial_agent_runtime.Decisions.{Result, ok, err, Error, denied, refuse_if, ok-injective}
use industrial_agent_runtime.Coordinator.{
  State, Coordinator, Method, is_terminal, raise, continue, event,
}
use industrial_agent_runtime.Coordinator.Loop.{
  eqb_status, check_transition, transition, persistence_failed, persist_terminal_status,
}

-- A terminal status that the store has taken over: its revision moved exactly if its status did.
pub record IsPersisted {W : Type 0} (c : Coordinator W) (requested : TaskStatus) (before after : W)
    : Type 0 where
  pub terminal : is_terminal requested ≡ true
  pub revision : Revision
  pub prior_status : TaskStatus
  pub returned : Revision
  pub observed_revision : Revision
  pub observed_status : TaskStatus
  pub at : c.revision before ≡ ok revision
  pub was : c.store_status before ≡ ok prior_status
  pub now : c.revision after ≡ ok observed_revision
  pub is : c.store_status after ≡ ok observed_status
  pub same : eqb_revision returned observed_revision ≡ true
  pub taken : eqb_status observed_status requested ≡ true
  pub moved : eqb_revision returned revision ≡ eqb_status prior_status requested

check_transition-ok :
    (requested prior : TaskStatus) (revision : Revision) (returned : Option Revision)
    (observed : Revision) (status : TaskStatus)
    → check_transition requested prior revision returned observed status ≡ ok tt
    → (r : Revision) × (eqb_revision r observed ≡ true)
      × (eqb_status status requested ≡ true)
      × (eqb_revision r revision ≡ eqb_status prior requested)
unfolding check_transition
check_transition-ok requested prior revision none observed status h = absurd (cc)
check_transition-ok requested prior revision (some r) observed status h =
    (r, ground (arith, h), ground (arith, h), ground (arith, h))

module _ {W : Type 0} where
  -- A computation on values, or a question, leaves the state.
  value-eq-ok :
      {A B : Type 0} (next : A → Method W B) (r : Result A) (s : State W) {b : B} {after : State W}
      → continue raise next (r, s) ≡ (ok b, after)
      → (a : A) × (r ≡ ok a) × (next a s ≡ (ok b, after))
  value-eq-ok next (err e) s h = absurd (cc)
  value-eq-ok next (ok a) s h = (a, refl, h)

module _ {W : Type 0} (c : Coordinator W) where
  persistence_failed-some :
      (e : Error) (s after : State W) {A : Type 0} → persistence_failed c e s ≡ (ok none, after) → A
  unfolding persistence_failed event
  persistence_failed-some e s after h =
      let (status, _, h₁) = value-eq-ok _ (c.store_status s.world) s h in
      let (revision, _, h₂) = value-eq-ok _ (c.revision s.world) s h₁ in
      absurd (some-none (ok-injective (ap (λ r. r.0) h₂)))
    where
      some-none : some e ≢ none
      some-none h = cc

  -- The handler of the transition reports an error.
  attempt-none :
      (next : Unit {0} → Method W (Option Error)) (r : Result (Unit {0}) × State W)
      {after : State W}
      → continue (persistence_failed c) next r ≡ (ok none, after)
      → (s : State W) × (r ≡ (ok tt, s)) × (next tt s ≡ (ok none, after))
  attempt-none next (err e, s) h = persistence_failed-some e s _ h
  attempt-none next (ok t, s) h = (s, refl, h)

  transition-IsPersisted :
      (requested prior : TaskStatus) (revision : Revision) (s after : State W)
      → c.revision s.world ≡ ok revision
      → c.store_status s.world ≡ ok prior
      → transition c requested revision prior s ≡ (ok tt, after)
      → IsPersisted c requested s.world after.world
  unfolding transition
  transition-IsPersisted requested prior revision s after at was h =
      let (_, terminal, h₁) =
        value-eq-ok _
          (refuse_if (not (is_terminal requested))
            (denied "only terminal statuses may be persisted here"))
          s h in
      let moved : State W = record s {
        world = (c.transition_status requested revision s.world).1;
      } in
      let (returned, _, h₂) =
        value-eq-ok _ (c.transition_status requested revision s.world).0 moved h₁ in
      let (observed, now, h₃) = value-eq-ok _ (c.revision moved.world) moved h₂ in
      let (status, is, h₄) = value-eq-ok _ (c.store_status moved.world) moved h₃ in
      let (r, same, taken, step) =
        check_transition-ok requested prior revision returned observed status (ap (λ r. r.0) h₄) in
      subst (λ (k : State W). IsPersisted c requested s.world k.world) (ap (λ r. r.1) h₄)
        (record {
          terminal = ground (arith, terminal);
          revision = revision;
          prior_status = prior;
          returned = r;
          observed_revision = observed;
          observed_status = status;
          at = at;
          was = was;
          now = now;
          is = is;
          same = same;
          taken = taken;
          moved = step;
        })

  -- Where the status is persisted without an error, it is terminal, and the store reports it, at a
  -- revision that moved exactly if the store had another status before.
  pub persist_terminal_status-IsPersisted :
      (s after : State W)
      → persist_terminal_status c s ≡ (ok none, after)
      → IsPersisted c s.status s.world after.world
  unfolding persist_terminal_status event
  persist_terminal_status-IsPersisted s after h =
      let (revision, at, h₁) = value-eq-ok _ (c.revision s.world) s h in
      let (prior, was, h₂) = value-eq-ok _ (c.store_status s.world) s h₁ in
      let (s₁, ran, h₃) = attempt-none _ (transition c s.status revision prior s) h₂ in
      subst (λ (k : State W). IsPersisted c s.status s.world k.world) (ap (λ r. r.1) h₃)
        (transition-IsPersisted s.status prior revision s s₁ at was ran)
