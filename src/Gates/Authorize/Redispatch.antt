-- ===== src/Gates/Authorize/Redispatch.antt =====
-- `check_dispatch` after `authorize`.
use industrial_agent_runtime.Prelude.{
  ℕ, String, ◌≡◌, refl, sym, subst, true, false, not, ◌&&◌, Option, none, some, ◌⊎◌, Dict, get, inl,
  inr, ◌↔◌, arith, eq_refl, eqb_ℤ, Bool-cases, Option-cases,
}
use industrial_agent_runtime.Contracts.{
  InformationRef, Revision, number, text, SideEffectClass, mutate, ToolCallRequest, eqb_class,
  eqb_revision,
}
use industrial_agent_runtime.Decisions.{ok, err, refuse_if-eq-ok}
use industrial_agent_runtime.Gates.Pipeline.{
  GatePipeline, ResolvedReservation, FrozenRequest, Reading,
}
use industrial_agent_runtime.Gates.Static.{typed}
use industrial_agent_runtime.Gates.SideEffect.{needs_guard}
use industrial_agent_runtime.Gates.Authorize.{
  authorize, freeze, read_reference, check_dispatch, check_fresh, check_reference, same_spec,
  same_reference,
}
use industrial_agent_runtime.Gates.Authorize.Mediation.{pass, frozen-freeze}
use industrial_agent_runtime.Gates.Authorize.Classes.{check_side_effect-IsEligible}

eqb_revision_refl : (r : Revision) → eqb_revision r r ≡ true
unfolding eqb_revision eqb_ℤ
eqb_revision_refl (number z) = ground arith
eqb_revision_refl (text s) = eq_refl s

guarded-mutate :
    (g : GatePipeline) (c : SideEffectClass)
    → eqb_class c mutate ≡ true
    → (needs_guard c && not g.has_reference_guard) ≡ false
    → g.has_reference_guard ≡ true
unfolding eqb_class needs_guard
guarded-mutate g mutate e h = ground (arith, h)
guarded-mutate g SideEffectClass.read e h = absurd (cc)
guarded-mutate g _ e h = absurd (cc)

read_reference-guarded :
    (g : GatePipeline) (id : String) (reading : Reading) (o : Option Revision)
    → g.has_reference_guard ≡ true
    → read_reference g id reading ≡ ok o
    → (r : Revision) × (o ≡ some r) × (reading ≡ ok (some r))
unfolding read_reference
read_reference-guarded g id (ok (some r)) o guard h = (r, ground (arith, guard, h), refl)
read_reference-guarded g id (ok none) o guard h = absurd (ground (arith, guard, h))
read_reference-guarded g id (err e) o guard h = absurd (ground (arith, guard, h))

fresh_reading :
    (g : GatePipeline) (id : String) (reading : Reading) (expected : Revision)
    → check_fresh g id expected reading ≡ ok tt
    → (current : Revision) × (reading ≡ ok (some current)) × (eqb_revision current expected ≡ true)
unfolding check_fresh same_reference
fresh_reading g id (ok (some current)) expected h = (current, refl, ground (arith, h))
fresh_reading g id (ok none) expected h = absurd (cc)
fresh_reading g id (err x) expected h = absurd (cc)

module _ (g : GatePipeline) (frozen : FrozenRequest) (revision : Revision) (reading : Reading) where
  -- The bindings that are checked once more.
  pub record IsBound : Type 0 where
    pub spec : same_spec g (get frozen.request.tool_name g.specs) frozen.spec_checksum ≡ true
    pub state : eqb_revision revision frozen.expected_state_revision ≡ true
    pub reference :
        eqb_class frozen.side_effect_class mutate ≡ false
        ⊎ ((expected : Revision) × (current : Revision) × (frozen.expected_reference_revision
              ≡ some expected)
            × (g.has_reference_guard ≡ true)
            × (reading ≡ ok (some current))
            × (eqb_revision current expected ≡ true))

  IsBound-check_dispatch : IsBound → check_dispatch g frozen revision reading ≡ ok tt
  unfolding check_dispatch check_reference check_fresh same_reference
  IsBound-check_dispatch b = elim b.reference [
    | inl other ↦ ground (arith, b.spec, b.state, other)
    | inr (expected, current, bound, guard, read, same) ↦
        ground (arith, b.spec, b.state, bound, guard, read, same)
  ]

  check_reference-bound :
      (id : String)
      → check_reference g id frozen reading ≡ ok tt
      → (expected : Revision) × (current : Revision) × (frozen.expected_reference_revision
          ≡ some expected)
        × (g.has_reference_guard ≡ true)
        × (reading ≡ ok (some current))
        × (eqb_revision current expected ≡ true)
  unfolding check_reference
  check_reference-bound id h = elim (Option-cases frozen.expected_reference_revision) [
    | inl absent ↦ absurd (ground (arith, absent, h))
    | inr (expected, bound) ↦ elim (Bool-cases g.has_reference_guard) [
      | inr unguarded ↦ absurd (ground (arith, bound, unguarded, h))
      | inl guard ↦
          let (current, read, same) =
            fresh_reading g id reading expected (ground (arith, bound, guard, h)) in
          (expected, current, bound, guard, read, same)
    ]
  ]

-- The check before dispatch passes exactly if every binding holds: the registered ToolSpec has the
-- frozen checksum, the task state has the frozen revision, and for MUTATE the guard answers the frozen
-- reference revision.
pub check_dispatch_iff :
    (g : GatePipeline) (frozen : FrozenRequest) (revision : Revision) (reading : Reading)
    → (check_dispatch g frozen revision reading ≡ ok tt) ↔ IsBound g frozen revision reading
unfolding check_dispatch
check_dispatch_iff g frozen revision reading =
    (bound, IsBound-check_dispatch g frozen revision reading)
  where
    bound : check_dispatch g frozen revision reading ≡ ok tt → IsBound g frozen revision reading
    bound h =
        let id = frozen.request.request_id in
        let (spec, h₁) =
          refuse_if-eq-ok
            (not (same_spec g (get frozen.request.tool_name g.specs) frozen.spec_checksum)) _ _ h in
        let (state, h₂) =
          refuse_if-eq-ok (not (eqb_revision revision frozen.expected_state_revision)) _ _ h₁ in
        record {
          spec = ground (arith, spec);
          state = ground (arith, state);
          reference = elim (Bool-cases (eqb_class frozen.side_effect_class mutate)) [
            | inr plain ↦ inl plain
            | inl mutates ↦
                inr
                  (check_reference-bound g frozen revision reading id (ground (arith, mutates, h₂)))
          ];
        }

-- Nothing changed since the authorization, so the check before dispatch passes: it never refuses a
-- request that was authorized at this task revision and this reading of the guard.
pub authorize-check_dispatch :
    (g : GatePipeline) (request : ToolCallRequest) (known : Dict InformationRef) (usage : Dict ℕ)
    (revision : Revision) (reading : Reading) (expected : Option ResolvedReservation)
    (frozen : FrozenRequest)
    → authorize g (typed request) known usage revision reading expected ≡ ok frozen
    → check_dispatch g frozen revision reading ≡ ok tt
unfolding freeze same_spec
authorize-check_dispatch g request known usage revision reading expected frozen h =
    let p = pass g request known usage revision reading expected frozen h in
    let same = frozen-freeze g request known usage revision reading expected frozen h p in
    let eligible =
      check_side_effect-IsEligible g request.request_id p.checked.spec p.checked.reservation.draw
        p.effect p.eligible in
    IsBound-check_dispatch g frozen revision reading (
      subst (λ t. IsBound g t revision reading) (sym same)
        (record {
          spec = rw p.static.registered (eq_refl (g.digest p.checked.spec));
          state = eqb_revision_refl revision;
          reference = elim (Bool-cases (eqb_class p.checked.spec.side_effect_class mutate)) [
            | inr plain ↦ inl plain
            | inl mutates ↦
                let guard =
                  guarded-mutate g p.checked.spec.side_effect_class mutates eligible.guarded in
                let (r, bound, read) =
                  read_reference-guarded g request.request_id reading p.reference guard p.read in
                inr (r, r, bound, guard, read, eqb_revision_refl r)
          ];
        }))
