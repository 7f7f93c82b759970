-- ===== src/Gates/Authorize/Mediation.antt =====
-- What `authorize` guarantees of a request that it lets through.
use industrial_agent_runtime.Prelude.{
  ℕ, String, ◌==◌, ◌≡◌, ◌∙◌, refl, sym, subst, ap, true, false, not, ◌&&◌, ◌||◌, Option, none, some,
  List, [], ◌∷◌, ◌++◌, ◌⊎◌, Dict, get, contains, subset, eq_iff, inl, inr, Option-cases, Bool-cases,
  arith, is_some, is_nil,
}
use industrial_agent_runtime.Json.{object, Fields}
use industrial_agent_runtime.Contracts.{
  InformationRef, Revision, ToolSpec, ToolCallRequest, is_agent,
}
use industrial_agent_runtime.Decisions.{
  Error, ok, refuse_if-eq-ok, or_raise, >>=-eq-ok, ok-injective, Verdict,
}
use industrial_agent_runtime.Schema.{schema_errors}
use industrial_agent_runtime.Schema.Instance.{instance_errors}
use industrial_agent_runtime.Refs.{ref_envelopes, parse_ref}
use industrial_agent_runtime.Gates.Policy.{contains_class, allows_tool, parent}
use industrial_agent_runtime.Gates.Pipeline.{
  GatePipeline, ResolvedReservation, FrozenRequest, Reading, Approval,
}
use industrial_agent_runtime.Gates.Static.{
  typed, check_schema, check_authority, check_refs, check_envelope, is_known,
}
use industrial_agent_runtime.Gates.Budget.Quota.{FitsQuota, IsWholeAt, check_budget-FitsQuota}
use industrial_agent_runtime.Gates.Authorize.{
  approved_decision, with_counters, approve, ask_approval, freeze, authorize, needs_approval,
}
use industrial_agent_runtime.Gates.Authorize.Sound.{Pass, authorize-Pass}

-- A reference in the arguments that G0 lets pass: it parses, is visible to the agent, and equals a
-- known reference.
abbrev pub IsCitable : Dict InformationRef → Fields → Type 0
IsCitable known envelope =
    (ref : InformationRef) × (parse_ref envelope ≡ some ref)
    × (is_agent ref.visibility ≡ true)
    × (is_known known ref ≡ true)

abbrev pub AllEnvelopes : (Fields → Type 0) → List Fields → Type 0
AllEnvelopes P [] = Unit
AllEnvelopes P (e ∷ es) = P e × AllEnvelopes P es

module _ (g : GatePipeline) (id : String) (known : Dict InformationRef) where
  check_envelope-IsCitable : (e : Fields) → check_envelope g id known e ≡ ok tt → IsCitable known e
  unfolding check_envelope
  check_envelope-IsCitable e h = elim (Option-cases (parse_ref e)) [
    | inl absent ↦ absurd (ground (arith, absent, h))
    | inr (ref, parsed) ↦ (ref, parsed, ground (arith, parsed, h), ground (arith, parsed, h))
  ]

  check_refs-AllEnvelopes :
      (es : List Fields) → check_refs g id known es ≡ ok tt → AllEnvelopes (IsCitable known) es
  unfolding check_refs
  check_refs-AllEnvelopes [] h = tt
  check_refs-AllEnvelopes (e ∷ es) h =
      let (_, first, rest) = >>=-eq-ok (check_envelope g id known e) _ h in
      (check_envelope-IsCitable e first, check_refs-AllEnvelopes es rest)

-- The static authority of a request: its tool is registered, listed by the task and allowed along the
-- whole chain of policies, its class and its tags are granted, and a child task has a delegated policy.
pub record HasAuthority (g : GatePipeline) (request : ToolCallRequest) (spec : ToolSpec)
    : Type 0 where
  pub registered : get request.tool_name g.specs ≡ some spec
  pub listed : contains request.tool_name g.task.allowed_tools ≡ true
  pub allowed : allows_tool g.policy request.tool_name ≡ true
  pub granted : contains_class spec.side_effect_class g.policy.granted_side_effect_classes ≡ true
  pub tagged : subset spec.required_policy_tags g.policy.granted_policy_tags ≡ true
  pub delegated : (is_some g.task.parent_task_id && not (is_some (parent g.policy))) ≡ false

check_authority-HasAuthority :
    (g : GatePipeline) (request : ToolCallRequest) (spec : ToolSpec)
    → get request.tool_name g.specs ≡ some spec
    → check_authority g request spec ≡ ok tt
    → HasAuthority g request spec
unfolding check_authority
check_authority-HasAuthority g request spec registered h =
    let (tool, h₁) =
      refuse_if-eq-ok
        (not (contains request.tool_name g.task.allowed_tools)
          || not (allows_tool g.policy request.tool_name))
        _ _ h in
    let (child, h₂) =
      refuse_if-eq-ok (is_some g.task.parent_task_id && not (is_some (parent g.policy))) _ _ h₁ in
    record {
      registered = registered;
      listed = ground (arith, tool);
      allowed = ground (arith, tool);
      granted = ground (arith, h₂);
      tagged = ground (arith, h₂);
      delegated = child;
    }

-- The approval leaves the request as frozen, but for the decision that it adds.
or_raise-eq-ok {ℓ} :
    {A : Type ℓ} (o : Option A) (e : Error) {a : A} → or_raise o e ≡ ok a → o ≡ some a
or_raise-eq-ok none e h = absurd (cc)
or_raise-eq-ok (some a) e h = cc

approve-cases :
    (g : GatePipeline) (f frozen : FrozenRequest)
    → approve g f ≡ ok frozen
    → (hook : Approval) × (g.approval ≡ some hook)
      × (hook f ≡ ok "APPROVE")
      × (frozen ≡ record f { decisions = f.decisions ++ approved_decision g f ∷ [] })
unfolding approve
approve-cases g f frozen h =
    let (hook, found, h₁) = >>=-eq-ok (or_raise g.approval _) _ h in
    let (answer, said, h₂) = >>=-eq-ok (hook f) _ h₁ in
    let (yes_said, h₃) = refuse_if-eq-ok (not (answer == "APPROVE")) _ _ h₂ in
    let same = (eq_iff answer "APPROVE").0 (ground (arith, yes_said)) in
    (
      hook,
      or_raise-eq-ok g.approval _ found,
      subst (λ a. hook f ≡ ok a) same said,
      sym (ok-injective h₃),
    )

pub ask_approval-cases :
    (g : GatePipeline) (f : FrozenRequest) (v : Verdict) (frozen : FrozenRequest)
    → ask_approval g f v ≡ ok frozen
    → (needs_approval g f.side_effect_class v ≡ false) × (frozen ≡ f)
      ⊎ ((hook : Approval) × (g.approval ≡ some hook)
          × (hook f ≡ ok "APPROVE")
          × (frozen ≡ record f { decisions = f.decisions ++ approved_decision g f ∷ [] }))
unfolding ask_approval
ask_approval-cases g f v frozen h = elim (Bool-cases (needs_approval g f.side_effect_class v)) [
  | inl needed ↦ inr (approve-cases g f frozen (ground (arith, h, needed)))
  | inr free ↦ inl (free, ground (arith, h, free))
]

nil-of_is_nil {ℓ} : {A : Type ℓ} (xs : List A) → not (is_nil xs) ≡ false → xs ≡ []
nil-of_is_nil [] h = refl
nil-of_is_nil (x ∷ xs) h = absurd (cc)

nil-of_append {ℓ} : {A : Type ℓ} (xs ys : List A) → not (is_nil (xs ++ ys)) ≡ false → xs ≡ []
nil-of_append [] ys h = refl
nil-of_append (x ∷ xs) ys h = absurd (cc)

module _ (g : GatePipeline) (request : ToolCallRequest) (known : Dict InformationRef)
    (usage : Dict ℕ) (revision : Revision) (reading : Reading)
    (expected : Option ResolvedReservation) (frozen : FrozenRequest)
    (authorized : authorize g (typed request) known usage revision reading expected
      ≡ ok frozen) where
  pub pass : Pass g request known usage revision reading expected frozen
  pass = authorize-Pass g request known usage revision reading expected frozen authorized

  -- Up to its decisions, the result is what `freeze` built.
  pub frozen-freeze :
      (p : Pass g request known usage revision reading expected frozen)
      → frozen ≡ freeze g request p.checked revision p.reference frozen.decisions
  unfolding freeze
  frozen-freeze p = elim (ask_approval-cases g _ p.answer.decision frozen p.approved) [
    | inl (free, same) ↦
        subst (λ t. t ≡ freeze g request p.checked revision p.reference t.decisions) (sym same) refl
    | inr (hook, found, said, same) ↦
        subst (λ t. t ≡ freeze g request p.checked revision p.reference t.decisions) (sym same) refl
  ]

-- An authorized request is for a registered tool, with the task's and the policy's authority for it,
-- and what is frozen is that request with the checksum and the class of the registered ToolSpec.
pub authorize-HasAuthority :
    (g : GatePipeline) (request : ToolCallRequest) (known : Dict InformationRef) (usage : Dict ℕ)
    (revision : Revision) (reading : Reading) (expected : Option ResolvedReservation)
    (frozen : FrozenRequest)
    → authorize g (typed request) known usage revision reading expected ≡ ok frozen
    → (spec : ToolSpec) × HasAuthority g request spec
      × (frozen.request ≡ request)
      × (frozen.spec_checksum ≡ g.digest spec)
      × (frozen.side_effect_class ≡ spec.side_effect_class)
unfolding freeze
authorize-HasAuthority g request known usage revision reading expected frozen h =
    let p = pass g request known usage revision reading expected frozen h in
    let same = frozen-freeze g request known usage revision reading expected frozen h p in
    (
      p.checked.spec,
      check_authority-HasAuthority g request p.checked.spec p.static.registered p.static.authority,
      ap (λ t. t.request) same,
      ap (λ t. t.spec_checksum) same,
      ap (λ t. t.side_effect_class) same,
    )

check_schema-valid :
    (g : GatePipeline) (request : ToolCallRequest) (spec : ToolSpec) (known : Dict InformationRef)
    → check_schema g request spec known ≡ ok tt
    → (schema_errors g.re [] spec.input_schema ≡ ok [])
      × (instance_errors g.re [] (object request.arguments) spec.input_schema ≡ ok [])
      × AllEnvelopes (IsCitable known) (ref_envelopes (object request.arguments))
unfolding check_schema
check_schema-valid g request spec known h =
    let (input, ei, h₁) = >>=-eq-ok (schema_errors g.re [] spec.input_schema) _ h in
    let (output, eo, h₂) = >>=-eq-ok (schema_errors g.re [] spec.output_schema) _ h₁ in
    let (accepted, h₃) = refuse_if-eq-ok (not (is_nil (input ++ output))) _ _ h₂ in
    let (problems, ep, h₄) =
      >>=-eq-ok (instance_errors g.re [] (object request.arguments) spec.input_schema) _ h₃ in
    let (valid, refs) = refuse_if-eq-ok (not (is_nil problems)) _ _ h₄ in
    (
      ei ∙ ap ok (nil-of_append input output accepted),
      ep ∙ ap ok (nil-of_is_nil problems valid),
      check_refs-AllEnvelopes g request.request_id known _ refs,
    )

-- The arguments of an authorized request conform to the input schema of its tool, which lies within
-- the supported subset, and every reference in them, at any depth, is a known one that the agent may see.
pub authorize-IsCitable :
    (g : GatePipeline) (request : ToolCallRequest) (known : Dict InformationRef) (usage : Dict ℕ)
    (revision : Revision) (reading : Reading) (expected : Option ResolvedReservation)
    (frozen : FrozenRequest)
    → authorize g (typed request) known usage revision reading expected ≡ ok frozen
    → (spec : ToolSpec) × (get request.tool_name g.specs ≡ some spec)
      × (schema_errors g.re [] spec.input_schema ≡ ok [])
      × (instance_errors g.re [] (object request.arguments) spec.input_schema ≡ ok [])
      × AllEnvelopes (IsCitable known) (ref_envelopes (object request.arguments))
authorize-IsCitable g request known usage revision reading expected frozen h =
    let p = pass g request known usage revision reading expected frozen h in
    let (accepted, valid, refs) =
      check_schema-valid g request p.checked.spec known p.static.schema in
    (p.checked.spec, p.static.registered, accepted, valid, refs)

pub authorize-FitsQuota :
    (g : GatePipeline) (request : ToolCallRequest) (known : Dict InformationRef) (usage : Dict ℕ)
    (revision : Revision) (reading : Reading) (expected : Option ResolvedReservation)
    (frozen : FrozenRequest) (name : String) (amount : ℕ)
    → authorize g (typed request) known usage revision reading expected ≡ ok frozen
    → IsWholeAt g.task.budget usage name
    → get name (with_counters frozen.reserved_budget_draw) ≡ some amount
    → FitsQuota g.task.budget usage name amount
unfolding freeze
authorize-FitsQuota g request known usage revision reading expected frozen name amount h whole
      found =
    let p = pass g request known usage revision reading expected frozen h in
    let same = frozen-freeze g request known usage revision reading expected frozen h p in
    check_budget-FitsQuota g request.request_id (with_counters p.checked.reservation.draw) usage
      p.budget name amount p.quota whole
      (subst (λ d. get name (with_counters d) ≡ some amount) (ap (λ t. t.reserved_budget_draw) same)
        found)
