-- ===== src/Verification/Outcome/Ingested.antt =====
-- What an accepted result brings into the run, its references and its deltas, and what an accepted
-- finish cites.
use industrial_agent_runtime.Prelude.{
  ◌==◌, ◌≡◌, refl, subst, true, false, Option, none, some, List, [], ◌∷◌, ◌++◌, map, Dict, inl, inr,
  Bool-cases, Option-cases, arith, AllEntries,
}
use industrial_agent_runtime.Contracts.{
  InformationRef, Revision, Task, ToolSpec, ToolCallRequest, ToolResult, StateDelta, FinishProposal,
  typed_ref,
}
use industrial_agent_runtime.Decisions.{
  Result, ok, err, refuse_if-eq-ok, >>=-eq-ok, ok-injective, VerificationDecision, finish,
}
use industrial_agent_runtime.Schema.{schema_errors}
use industrial_agent_runtime.Schema.Instance.{instance_errors}
use industrial_agent_runtime.Refs.{ref_envelopes}
use industrial_agent_runtime.Gates.Reconcile.{Reconciliation}
use industrial_agent_runtime.Verification.Run.{Run}
use industrial_agent_runtime.Verification.References.{check_refs}
use industrial_agent_runtime.Verification.References.Declared.{
  AllKept, AllCovered, IsEntry, check_refs-AllKept,
}
use industrial_agent_runtime.Verification.Provenance.{Returned, tool_result, check_output}
use industrial_agent_runtime.Verification.Deltas.{
  Derived, typed_delta, untyped_delta, check_reasons, check_deltas, stamp, ingestion_producer,
  well_formed, any_hidden, any_unknown, hides, is_unknown,
}
use industrial_agent_runtime.Verification.Outcome.{
  ResultVerificationPipeline, VerifiedResult, verify, verify_finish,
}
use industrial_agent_runtime.Verification.Outcome.Accepted.{
  verify-IsVerified, check_output-conforms,
}

-- An accepted result brings references that are well formed, Agent-visible and in no conflict with a
-- reserved one, each under its own id; it declares no other; and every reference envelope in its
-- output, at any depth, says AGENT and equals one of them or a known one.
pub verify-AllCovered :
    (p : ResultVerificationPipeline) (returned : Returned) (request : ToolCallRequest)
    (spec : ToolSpec) (accounting : Reconciliation) (known reserved : Dict InformationRef)
    (current : Revision) (reader : Result Revision) (v : VerifiedResult)
    → verify p returned request spec accounting known reserved current reader ≡ ok v
    → (r : ToolResult) × (returned ≡ tool_result r)
      × AllEntries (IsEntry known reserved false) v.refs
      × AllKept v.refs (r.information_refs ++ r.artifact_refs)
      × AllCovered v.refs known (ref_envelopes r.structured_output)
verify-AllCovered p returned request spec accounting known reserved current reader v h =
    let a =
      verify-IsVerified p returned request spec accounting known reserved current reader v h in
    let (entries, kept, covered) =
      check_refs-AllKept a.refs_run known _ _ reserved false v.refs a.cited in
    (a.result, a.typed, entries, kept, covered)

-- A delta that the ingestion may apply: stamped by the runtime at the given revision, and citing
-- nothing, or a well-formed Agent-visible reference that is one of the given ones.
pub record IsIngestible (refs known : Dict InformationRef) (current : Revision) (d : StateDelta)
    : Type 0 where
  pub named : (d.operation == "") ≡ false
  pub stamped : d.producer ≡ ingestion_producer
  pub rebased : d.proposed_base_revision ≡ some current
  pub shown : hides d.reason_ref ≡ false
  pub cited : is_unknown refs known d.reason_ref ≡ false

abbrev pub AllIngestible :
    Dict InformationRef → Dict InformationRef → Revision → List StateDelta → Type 0
AllIngestible refs known current [] = Unit
AllIngestible refs known current (d ∷ ds) =
    IsIngestible refs known current d × AllIngestible refs known current ds

abbrev AllNamed : List StateDelta → Type 0
AllNamed [] = Unit
AllNamed (d ∷ ds) = ((d.operation == "") ≡ false) × AllNamed ds

abbrev IfNamed : Option (List StateDelta) → Type 0
IfNamed none = Unit
IfNamed (some ds) = AllNamed ds

well_formed-AllNamed :
    (derived : List Derived) (ds : List StateDelta) → well_formed derived ≡ some ds → AllNamed ds
unfolding well_formed
well_formed-AllNamed [] ds h = subst IfNamed h tt
well_formed-AllNamed (untyped_delta ∷ derived) ds h = absurd (cc)
well_formed-AllNamed (typed_delta d ∷ derived) ds h = elim (Option-cases (well_formed derived)) [
  | inl absent ↦ absurd (ground (arith, absent, h))
  | inr (rest, found) ↦ elim (Bool-cases (d.operation == "")) [
    | inl empty ↦ absurd (ground (arith, found, empty, h))
    | inr named ↦
        let same : some (d ∷ rest) ≡ some ds = ground (arith, found, named, h) in
        subst IfNamed same (named, well_formed-AllNamed derived rest found)
  ]
]

stamp-AllIngestible :
    (refs known : Dict InformationRef) (current : Revision) (ds : List StateDelta)
    → AllNamed ds
    → any_hidden ds ≡ false
    → any_unknown refs known ds ≡ false
    → AllIngestible refs known current (map (stamp current) ds)
unfolding any_hidden any_unknown stamp
stamp-AllIngestible refs known current [] named shown cited = tt
stamp-AllIngestible refs known current (d ∷ ds) named shown cited = (
  record {
    named = named.0;
    stamped = refl;
    rebased = refl;
    shown = ground (arith, shown);
    cited = ground (arith, cited);
  },
  stamp-AllIngestible refs known current ds named.1 (ground (arith, shown)) (ground (arith, cited)),
)

check_reasons-AllIngestible :
    (run : Run) (refs known : Dict InformationRef) (current : Revision) (ds out : List StateDelta)
    → AllNamed ds
    → check_reasons run refs known current ds ≡ ok out
    → AllIngestible refs known current out
unfolding check_reasons
check_reasons-AllIngestible run refs known current ds out named h =
    let (shown, h₁) = refuse_if-eq-ok (any_hidden ds) _ _ h in
    let (cited, h₂) = refuse_if-eq-ok (any_unknown refs known ds) _ _ h₁ in
    subst (AllIngestible refs known current) (ok-injective h₂)
      (stamp-AllIngestible refs known current ds named shown cited)

check_deltas-AllIngestible :
    (run : Run) (answer : Result (List Derived)) (refs known : Dict InformationRef)
    (current : Revision) (out : List StateDelta)
    → check_deltas run answer refs known current ≡ ok out
    → AllIngestible refs known current out
unfolding check_deltas
check_deltas-AllIngestible run (err e) refs known current out h = absurd (cc)
check_deltas-AllIngestible run (ok derived) refs known current out h =
    elim (Option-cases (well_formed derived)) [
      | inl absent ↦ absurd (ground (arith, absent, h))
      | inr (ds, found) ↦
          check_reasons-AllIngestible run refs known current ds out
            (well_formed-AllNamed derived ds found) (ground (arith, found, h))
    ]

-- Every delta of an accepted result is stamped with the runtime's producer and the revision of the
-- verification, whatever the ingestor wrote there, and its reason is a reference of the result or a
-- known one.
pub verify-AllIngestible :
    (p : ResultVerificationPipeline) (returned : Returned) (request : ToolCallRequest)
    (spec : ToolSpec) (accounting : Reconciliation) (known reserved : Dict InformationRef)
    (current : Revision) (reader : Result Revision) (v : VerifiedResult)
    → verify p returned request spec accounting known reserved current reader ≡ ok v
    → AllIngestible v.refs known current v.deltas
verify-AllIngestible p returned request spec accounting known reserved current reader v h =
    let a =
      verify-IsVerified p returned request spec accounting known reserved current reader v h in
    check_deltas-AllIngestible a.deltas_run (p.ingestor a.result) v.refs known current v.deltas
      a.derived

-- An accepted finish conforms to the task's output schema, declares only known references that are
-- well formed and Agent-visible, and embeds only those or other known ones.
pub verify_finish-AllKept :
    (p : ResultVerificationPipeline) (proposal : FinishProposal) (task : Task)
    (known : Dict InformationRef) (current : Revision) (d : VerificationDecision)
    → verify_finish p proposal task known current ≡ ok d
    → (schema_errors p.re [] task.output_schema ≡ ok [])
      × (instance_errors p.re [] proposal.structured_output task.output_schema ≡ ok [])
      × ((refs : Dict InformationRef) × AllEntries (IsEntry known known true) refs
          × AllKept refs (map typed_ref (proposal.information_refs ++ proposal.artifact_refs))
          × AllCovered refs known (ref_envelopes proposal.structured_output))
unfolding verify_finish
verify_finish-AllKept p proposal task known current d h =
    let (_, output, h₁) =
      >>=-eq-ok
        (check_output _ p.re finish "INVALID_FINAL_OUTPUT" proposal.structured_output
          task.output_schema)
        _ h in
    let (refs, cited, _) =
      >>=-eq-ok
        (check_refs _ known (map typed_ref (proposal.information_refs ++ proposal.artifact_refs))
          (ref_envelopes proposal.structured_output) known true)
        _ h₁ in
    let (supported, conforms) = check_output-conforms _ p.re _ _ _ _ output in
    let (entries, kept, covered) = check_refs-AllKept _ known _ _ known true refs cited in
    (supported, conforms, (refs, entries, kept, covered))
