-- ===== src/Verification/Outcome/Accepted.antt =====
-- What an accepted result guarantees: the stages that `verify` passed, each with its outcome.
use industrial_agent_runtime.Prelude.{
  String, ◌==◌, ◌≡◌, ◌∙◌, refl, subst, ap, Bool, true, false, not, some, List, [], ◌∷◌, ◌++◌, Dict,
  is_nil, eq_iff, arith,
}
use industrial_agent_runtime.Json.{Json}
use industrial_agent_runtime.Contracts.{
  InformationRef, Revision, ToolSpec, ToolCallRequest, ToolResult, eqb_revision,
}
use industrial_agent_runtime.Decisions.{
  Result, ok, err, refuse_if-eq-ok, >>=-eq-ok, ok-injective, VerificationStage, v0_identity,
  v1_provenance, v2_output_schema, v3_refs, v4_accounting, v5_ingestion_structure, v6_revision,
}
use industrial_agent_runtime.Schema.{Regex, schema_errors}
use industrial_agent_runtime.Schema.Instance.{instance_errors}
use industrial_agent_runtime.Refs.{ref_envelopes}
use industrial_agent_runtime.Gates.Reconcile.{Reconciliation}
use industrial_agent_runtime.Verification.Run.{Run, pass, accept}
use industrial_agent_runtime.Verification.References.{check_refs}
use industrial_agent_runtime.Verification.Provenance.{
  Returned, tool_result, untyped_result, check_identity, check_provenance, check_output,
}
use industrial_agent_runtime.Verification.Deltas.{check_deltas}
use industrial_agent_runtime.Verification.Outcome.{
  ResultVerificationPipeline, VerifiedResult, verify, check_verdict,
}

abbrev all_stages : List VerificationStage
all_stages =
    v0_identity ∷ v1_provenance ∷ v2_output_schema ∷ v3_refs ∷ v4_accounting
    ∷ v5_ingestion_structure ∷ VerificationStage.consumer ∷ v6_revision ∷ []

module _ (p : ResultVerificationPipeline) (returned : Returned) (request : ToolCallRequest)
    (spec : ToolSpec) (accounting : Reconciliation) (known reserved : Dict InformationRef)
    (current : Revision) (reader : Result Revision) (v : VerifiedResult) where
  -- The stages, passed.
  pub record IsVerified : Type 0 where
    pub result : ToolResult
    pub typed : returned ≡ tool_result result
    pub bound : result.request_id ≡ request.request_id
    pub succeeded : result.status ≡ "SUCCESS"
    pub supported : schema_errors p.re [] spec.output_schema ≡ ok []
    pub conforms : instance_errors p.re [] result.structured_output spec.output_schema ≡ ok []
    pub accounted : accounting.violations ≡ []
    pub agreed : p.verifier result request spec v.deltas current ≡ ok true
    pub now : Revision
    pub read : reader ≡ ok now
    pub unchanged : eqb_revision now current ≡ true
    pub decided : v.decision ≡ record {
      subject_id = request.request_id;
      accepted = true;
      stage = VerificationStage.other "VERIFIED";
      reason_code = "VERIFIED";
      expected_state_revision = some current;
      passed_stages = all_stages;
    }
    pub refs_run : Run
    pub cited :
        check_refs refs_run known
          (result.information_refs ++ result.artifact_refs)
          (ref_envelopes result.structured_output)
          reserved
          false
        ≡ ok v.refs
    pub deltas_run : Run
    pub derived : check_deltas deltas_run (p.ingestor result) v.refs known current ≡ ok v.deltas

check_identity-bound :
    (run : Run) (returned : Returned) (request : ToolCallRequest) (r : ToolResult)
    → check_identity run returned request ≡ ok r
    → (returned ≡ tool_result r) × (r.request_id ≡ request.request_id) × (r.status ≡ "SUCCESS")
unfolding check_identity
check_identity-bound run untyped_result request r h = absurd (cc)
check_identity-bound run (tool_result t) request r h =
    let (bound, h₁) = refuse_if-eq-ok (not (t.request_id == request.request_id)) _ _ h in
    let (succeeded, h₂) = refuse_if-eq-ok (not (t.status == "SUCCESS")) _ _ h₁ in
    let same : t ≡ r = ok-injective h₂ in
    (
      ap tool_result same,
      subst (λ s. s.request_id ≡ request.request_id) same
          ((eq_iff t.request_id request.request_id).0 (ground (arith, bound))),
      subst (λ s. s.status ≡ "SUCCESS") same
          ((eq_iff t.status "SUCCESS").0 (ground (arith, succeeded))),
    )

nil_of {ℓ} : {A : Type ℓ} (xs : List A) → not (is_nil xs) ≡ false → xs ≡ []
nil_of [] h = refl
nil_of (x ∷ xs) h = absurd (cc)

pub check_output-conforms :
    (run : Run) (re : Regex) (stage : VerificationStage) (code : String) (output schema : Json)
    → check_output run re stage code output schema ≡ ok tt
    → (schema_errors re [] schema ≡ ok []) × (instance_errors re [] output schema ≡ ok [])
unfolding check_output
check_output-conforms run re stage code output schema h =
    let (unsupported, es, h₁) = >>=-eq-ok (schema_errors re [] schema) _ h in
    let (supported, h₂) = refuse_if-eq-ok (not (is_nil unsupported)) _ _ h₁ in
    let (problems, ep, h₃) = >>=-eq-ok (instance_errors re [] output schema) _ h₂ in
    (es ∙ ap ok (nil_of unsupported supported), ep ∙ ap ok (nil_of problems (ground (arith, h₃))))

check_verdict-agreed :
    (run : Run) (verdict : Result Bool) → check_verdict run verdict ≡ ok tt → verdict ≡ ok true
unfolding check_verdict
check_verdict-agreed run (err e) h = absurd (cc)
check_verdict-agreed run (ok true) h = refl
check_verdict-agreed run (ok false) h = absurd (cc)

-- An accepted result is typed, bound to its request and successful; its output conforms to the
-- ToolSpec's schema; its accounting has no violation; the consumer answered True for exactly the
-- deltas that are ingested; the task state is still at the revision of the verification; and the
-- decision names the request, that revision and all eight stages.
pub verify-IsVerified :
    (p : ResultVerificationPipeline) (returned : Returned) (request : ToolCallRequest)
    (spec : ToolSpec) (accounting : Reconciliation) (known reserved : Dict InformationRef)
    (current : Revision) (reader : Result Revision) (v : VerifiedResult)
    → verify p returned request spec accounting known reserved current reader ≡ ok v
    → IsVerified p returned request spec accounting known reserved current reader v
unfolding verify pass accept
verify-IsVerified p returned request spec accounting known reserved current reader v h =
    let (r, identity, h₁) = >>=-eq-ok (check_identity _ returned request) _ h in
    let (_, provenance, h₂) = >>=-eq-ok (check_provenance _ r.provenance request spec) _ h₁ in
    let (_, output, h₃) =
      >>=-eq-ok
        (check_output _ p.re v2_output_schema "INVALID_OUTPUT" r.structured_output
          spec.output_schema)
        _ h₂ in
    let (refs, cited, h₄) =
      >>=-eq-ok
        (check_refs _ known (r.information_refs ++ r.artifact_refs)
          (ref_envelopes r.structured_output) reserved false)
        _ h₃ in
    let (accounted, h₅) = refuse_if-eq-ok (not (is_nil accounting.violations)) _ _ h₄ in
    let (deltas, derived, h₆) = >>=-eq-ok (check_deltas _ (p.ingestor r) refs known current) _ h₅ in
    let (_, verdict, h₇) =
      >>=-eq-ok (check_verdict _ (p.verifier r request spec deltas current)) _ h₆ in
    let (now, read, h₈) = >>=-eq-ok reader _ h₇ in
    let (unchanged, h₉) = refuse_if-eq-ok (not (eqb_revision now current)) _ _ h₈ in
    let (typed, bound, succeeded) = check_identity-bound _ returned request r identity in
    let (supported, conforms) = check_output-conforms _ p.re _ _ _ _ output in
    subst (IsVerified p returned request spec accounting known reserved current reader)
      (ok-injective h₉)
      (record {
        result = r;
        typed = typed;
        bound = bound;
        succeeded = succeeded;
        supported = supported;
        conforms = conforms;
        accounted = nil_of accounting.violations accounted;
        agreed = check_verdict-agreed _ _ verdict;
        now = now;
        read = read;
        unchanged = ground (arith, unchanged);
        decided = refl;
        refs_run = _;
        cited = cited;
        deltas_run = _;
        derived = derived;
      })
