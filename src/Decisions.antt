-- ===== src/Decisions.antt =====
-- The decisions of hooks.py and verification.py, and the exceptions that the program raises, as values.
-- The free text of a decision's `reason` is left out; its `reason_code` is kept.
use industrial_agent_runtime.Prelude.{
  ℕ, String, ◌≡◌, refl, Bool, true, false, Option, none, some, List, [], ◌∷◌, Dict, arith, contains,
  ◌==◌, eq_iff, eq_refl, Bool-cases, inl, inr, subst,
}
use industrial_agent_runtime.Contracts.{Revision, InformationRef}

-- `GateDecision.decision`, which its constructor checks.
pub data Verdict : Type 0 where
  allow deny require_approval : Verdict

-- `GateStage`; a consumer's decision names its stage itself.
pub data GateStage : Type 0 where
  g0_schema g1_authority g2_budget g3_side_effect consumer approval dispatch : GateStage
  other : String → GateStage

pub record GateDecision : Type 0 where
  pub request_id : String
  pub decision : Verdict
  pub stage : GateStage
  pub reason_code : String
  pub policy_version : String
  pub validator_refs : List InformationRef
  pub reserved_budget_draw : Dict ℕ
  pub expected_state_revision : Option Revision
  pub normalized_request_ref : Option InformationRef

-- `VerificationStage`; an acceptance names its stage `VERIFIED`.
pub data VerificationStage : Type 0 where
  v0_identity v1_provenance v2_output_schema v3_refs v4_accounting : VerificationStage
  v5_ingestion_structure consumer v6_revision finish : VerificationStage
  other : String → VerificationStage

pub record VerificationDecision : Type 0 where
  pub subject_id : String
  pub accepted : Bool
  pub stage : VerificationStage
  pub reason_code : String
  pub expected_state_revision : Option Revision
  pub passed_stages : List VerificationStage

-- `GateDenied`, `VerificationRejected` and `Denied` are the program's own exceptions.
pub data Error : Type 0 where
  gate_denied : GateDecision → Error
  verification_rejected : VerificationDecision → Error
  denied : String → Error
  invariant_violation : Error
  value_error type_error key_error attribute_error overflow_error : Error
  -- what a hook raised
  raised : String → Error

pub data Result {ℓ} (A : Type ℓ) : Type ℓ where
  err : Error → Result A
  ok : A → Result A

infixl 5 ◌>>◌ ◌>>=◌
abbrev pub ◌>>=◌ {ℓ κ} : {A : Type ℓ} {B : Type κ} → Result A → (A → Result B) → Result B
err e >>= next = err e
ok value >>= next = next value

abbrev pub ◌>>◌ {ℓ} : {B : Type ℓ} → Result (Unit {0}) → Result B → Result B
test >> rest = test >>= λ _. rest

-- `if bad: raise e`
abbrev pub refuse_if : Bool → Error → Result (Unit {0})
refuse_if true e = err e
refuse_if false e = ok tt

-- The value, or the exception for `None`.
abbrev pub or_raise {ℓ} : {A : Type ℓ} → Option A → Error → Result A
or_raise none e = err e
or_raise (some a) e = ok a

pub ok-injective {ℓ} : {A : Type ℓ} {a b : A} → ok a ≡ ok b → a ≡ b
ok-injective h = cc

pub >>=-eq-ok {ℓ κ} :
    {A : Type ℓ} {B : Type κ} (step : Result A) (next : A → Result B) {answer : B}
    → (step >>= next) ≡ ok answer
    → (value : A) × (step ≡ ok value) × (next value ≡ ok answer)
>>=-eq-ok (err e) next h = absurd (cc)
>>=-eq-ok (ok value) next h = (value, refl, h)

-- A test that did not raise failed, and the rest ran.
pub refuse_if-eq-ok {ℓ} :
    {A : Type ℓ} (b : Bool) (e : Error) (k : Result A) {a : A}
    → (refuse_if b e >> k) ≡ ok a
    → (b ≡ false) × (k ≡ ok a)
refuse_if-eq-ok true e k h = absurd (cc)
refuse_if-eq-ok false e k h = (refl, h)

-- A loop over names whose body may raise.
unfoldable pub for_each : List String → (String → Result (Unit {0})) → Result (Unit {0})
for_each [] body = ok tt
for_each (n ∷ ns) body = body n >> for_each ns body

-- A loop that ends without raising has run its body on every name.
pub for_each-at :
    (ns : List String) (body : String → Result (Unit {0})) (n : String)
    → for_each ns body ≡ ok tt
    → contains n ns ≡ true
    → body n ≡ ok tt
unfolding for_each contains
for_each-at [] body n h m = absurd (cc)
for_each-at (x ∷ ns) body n h m =
    let (_, first, rest) = >>=-eq-ok (body x) (λ _. for_each ns body) h in
    elim (Bool-cases (x == n)) [
      | inl same ↦ subst (λ k. body k ≡ ok tt) ((eq_iff x n).0 same) first
      | inr differs ↦ for_each-at ns body n rest (ground arith)
    ]

pub for_each_all :
    (ns : List String) (body : String → Result (Unit {0}))
    → ((n : String) → contains n ns ≡ true → body n ≡ ok tt)
    → for_each ns body ≡ ok tt
unfolding for_each contains
for_each_all [] body h = refl
for_each_all (x ∷ ns) body h =
    rw (h x (rw eq_refl)) (for_each_all ns body (λ n m. h n (ground arith)))
