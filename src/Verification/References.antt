-- ===== src/Verification/References.antt =====
-- `_is_ref` and `check_refs` of src/industrial_agent_runtime/verification.py.
pub mod Declared
use industrial_agent_runtime.Prelude.{
  String, ◌==◌, Bool, true, false, not, ◌&&◌, ◌||◌, Option, none, some, List, [], ◌∷◌, Dict, get,
  has, insert,
}
use industrial_agent_runtime.Json.{Json, null, string, Fields, member}
use industrial_agent_runtime.Contracts.{
  InformationRef, Cited, typed_ref, untyped_ref, is_agent, eqb_ref,
}
use industrial_agent_runtime.Decisions.{
  Result, ok, err, ◌>>=◌, ◌>>◌, refuse_if, VerificationStage, v3_refs, finish,
}
use industrial_agent_runtime.Refs.{parse_ref}
use industrial_agent_runtime.Gates.Static.{is_known}
use industrial_agent_runtime.Verification.Run.{Run, rejection}

-- `None` or a nonempty string.
unfoldable pub is_checksum : Json → Bool
is_checksum null = true
is_checksum (string s) = not (s == "")
is_checksum _ = false

unfoldable pub is_ref : InformationRef → Bool
unfolding is_checksum
is_ref ref =
    not (ref.ref_id == "")
    && (not (ref.kind == "")
        && (not (ref.owner == "")
            && (not (ref.version == "")
                && (not (ref.created_at == "") && is_checksum ref.checksum))))

-- `reserved.get(ref.ref_id, ref) != ref`
unfoldable pub conflicts : Dict InformationRef → InformationRef → Bool
conflicts reserved ref = elim (get ref.ref_id reserved) [
  | none ↦ false
  | some r ↦ not (eqb_ref r ref)
]

unfoldable pub names_agent : Option Json → Bool
names_agent (some (string s)) = s == "AGENT"
names_agent _ = false

unfoldable pub stage_of : (require_known : Bool) → VerificationStage
stage_of true = finish
stage_of false = v3_refs

module _ (run : Run) (known : Dict InformationRef) where
  module _ (reserved : Dict InformationRef) (require_known : Bool) where
    -- One round of the first loop, on the references seen before.
    unfoldable pub check_ref : Dict InformationRef → Cited → Result (Dict InformationRef)
    check_ref seen untyped_ref = err (rejection run (stage_of require_known) "MALFORMED_REF")
    check_ref seen (typed_ref ref) = do
      let stage = stage_of require_known
      refuse_if (not (is_ref ref)) (rejection run stage "MALFORMED_REF")
      refuse_if (not (is_agent ref.visibility)) (rejection run stage "HIDDEN_REF")
      refuse_if (has ref.ref_id seen) (rejection run stage "DUPLICATE_REF_ID")
      refuse_if (conflicts reserved ref) (rejection run stage "REF_ID_CONFLICT")
      refuse_if (require_known && not (is_known known ref)) (rejection run stage "UNKNOWN_REF")
      ok (insert ref.ref_id ref seen)

    unfoldable pub check_declared : List Cited → Dict InformationRef → Result (Dict InformationRef)
    check_declared [] seen = ok seen
    check_declared (c ∷ cs) seen = do seen' ← check_ref seen c; check_declared cs seen'

  -- One round of the second loop.
  unfoldable pub check_embedded_one :
      VerificationStage → Dict InformationRef → Fields → Result (Unit {0})
  check_embedded_one stage seen envelope = do
    refuse_if (not (names_agent (member "visibility" envelope)))
        (rejection run stage "HIDDEN_REF_IN_OUTPUT")
    elim (parse_ref envelope) [
      | none ↦ err (rejection run stage "MALFORMED_REF")
      | some ref ↦
          refuse_if (not (is_known seen ref || is_known known ref))
            (rejection run stage "UNDECLARED_REF_IN_OUTPUT")
    ]

  unfoldable pub check_embedded :
      VerificationStage → Dict InformationRef → List Fields → Result (Unit {0})
  check_embedded stage seen [] = ok tt
  check_embedded stage seen (e ∷ es) =
      check_embedded_one stage seen e >> check_embedded stage seen es

  -- The references by their ids, in the order in which they are declared.
  unfoldable pub check_refs :
      List Cited
      → List Fields
      → (reserved : Dict InformationRef) → (require_known : Bool) → Result (Dict InformationRef)
  check_refs refs embedded reserved require_known = do
    seen ← check_declared reserved require_known refs []
    check_embedded (stage_of require_known) seen embedded
    ok seen
