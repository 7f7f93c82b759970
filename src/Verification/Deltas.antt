-- ===== src/Verification/Deltas.antt =====
-- The stage V5 of `verify` in src/industrial_agent_runtime/verification.py: the deltas that the
-- consumer's ingestor derives from a result.
use industrial_agent_runtime.Prelude.{
  String, ◌==◌, Bool, true, false, not, ◌&&◌, ◌||◌, Option, none, some, List, [], ◌∷◌, map, Dict,
}
use industrial_agent_runtime.Contracts.{
  InformationRef, Revision, StateDelta, Cited, typed_ref, untyped_ref, is_agent,
}
use industrial_agent_runtime.Decisions.{Result, ok, err, ◌>>◌, refuse_if, v5_ingestion_structure}
use industrial_agent_runtime.Gates.Static.{is_known}
use industrial_agent_runtime.Verification.Run.{Run, rejection}
use industrial_agent_runtime.Verification.References.{is_ref}

-- What the ingestor derives: a delta, or a value that is none or has a wrongly typed field.
pub data Derived : Type 0 where
  typed_delta : StateDelta → Derived
  untyped_delta : Derived

abbrev pub ingestion_producer : String
ingestion_producer = "RESULT_INGESTION"

-- The deltas, where all are well formed.
unfoldable pub well_formed : List Derived → Option (List StateDelta)
well_formed [] = some []
well_formed (untyped_delta ∷ ds) = none
well_formed (typed_delta d ∷ ds) = elim (well_formed ds) [
  | none ↦ none
  | some rest ↦ elim (d.operation == "") [ true ↦ none | false ↦ some (d ∷ rest) ]
]

unfoldable pub hides : Option Cited → Bool
hides none = false
hides (some untyped_ref) = true
hides (some (typed_ref ref)) = not (is_ref ref && is_agent ref.visibility)

unfoldable pub any_hidden : List StateDelta → Bool
any_hidden [] = false
any_hidden (d ∷ ds) = hides d.reason_ref || any_hidden ds

module _ (refs known : Dict InformationRef) where
  unfoldable pub is_unknown : Option Cited → Bool
  is_unknown none = false
  is_unknown (some untyped_ref) = true
  is_unknown (some (typed_ref ref)) = not (is_known refs ref || is_known known ref)

  unfoldable pub any_unknown : List StateDelta → Bool
  any_unknown [] = false
  any_unknown (d ∷ ds) = is_unknown d.reason_ref || any_unknown ds

-- The ingestion binds the current revision, whatever the ingestor says.
unfoldable pub stamp : Revision → StateDelta → StateDelta
stamp current d = record d { producer = ingestion_producer; proposed_base_revision = some current }

-- The reasons of well-formed deltas, and their stamps.
unfoldable pub check_reasons :
    Run → (refs known : Dict InformationRef) → Revision → List StateDelta → Result (List StateDelta)
check_reasons run refs known current ds = do
  refuse_if (any_hidden ds) (rejection run v5_ingestion_structure "HIDDEN_REASON_REF")
  refuse_if (any_unknown refs known ds) (rejection run v5_ingestion_structure "UNKNOWN_REASON_REF")
  ok (map (stamp current) ds)

-- An ingestor that raises rejects.
unfoldable pub check_deltas :
    Run
    → Result (List Derived)
    → (refs known : Dict InformationRef) → Revision
    → Result (List StateDelta)
check_deltas run (err e) refs known current =
    err (rejection run v5_ingestion_structure "INGESTOR_ERROR")
check_deltas run (ok derived) refs known current = elim (well_formed derived) [
  | none ↦ err (rejection run v5_ingestion_structure "MALFORMED_DELTA")
  | some ds ↦ check_reasons run refs known current ds
]
