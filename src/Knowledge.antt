-- ===== src/Knowledge.antt =====
-- The references that a request may cite, as src/industrial_agent_runtime/coordinator.py keeps them:
-- `known_refs` of `__init__`, and what `_ingest` adds to it.
pub mod Visible
use industrial_agent_runtime.Prelude.{String, List, [], ◌∷◌, Dict, has, insert, if◌then◌else◌}
use industrial_agent_runtime.Contracts.{InformationRef, Task, is_agent}

-- `{ref.ref_id: ref for ref in refs if ref.visibility == AGENT}`
unfoldable pub gather : List InformationRef → Dict InformationRef → Dict InformationRef
gather [] known = known
gather (ref ∷ refs) known =
    gather refs (if is_agent ref.visibility then insert ref.ref_id ref known else known)

unfoldable pub start_known : Task → Dict InformationRef
start_known task = gather task.context_refs []

-- `known_refs.setdefault(ref.ref_id, ref)` for every reference of a verified result.
unfoldable pub learn : Dict InformationRef → Dict InformationRef → Dict InformationRef
learn known [] = known
learn known ((id, ref) ∷ refs) =
    learn (if has ref.ref_id known then known else insert ref.ref_id ref known) refs
