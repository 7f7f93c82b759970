-- ===== src/Knowledge/Visible.antt =====
-- What the known references of a run are.
use industrial_agent_runtime.Prelude.{
  String, ◌==◌, ◌≡◌, refl, subst, Bool, true, false, List, [], ◌∷◌, Dict, get, has, insert,
  AllEntries, AllEntries-insert, AllEntries-nil, IsDict, eq_iff, arith, if◌then◌else◌, inl, inr,
  Bool-cases,
}
use industrial_agent_runtime.Contracts.{
  InformationRef, Revision, Task, ToolSpec, ToolCallRequest, is_agent,
}
use industrial_agent_runtime.Decisions.{Result, ok}
use industrial_agent_runtime.Gates.Reconcile.{Reconciliation}
use industrial_agent_runtime.Verification.Provenance.{Returned}
use industrial_agent_runtime.Verification.References.Declared.{check_refs-IsDict}
use industrial_agent_runtime.Verification.Outcome.{
  ResultVerificationPipeline, VerifiedResult, verify,
}
use industrial_agent_runtime.Verification.Outcome.Accepted.{verify-IsVerified}
use industrial_agent_runtime.Verification.Outcome.Ingested.{verify-AllCovered}
use industrial_agent_runtime.Knowledge.{gather, start_known, learn}

-- Under its own id, Agent-visible.
abbrev pub IsVisible : String → InformationRef → Type 0
IsVisible id ref = (ref.ref_id ≡ id) × (is_agent ref.visibility ≡ true)

if-AllEntries :
    (b : Bool) (m n : Dict InformationRef)
    → (b ≡ true → AllEntries IsVisible m)
    → (b ≡ false → AllEntries IsVisible n)
    → AllEntries IsVisible (if b then m else n)
if-AllEntries true m n h k = h refl
if-AllEntries false m n h k = k refl

gather-AllEntries :
    (refs : List InformationRef) (known : Dict InformationRef)
    → AllEntries IsVisible known
    → AllEntries IsVisible (gather refs known)
unfolding gather
gather-AllEntries [] known all = all
gather-AllEntries (ref ∷ refs) known all = gather-AllEntries refs _ (
    if-AllEntries (is_agent ref.visibility) (insert ref.ref_id ref known) known
      (λ agent. AllEntries-insert IsVisible known ref.ref_id ref all (refl, agent)) (λ other. all))

-- A run starts with references that stand under their own ids and are Agent-visible.
pub start_known-AllEntries : (task : Task) → AllEntries IsVisible (start_known task)
unfolding start_known
start_known-AllEntries task = gather-AllEntries task.context_refs [] (AllEntries-nil IsVisible)

-- Where no key stands twice, an entry of the tail is one of the whole.
tail-AllEntries :
    (id : String) (ref : InformationRef) (refs : Dict InformationRef)
    → IsDict ((id, ref) ∷ refs)
    → AllEntries IsVisible ((id, ref) ∷ refs)
    → AllEntries IsVisible refs
unfolding get has
tail-AllEntries id ref refs d all k v found = elim (Bool-cases (id == k)) [
  | inl same ↦
      absurd (ground (arith, found, subst (λ i. has i refs ≡ false) ((eq_iff id k).0 same) d.0))
  | inr differs ↦ all k v (ground (arith, differs, found))
]

head-IsVisible :
    (id : String) (ref : InformationRef) (refs : Dict InformationRef)
    → AllEntries IsVisible ((id, ref) ∷ refs)
    → IsVisible id ref
unfolding get
head-IsVisible id ref refs all = all id ref (ground (arith, eq_iff id id))

learn-AllEntries :
    (refs known : Dict InformationRef)
    → AllEntries IsVisible known
    → IsDict refs
    → AllEntries IsVisible refs
    → AllEntries IsVisible (learn known refs)
unfolding learn
learn-AllEntries [] known all d new = all
learn-AllEntries ((id, ref) ∷ refs) known all d new =
    learn-AllEntries refs _
      (if-AllEntries (has ref.ref_id known) known (insert ref.ref_id ref known) (λ held. all)
        (λ free.
          AllEntries-insert IsVisible known ref.ref_id ref all
            (refl, (head-IsVisible id ref refs new).1)))
      d.1 (tail-AllEntries id ref refs d new)

-- The references of an accepted result leave every known reference Agent-visible, under its own id.
pub verify-learn-AllEntries :
    (p : ResultVerificationPipeline) (returned : Returned) (request : ToolCallRequest)
    (spec : ToolSpec) (accounting : Reconciliation) (known reserved : Dict InformationRef)
    (current : Revision) (reader : Result Revision) (v : VerifiedResult)
    → AllEntries IsVisible known
    → verify p returned request spec accounting known reserved current reader ≡ ok v
    → AllEntries IsVisible (learn known v.refs)
verify-learn-AllEntries p returned request spec accounting known reserved current reader v all h =
    let a =
      verify-IsVerified p returned request spec accounting known reserved current reader v h in
    let (_, _, entries, _, _) =
      verify-AllCovered p returned request spec accounting known reserved current reader v h in
    learn-AllEntries v.refs known all
      (check_refs-IsDict a.refs_run known _ _ reserved false v.refs a.cited)
      (λ id ref found. let e = entries id ref found in (e.0, e.1.visible))
