-- ===== src/Verification/References/Declared.antt =====
-- What `check_refs` accepts: each declared reference, kept under its id, and each embedded one.
use industrial_agent_runtime.Prelude.{
  String, ◌≡◌, refl, subst, Bool, true, false, not, ◌&&◌, ◌||◌, some, List, [], ◌∷◌, Dict, get, has,
  insert, get-insert, eq_iff, inl, inr, Option-cases, arith, AllEntries, AllEntries-insert, IsDict,
  insert-IsDict, AllEntries-nil,
}
use industrial_agent_runtime.Json.{Fields, member}
use industrial_agent_runtime.Contracts.{InformationRef, Cited, typed_ref, untyped_ref, is_agent}
use industrial_agent_runtime.Decisions.{
  ok, refuse_if-eq-ok, >>=-eq-ok, ok-injective, VerificationStage,
}
use industrial_agent_runtime.Refs.{parse_ref}
use industrial_agent_runtime.Gates.Static.{is_known}
use industrial_agent_runtime.Verification.Run.{Run}
use industrial_agent_runtime.Verification.References.{
  is_ref, conflicts, names_agent, stage_of, check_ref, check_declared, check_embedded_one,
  check_embedded, check_refs,
}

-- A reference that may reach the agent: well formed, Agent-visible, in no conflict with a reserved
-- one, and known where that is required.
pub record IsPresentable (known reserved : Dict InformationRef) (require_known : Bool)
    (ref : InformationRef) : Type 0 where
  pub shaped : is_ref ref ≡ true
  pub visible : is_agent ref.visibility ≡ true
  pub unreserved : conflicts reserved ref ≡ false
  pub familiar : (require_known && not (is_known known ref)) ≡ false

-- A declared reference that stands under its id among those seen.
abbrev pub IsKept : Dict InformationRef → Cited → Type 0
IsKept seen c = (ref : InformationRef) × (c ≡ typed_ref ref) × (get ref.ref_id seen ≡ some ref)

abbrev pub AllKept : Dict InformationRef → List Cited → Type 0
AllKept seen [] = Unit
AllKept seen (c ∷ cs) = IsKept seen c × AllKept seen cs

-- An embedded reference that says AGENT, and is one of the given references or a known one.
abbrev pub IsCovered : Dict InformationRef → Dict InformationRef → Fields → Type 0
IsCovered seen known envelope =
    (ref : InformationRef) × (names_agent (member "visibility" envelope) ≡ true)
    × (parse_ref envelope ≡ some ref)
    × ((is_known seen ref || is_known known ref) ≡ true)

abbrev pub AllCovered : Dict InformationRef → Dict InformationRef → List Fields → Type 0
AllCovered seen known [] = Unit
AllCovered seen known (e ∷ es) = IsCovered seen known e × AllCovered seen known es

-- Under its own id, presentable.
abbrev pub IsEntry :
    Dict InformationRef → Dict InformationRef → Bool → String → InformationRef → Type 0
IsEntry known reserved require_known id ref =
    (ref.ref_id ≡ id) × IsPresentable known reserved require_known ref

module _ (run : Run) (known : Dict InformationRef) where
  module _ (reserved : Dict InformationRef) (require_known : Bool) where
    check_ref-IsPresentable :
        (seen : Dict InformationRef) (c : Cited) (seen' : Dict InformationRef)
        → check_ref run known reserved require_known seen c ≡ ok seen'
        → (ref : InformationRef) × (c ≡ typed_ref ref)
          × IsPresentable known reserved require_known ref
          × (has ref.ref_id seen ≡ false)
          × (insert ref.ref_id ref seen ≡ seen')
    unfolding check_ref
    check_ref-IsPresentable seen untyped_ref seen' h = absurd (cc)
    check_ref-IsPresentable seen (typed_ref ref) seen' h =
        let (shaped, h₁) = refuse_if-eq-ok (not (is_ref ref)) _ _ h in
        let (visible, h₂) = refuse_if-eq-ok (not (is_agent ref.visibility)) _ _ h₁ in
        let (fresh, h₃) = refuse_if-eq-ok (has ref.ref_id seen) _ _ h₂ in
        let (unreserved, h₄) = refuse_if-eq-ok (conflicts reserved ref) _ _ h₃ in
        let (cited, h₅) = refuse_if-eq-ok (require_known && not (is_known known ref)) _ _ h₄ in
        (
          ref,
          refl,
          record {
            shaped = ground (arith, shaped);
            visible = ground (arith, visible);
            unreserved = unreserved;
            familiar = cited;
          },
          fresh,
          ok-injective h₅,
        )

    -- A later reference never replaces an earlier one.
    check_declared-keeps :
        (cs : List Cited) (seen final : Dict InformationRef) (id : String) (ref : InformationRef)
        → check_declared run known reserved require_known cs seen ≡ ok final
        → get id seen ≡ some ref
        → get id final ≡ some ref
    unfolding check_declared has
    check_declared-keeps [] seen final id ref h found =
        subst (λ d. get id d ≡ some ref) (ok-injective h) found
    check_declared-keeps (c ∷ cs) seen final id ref h found =
        let (seen', first, rest) =
          >>=-eq-ok (check_ref run known reserved require_known seen c) _ h in
        let (r, _, _, fresh, same) = check_ref-IsPresentable seen c seen' first in
        check_declared-keeps cs seen' final id ref rest (
          subst (λ d. get id d ≡ some ref) same
            (ground (arith, get-insert r.ref_id id r seen, eq_iff r.ref_id id, fresh, found)))

    check_declared-AllKept :
        (cs : List Cited) (seen final : Dict InformationRef)
        → check_declared run known reserved require_known cs seen ≡ ok final
        → AllEntries (IsEntry known reserved require_known) seen
        → AllEntries (IsEntry known reserved require_known) final × AllKept final cs
    unfolding check_declared
    check_declared-AllKept [] seen final h all =
        (subst (AllEntries (IsEntry known reserved require_known)) (ok-injective h) all, tt)
    check_declared-AllKept (c ∷ cs) seen final h all =
        let (seen', first, rest) =
          >>=-eq-ok (check_ref run known reserved require_known seen c) _ h in
        let (r, typed, presentable, fresh, same) = check_ref-IsPresentable seen c seen' first in
        let grown = subst (AllEntries (IsEntry known reserved require_known)) same (
          AllEntries-insert (IsEntry known reserved require_known) seen r.ref_id r all
            (refl, presentable)) in
        let (entries, others) = check_declared-AllKept cs seen' final rest grown in
        let stored : get r.ref_id seen' ≡ some r =
          subst (λ d. get r.ref_id d ≡ some r) same
            (ground (arith, get-insert r.ref_id r.ref_id r seen, eq_iff r.ref_id r.ref_id)) in
        (entries, ((r, typed, check_declared-keeps cs seen' final r.ref_id r rest stored), others))

  check_embedded_one-IsCovered :
      (stage : VerificationStage) (seen : Dict InformationRef) (e : Fields)
      → check_embedded_one run known stage seen e ≡ ok tt
      → IsCovered seen known e
  unfolding check_embedded_one
  check_embedded_one-IsCovered stage seen e h =
      let (says, h₁) = refuse_if-eq-ok (not (names_agent (member "visibility" e))) _ _ h in
      elim (Option-cases (parse_ref e)) [
        | inl absent ↦ absurd (ground (arith, absent, h₁))
        | inr (ref, parsed) ↦ (ref, ground (arith, says), parsed, ground (arith, parsed, h₁))
      ]

  check_embedded-AllCovered :
      (stage : VerificationStage) (seen : Dict InformationRef) (es : List Fields)
      → check_embedded run known stage seen es ≡ ok tt
      → AllCovered seen known es
  unfolding check_embedded
  check_embedded-AllCovered stage seen [] h = tt
  check_embedded-AllCovered stage seen (e ∷ es) h =
      let (_, first, rest) = >>=-eq-ok (check_embedded_one run known stage seen e) _ h in
      (
        check_embedded_one-IsCovered stage seen e first,
        check_embedded-AllCovered stage seen es rest,
      )

-- The references that come out are presentable and stand under their ids, every declared one is among
-- them, and every embedded one is one of them or a known one.
pub check_refs-AllKept :
    (run : Run) (known : Dict InformationRef) (refs : List Cited) (embedded : List Fields)
    (reserved : Dict InformationRef) (require_known : Bool) (seen : Dict InformationRef)
    → check_refs run known refs embedded reserved require_known ≡ ok seen
    → AllEntries (IsEntry known reserved require_known) seen
      × AllKept seen refs
      × AllCovered seen known embedded
unfolding check_refs
check_refs-AllKept run known refs embedded reserved require_known seen h =
    let (seen', declared, rest) =
      >>=-eq-ok (check_declared run known reserved require_known refs []) _ h in
    let (_, covered, same) =
      >>=-eq-ok (check_embedded run known (stage_of require_known) seen' embedded) _ rest in
    let (entries, kept) =
      check_declared-AllKept run known reserved require_known refs [] seen' declared
        (AllEntries-nil (IsEntry known reserved require_known)) in
    subst
      (λ d.
        AllEntries (IsEntry known reserved require_known) d
        × AllKept d refs
        × AllCovered d known embedded)
      (ok-injective same)
      (entries, kept, check_embedded-AllCovered run known _ seen' embedded covered)

check_declared-IsDict :
    (run : Run) (known reserved : Dict InformationRef) (require_known : Bool) (cs : List Cited)
    (seen final : Dict InformationRef)
    → check_declared run known reserved require_known cs seen ≡ ok final
    → IsDict seen
    → IsDict final
unfolding check_declared
check_declared-IsDict run known reserved require_known [] seen final h d =
    subst IsDict (ok-injective h) d
check_declared-IsDict run known reserved require_known (c ∷ cs) seen final h d =
    let (seen', first, rest) = >>=-eq-ok (check_ref run known reserved require_known seen c) _ h in
    let (r, _, _, _, same) =
      check_ref-IsPresentable run known reserved require_known seen c seen' first in
    check_declared-IsDict run known reserved require_known cs seen' final rest
      (subst IsDict same (insert-IsDict r.ref_id r seen d))

-- No id stands twice among the references that come out.
pub check_refs-IsDict :
    (run : Run) (known : Dict InformationRef) (refs : List Cited) (embedded : List Fields)
    (reserved : Dict InformationRef) (require_known : Bool) (seen : Dict InformationRef)
    → check_refs run known refs embedded reserved require_known ≡ ok seen
    → IsDict seen
unfolding check_refs
check_refs-IsDict run known refs embedded reserved require_known seen h =
    let (seen', declared, rest) =
      >>=-eq-ok (check_declared run known reserved require_known refs []) _ h in
    let (_, _, same) =
      >>=-eq-ok (check_embedded run known (stage_of require_known) seen' embedded) _ rest in
    subst IsDict (ok-injective same)
      (check_declared-IsDict run known reserved require_known refs [] seen' declared tt)
