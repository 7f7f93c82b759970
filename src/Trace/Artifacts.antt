-- ===== src/Trace/Artifacts.antt =====
-- Projection artifacts in src/industrial_agent_runtime/trace.py: what is persisted is read back, and nothing
-- is overwritten.
use industrial_agent_runtime.Prelude.{
  String, ◌==◌, ◌≡◌, ◌∙◌, refl, sym, ap, subst, true, not, Option, none, some, Dict, get, insert,
  get-insert, arith, eq_iff, eq_refl, inl, inr, Option-cases, Bool-cases,
}
use industrial_agent_runtime.Json.{Json, string}
use industrial_agent_runtime.Contracts.{InformationRef}
use industrial_agent_runtime.Decisions.{
  ok, ◌>>◌, >>=-eq-ok, refuse_if-eq-ok, ok-injective, or_raise, refuse_if, value_error, raised,
}
use industrial_agent_runtime.Trace.Digest.{is_digest}
use industrial_agent_runtime.Trace.{
  Codec, TraceRecorder, artifact_name, artifact_ref, write_artifact, store_artifact,
  persist_projection, digest_of, read_artifact, read_projection,
}

-- What the writing of an artifact leaves: the artifact, and every earlier one.
pub record IsStored (digest payload : String) (before after : Dict String) : Type 0 where
  pub there : get digest after ≡ some payload
  pub kept : (k v : String) → get k before ≡ some v → get k after ≡ some v

module _ (codec : Codec) where
  store_artifact-absent :
      (digest payload : String) (before : Dict String)
      → get digest before ≡ none
      → store_artifact digest payload before ≡ ok (insert digest payload before)
  unfolding store_artifact write_artifact
  store_artifact-absent digest payload before absent =
      ap (λ o. write_artifact o digest payload before) absent

  store_artifact-held :
      (digest payload : String) (before : Dict String) (held : String)
      → get digest before ≡ some held
      → store_artifact digest payload before
        ≡ (refuse_if (not (held == payload)) value_error >> ok before)
  unfolding store_artifact write_artifact
  store_artifact-held digest payload before held found =
      ap (λ o. write_artifact o digest payload before) found

  store_artifact-IsStored :
      (digest payload : String) (before after : Dict String)
      → store_artifact digest payload before ≡ ok after
      → IsStored digest payload before after
  store_artifact-IsStored digest payload before after h = elim (Option-cases (get digest before)) [
    | inl absent ↦
        subst (IsStored digest payload before)
          (ok-injective (sym (store_artifact-absent digest payload before absent) ∙ h))
          (record {
            there = get-insert digest digest payload before ∙ ground (arith, eq_refl digest);
            kept = λ k v found. elim (Bool-cases (digest == k)) [
              | inl same ↦
                  absurd (
                    ground
                      (arith, absent, found, ap (λ i. get i before) ((eq_iff digest k).0 same)))
              | inr differs ↦ get-insert digest k payload before ∙ ground (arith, differs, found)
            ];
          })
    | inr (held, found) ↦
        let (same, kept) =
          refuse_if-eq-ok (not (held == payload)) value_error _
            (sym (store_artifact-held digest payload before held found) ∙ h) in
        subst (IsStored digest payload before) (ok-injective kept) (record {
          there = found ∙ ap (λ v. some v) ((eq_iff held payload).0 (ground (arith, same)));
          kept = λ k v e. e;
        })
  ]

  -- A reference that the recorder makes names its digest.
  digest_of-artifact_ref :
      (digest created_at : String)
      → is_digest digest ≡ true
      → digest_of codec (artifact_ref digest created_at) (string digest) ≡ ok digest
  unfolding digest_of artifact_ref
  digest_of-artifact_ref digest created_at hex = rw hex (rw (eq_refl (artifact_name digest)) refl)

  read_back :
      (after : TraceRecorder) (digest created_at payload : String) (read : Json)
      → is_digest digest ≡ true
      → codec.sha256 payload ≡ digest
      → get digest after.artifacts ≡ some payload
      → codec.loads payload ≡ some read
      → read_projection codec after (artifact_ref digest created_at) ≡ ok read
  unfolding read_projection read_artifact artifact_ref
  read_back after digest created_at payload read hex sums there loads =
      rw (digest_of-artifact_ref digest created_at hex)
        (rw there (rw sums (rw (eq_refl digest) (rw loads))))

  -- What an artifact reads as stays so where the artifacts grow.
  read_artifact-kept :
      (digest : String) (before after : Dict String) (j : Json)
      → ((k v : String) → get k before ≡ some v → get k after ≡ some v)
      → read_artifact codec digest before ≡ ok j
      → read_artifact codec digest after ≡ ok j
  unfolding read_artifact
  read_artifact-kept digest before after j kept h =
      let (payload, found, rest) =
        >>=-eq-ok (or_raise (get digest before) (raised "FileNotFoundError")) _ h in
      rw (kept digest payload (present (get digest before) found)) rest
    where
      present :
          {payload : String} (o : Option String)
          → or_raise o (raised "FileNotFoundError") ≡ ok payload
          → o ≡ some payload
      present none e = absurd (cc)
      present (some v) e = ap (λ x. some x) (ok-injective e)

  read_projection-kept :
      (before after : TraceRecorder) (ref : InformationRef) (j : Json)
      → ((k v : String) → get k before.artifacts ≡ some v → get k after.artifacts ≡ some v)
      → read_projection codec before ref ≡ ok j
      → read_projection codec after ref ≡ ok j
  unfolding read_projection
  read_projection-kept before after ref j kept h =
      let (digest, named, read) = >>=-eq-ok (digest_of codec ref ref.checksum) _ h in
      rw named (read_artifact-kept digest before.artifacts after.artifacts j kept read)

  -- A projection that is persisted is read back by its reference, as the value that its text loads as,
  -- and every projection that could be read before is read as before. The digests are SHA-256 texts.
  pub persist_projection-read_projection :
      (before after : TraceRecorder) (projection read : Json) (created_at : String)
      (ref : InformationRef)
      → ((text : String) → is_digest (codec.sha256 text) ≡ true)
      → codec.loads (codec.canonical_json projection) ≡ some read
      → persist_projection codec before projection created_at ≡ ok (ref, after)
      → (read_projection codec after ref ≡ ok read)
        × ((other : InformationRef) (j : Json)
            → read_projection codec before other ≡ ok j
            → read_projection codec after other ≡ ok j)
  unfolding persist_projection artifact_ref
  persist_projection-read_projection before after projection read created_at ref hex loads h =
      let payload = codec.canonical_json projection in
      let digest = codec.sha256 payload in
      let (artifacts, stored, same) =
        >>=-eq-ok (store_artifact digest payload before.artifacts) _ h in
      let is = store_artifact-IsStored digest payload before.artifacts artifacts stored in
      let later : artifacts ≡ after.artifacts = ap (λ r. r.1.artifacts) (ok-injective same) in
      let kept = λ (k v : String) (e : get k before.artifacts ≡ some v).
        subst (λ m. get k m ≡ some v) later (is.kept k v e) in
      (
        subst (λ r. read_projection codec after r ≡ ok read) (ap (λ r. r.0) (ok-injective same))
            (read_back after digest created_at payload read (hex payload) refl
              (subst (λ m. get digest m ≡ some payload) later is.there) loads),
        λ other j. read_projection-kept before after other j kept,
      )
