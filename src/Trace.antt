-- ===== src/Trace.antt =====
-- `TraceRecorder` of src/industrial_agent_runtime/trace.py: projection artifacts under their digests, and
-- the text of the event file. The directory is a dict from file names to contents. Its operations
-- do not fail by themselves: a disc that refuses is not modelled.
pub mod Digest
pub mod Artifacts
use industrial_agent_runtime.Prelude.{
  String, ◌==◌, Bool, true, false, not, ◌&&◌, ◌||◌, Option, none, some, List, [], ◌∷◌, ◌++◌, Dict,
  get, insert, if◌then◌else◌,
}
use Prim.Native.String.{◌++◌ as ◌+++◌}
use industrial_agent_runtime.Json.{Json, string, object, Fields, member}
use industrial_agent_runtime.Contracts.{InformationRef, internal}
use industrial_agent_runtime.Decisions.{
  Result, ok, err, Error, value_error, key_error, type_error, raised, ◌>>=◌, ◌>>◌, refuse_if,
  or_raise,
}
use industrial_agent_runtime.Trace.Digest.{is_digest}

-- Python's library: the canonical text of a value (`json.dumps`), its SHA-256 as hexadecimal text, and
-- `json.loads`, none for a text that is no JSON, and the lines of a text (`str.splitlines`).
pub record Codec : Type 0 where
  pub canonical_json : Json → String
  pub sha256 : String → String
  pub loads : String → Option Json
  pub splitlines : String → List String

-- `artifacts` by digest, and the text of the event file, empty where there is none.
pub record TraceRecorder : Type 0 where
  pub artifacts : Dict String
  pub events : String

-- The part of an event that `append` reads: its type, its task and the projection of a MODEL_TURN.
pub record TraceEvent : Type 0 where
  pub type : String
  pub task_id : String
  pub context_projection_ref : Option InformationRef
  pub value : Json

unfoldable pub artifact_name : String → String
artifact_name digest = "projections/" +++ (digest +++ ".json")

unfoldable pub artifact_ref : (digest created_at : String) → InformationRef
unfolding artifact_name
artifact_ref digest created_at = record {
  ref_id = artifact_name digest;
  kind = "ContextProjection";
  owner = "industrial-agent-runtime";
  version = "v0";
  visibility = internal;
  created_at = created_at;
  checksum = string digest;
}

-- A new artifact is written; one that is there must hold the same text.
unfoldable pub write_artifact :
    (held : Option String) → (digest payload : String) → Dict String → Result (Dict String)
write_artifact none digest payload artifacts = ok (insert digest payload artifacts)
write_artifact (some held) digest payload artifacts =
    refuse_if (not (held == payload)) value_error >> ok artifacts

unfoldable pub store_artifact : (digest payload : String) → Dict String → Result (Dict String)
store_artifact digest payload artifacts =
    write_artifact (get digest artifacts) digest payload artifacts

module _ (codec : Codec) where
  unfoldable pub persist_projection :
      TraceRecorder
      → (projection : Json) → (created_at : String) → Result (InformationRef × TraceRecorder)
  persist_projection trace projection created_at = do
    let payload = codec.canonical_json projection
    let digest = codec.sha256 payload
    artifacts ← store_artifact digest payload trace.artifacts
    ok (artifact_ref digest created_at, record trace { artifacts = artifacts })

  -- The digest of a reference to an artifact.
  unfoldable pub digest_of : InformationRef → Json → Result String
  digest_of ref (string digest) = do
    refuse_if
        (not (is_digest digest)
          || not (ref.ref_id == artifact_name digest)
          || not (ref.kind == "ContextProjection")
          || not (ref.owner == "industrial-agent-runtime"))
        value_error
    ok digest
  digest_of ref _ = err value_error

  unfoldable pub read_artifact : String → Dict String → Result Json
  read_artifact digest artifacts = do
    payload ← or_raise (get digest artifacts) (raised "FileNotFoundError")
    refuse_if (not (codec.sha256 payload == digest)) value_error
    or_raise (codec.loads payload) value_error

  unfoldable pub read_projection : TraceRecorder → InformationRef → Result Json
  read_projection trace ref = do
    digest ← digest_of ref ref.checksum
    read_artifact digest trace.artifacts

  -- `projection["task_id"] != event.task_id`
  unfoldable pub is_of_task : Json → String → Result Bool
  is_of_task (object fs) task_id = elim (member "task_id" fs) [
    | none ↦ err key_error
    | some (string id) ↦ ok (id == task_id)
    | some _ ↦ ok false
  ]
  is_of_task _ task_id = err type_error

  unfoldable pub check_projection_ref : TraceRecorder → TraceEvent → Result (Unit {0})
  check_projection_ref trace event = do
    ref ← or_raise event.context_projection_ref value_error
    projection ← read_projection trace ref
    same ← is_of_task projection event.task_id
    refuse_if (not same) value_error

  unfoldable pub append : TraceRecorder → TraceEvent → Result TraceRecorder
  append trace event = do
    elim (event.type == "MODEL_TURN") [ true ↦ check_projection_ref trace event | false ↦ ok tt ]
    ok (record trace { events = trace.events +++ (codec.canonical_json event.value +++ "\n") })

  unfoldable pub load_lines : List String → Result (List Json)
  load_lines [] = ok []
  load_lines (line ∷ lines) = do
    event ← or_raise (codec.loads line) value_error
    rest ← load_lines lines
    ok (event ∷ rest)

  unfoldable pub read_events : TraceRecorder → Result (List Json)
  read_events trace = load_lines (codec.splitlines trace.events)
