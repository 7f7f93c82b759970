-- ===== src/Examples/Recording.antt =====
-- The theorems on the recorder, and a value in its JSON form.
use industrial_agent_runtime.Prelude.{
  ◌≤◌, arith, String, ◌≡◌, refl, get, insert, true, some, [], ◌∷◌, pos,
}
use industrial_agent_runtime.Json.{Json, object, end, field, string, int, array, cons, nil}
use industrial_agent_runtime.Contracts.{InformationRef}
use industrial_agent_runtime.Decisions.{ok}
use industrial_agent_runtime.Serialization.{
  Value, writable, dataclass, attribute, no_attribute, enumeration, text_value, sequence, element,
  no_element, integer, mapping, entry, no_entry, named, any_unnamed, to_jsonable,
  attributes_jsonable, entries_jsonable, elements_jsonable, freeze_json,
}
use industrial_agent_runtime.Serialization.Frozen.{size, is_frozen, freeze_json-IsFrozen}
use industrial_agent_runtime.Trace.Digest.{is_digest, all_hex, is_hex}
use industrial_agent_runtime.Trace.{
  Codec, TraceRecorder, artifact_name, artifact_ref, write_artifact, store_artifact,
  persist_projection, read_projection,
}
use industrial_agent_runtime.Trace.Artifacts.{persist_projection-read_projection}

-- A dataclass with an enum, a tuple and a mapping.
abbrev event : Value
event = dataclass (
    attribute "status" (enumeration (text_value "DONE")) (
      attribute "usage" (mapping writable (entry (named "steps") (integer (pos 2)) no_entry))
        (attribute "refs" (sequence writable (element (text_value "r1") no_element)) no_attribute)))

abbrev event_json : Json
event_json = object (
    field "status" (string "DONE") (
      field "usage" (object (field "steps" (int (pos 2)) end))
        (field "refs" (array (cons (string "r1") nil)) end)))

event_jsonable : to_jsonable event ≡ ok event_json
unfolding any_unnamed to_jsonable attributes_jsonable entries_jsonable elements_jsonable
event_jsonable = refl

event_bounded : size event_json ≤ 9
unfolding size
event_bounded = omega arith

freeze_json-IsFrozen_example :
    (frozen : Value) × (freeze_json 9 event ≡ ok frozen)
    × (is_frozen frozen ≡ true)
    × (to_jsonable frozen ≡ ok event_json)
freeze_json-IsFrozen_example = freeze_json-IsFrozen event event_json 9 event_jsonable event_bounded

abbrev zeros_digest : String
zeros_digest = "0000000000000000000000000000000000000000000000000000000000000000"

-- One text for every value, and one digest for every text.
abbrev codec : Codec
codec = record {
  canonical_json = λ j. "{}";
  sha256 = λ text. zeros_digest;
  loads = λ text. some (object end);
  splitlines = λ text. [];
}

abbrev empty : TraceRecorder
empty = record { artifacts = []; events = "" }

abbrev recorded : TraceRecorder
recorded = record { artifacts = (zeros_digest, "{}") ∷ []; events = "" }

abbrev first_ref : InformationRef
unfolding artifact_ref artifact_name
first_ref = artifact_ref zeros_digest "t0"

first_persisted : persist_projection codec empty (object end) "t0" ≡ ok (first_ref, recorded)
unfolding persist_projection store_artifact write_artifact artifact_ref artifact_name get insert
first_persisted = refl

zeros_hex : (text : String) → is_digest (codec.sha256 text) ≡ true
unfolding is_digest all_hex is_hex
zeros_hex text = refl

persist_projection-read_projection_example :
    (read_projection codec recorded first_ref ≡ ok (object end))
    × ((other : InformationRef) (j : Json)
        → read_projection codec empty other ≡ ok j
        → read_projection codec recorded other ≡ ok j)
persist_projection-read_projection_example =
    persist_projection-read_projection codec empty recorded (object end) (object end) "t0" first_ref
      zeros_hex refl first_persisted
