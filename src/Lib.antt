-- ===== src/Lib.antt =====
-- Verification library of the industrial agent runtime.
--
-- The runtime lets a model propose tool calls and executes them under deterministic control: every
-- request passes the gates G0 to G3, the consumer's validation and the approval before it is frozen,
-- is checked once more before dispatch, and its actual budget draw is reconciled after execution.
--
-- The files and the code that they model, each under src/industrial_agent_runtime/:
--   Prelude        Boolean tests, association lists for dicts, sorting, integers
--   Json           JSON values and Python's and the schema's equality on them (schema.py `_equal`)
--   Amounts        Python's arithmetic on amounts and `math.isfinite` (`_finite`, `_is_number`)
--   Contracts      the records of contracts.py and actions.py
--   Decisions      GateDecision (hooks.py), the stages (gates.py, verification.py), and the result of
--                  fallible code: `ok`, or `err` for what the code raises
--   Schema         schema.py: `schema_errors`; Schema/Instance is `instance_errors`
--   Refs           gates.py `ref_envelopes`, and InformationRef read from an envelope
--   Gates/Policy   gates.py `GatePolicy`, its constructor, `delegate` and `allows_tool`
--   Gates/Pipeline the state of `GatePipeline` and its hooks; Static, Reservation, Budget, SideEffect
--                  and Authorize are its stages, in the order in which `authorize` runs them
--   Gates/Reconcile  gates.py `reconcile`
--   Verification   verification.py: `check_refs`, `verify` and `verify_finish`
--   Accounting     coordinator.py `_charge` and the usage that `_execute` keeps
--   Knowledge      coordinator.py `known_refs`: its start and what `_ingest` adds
--   Serialization  serialization.py `to_jsonable` and `freeze_json`
--   Trace          trace.py `TraceRecorder`
--   Actions        the model's turn and its requests (actions.py, contracts.py)
--   Batch          coordinator.py `_request_supported` and `_validate_batch`: Batch/Preflight, with the
--                  cycle check in Batch/Waves
--   Coordinator    coordinator.py: the state and the application, and methods as a state and exception
--                  monad; Execution is `_execute`, Ingestion `_ingest`, Update `_project` and
--                  `_update`, Batches `_batch`, Turn and Loop `run` and `_persist_terminal_status`
--   Coordinator/Ledger  the specification: what of the state a run is answerable for, and the steps that
--                  may change it; Refines reads the methods as such steps
--   Examples       a small plant, and the theorems at concrete inputs
-- The children of a module hold the proofs about it, named for what they prove.
--
-- Numbers. A budget amount is an int or a float in Python. Every finite float is a whole multiple of
-- 2^-1074, so an amount is the count of these quanta, a natural number, and comparisons are exact.
-- Amounts has the sums and differences: exact on integers, and rounded to the nearest double, ties to
-- even, where a float takes part. A float with a whole value is taken for the integer of that value,
-- which differs only where whole floats add up to 2^53 or more; the compensation of the builtin `sum`
-- in Python 3.12, and a sum beyond the greatest double, are not followed. An integer that has no double
-- makes `math.isfinite` raise, here an `err`. The theorems that bound a sum of draws ask for whole
-- amounts, since the rounded comparison of the program does not bound others; the standard counters
-- are whole in every run. Counters and quotas of whole units are `units n`.
--
-- Dicts are association lists with Python's replacement of a value in place; `sorted` of the keys
-- fixes the order of the loops over them. Sets are lists of their members.
--
-- Free text (the reasons of decisions and the messages of complaints) is dropped or kept as data;
-- reason codes and stages are kept. The static types that the code declares are taken as given,
-- except where the code itself tests them. The recursion of the schema functions is structural, on
-- the schema and on the value.
--
-- Parameters: the regular expressions of the module `re`, the checksum of a ToolSpec, the upper
-- case and stripped form of a text, and the hooks of the application (consumer, approval, resolver,
-- reference guard, ingestor and verifier), each a function that may fail.
--
-- The coordinator runs over a type of worlds: all that the store, the executor, the provider and the
-- files keep. A call of the application takes the world and returns one, with an answer or an
-- exception, so that its behaviour may change from call to call. The hooks of the gates and of the
-- verification answer by their arguments alone; what else happens while they run is `elapse`.
--
-- Bounds. The loop of `run` and the rounds of a batch take a bound of rounds. The theorems on `run`
-- hold for every bound. In a batch one round for each item is given; the waves of the cycle check
-- end within as many rounds, since a wave without an item ends them. `freeze_json` takes a bound on
-- the depth of its calls; the number of a value's parts is enough.
--
-- Not modelled: the summaries, times and model metadata of the coordinator's events, the failure of a
-- disc, the check of the model's metadata and of a used run directory, the text that `json.dumps`
-- writes. The coordinator keeps its events as a list; the recorder of Trace stands by itself.
pub mod Prelude
pub mod Json
pub mod Amounts
pub mod Contracts
pub mod Decisions
pub mod Schema
pub mod Gates
pub mod Refs
pub mod Verification
pub mod Accounting
pub mod Knowledge
pub mod Serialization
pub mod Trace
pub mod Actions
pub mod Batch
pub mod Coordinator
mod Examples
