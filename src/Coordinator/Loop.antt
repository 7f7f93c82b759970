-- ===== src/Coordinator/Loop.antt =====
-- `run` and `_persist_terminal_status` of src/industrial_agent_runtime/coordinator.py.
use industrial_agent_runtime.Prelude.{
  ℕ, zero, suc, String, Bool, true, false, not, ◌&&◌, ◌||◌, Option, none, some, List, [], ◌∷◌, Dict,
  ℤ, pos, leb_ℤ,
}
use industrial_agent_runtime.Json.{Json}
use industrial_agent_runtime.Contracts.{
  Revision, eqb_revision, TaskStatus, running, waiting, ready, done, failed, exhausted, cancelled,
  Task,
}
use industrial_agent_runtime.Decisions.{Result, ok, err, Error, denied, refuse_if}
use industrial_agent_runtime.Gates.Budget.{remaining}
use industrial_agent_runtime.Knowledge.{start_known}
use industrial_agent_runtime.Accounting.{start_usage}
use industrial_agent_runtime.Coordinator.{
  State, Coordinator, Method, is_terminal, ◌>>=◌, ◌>>◌, pure, attempt, gets, modify, lift, ask,
  call, event,
}
use industrial_agent_runtime.Coordinator.Turn.{guarded_turn}

unfoldable pub eqb_status : TaskStatus → TaskStatus → Bool
eqb_status running running = true
eqb_status waiting waiting = true
eqb_status ready ready = true
eqb_status done done = true
eqb_status failed failed = true
eqb_status exhausted exhausted = true
eqb_status cancelled cancelled = true
eqb_status _ _ = false

unfoldable pub status_text : TaskStatus → String
status_text running = "RUNNING"
status_text waiting = "WAITING"
status_text ready = "READY"
status_text done = "DONE"
status_text failed = "FAILED"
status_text exhausted = "EXHAUSTED"
status_text cancelled = "CANCELLED"

-- `remaining <= 0`
unfoldable pub is_spent : Option ℤ → Bool
is_spent none = true
is_spent (some left) = leb_ℤ left (pos 0)

-- The result of a run, without the task's id and the reference to the trace.
pub record RuntimeResult : Type 0 where
  pub status : TaskStatus
  pub structured_output : Option Json
  pub state_revision : Revision
  pub budget_usage : Dict ℕ
  pub errors : List Error

-- The state that `__init__` leaves.
unfoldable pub start_state : {W : Type 0} → Task → W → State W
start_state task world = record {
  usage = start_usage task.budget;
  known_refs = start_known task;
  feedback = [];
  turn_ids = [];
  request_ids = [];
  status = running;
  events = [];
  output = none;
  errors = [];
  world = world;
}

unfoldable pub is_running : TaskStatus → Bool
is_running running = true
is_running _ = false

-- What a transition must have left: the requested status at the returned revision, which moved
-- exactly if the status did.
unfoldable pub check_transition :
    (requested prior_status : TaskStatus)
    → (revision : Revision) → (returned : Option Revision) → (observed_revision : Revision)
    → (observed_status : TaskStatus) → Result (Unit {0})
check_transition requested prior_status revision none observed_revision observed_status =
    err (denied "status transition returned inconsistent status/revision")
check_transition requested prior_status revision (some returned) observed_revision observed_status =
    elim (eqb_revision returned observed_revision && eqb_status observed_status requested) [
      | false ↦ err (denied "status transition returned inconsistent status/revision")
      | true ↦ elim (eqb_revision returned revision) [
        | true ↦
            refuse_if (not (eqb_status prior_status requested))
              (denied "status transition violated revision advancement/no-op semantics")
        | false ↦
            refuse_if (eqb_status prior_status requested)
              (denied "status transition violated revision advancement/no-op semantics")
      ]
    ]

module _ {W : Type 0} (c : Coordinator W) where
  unfoldable pub set_status : TaskStatus → Method W (Unit {0})
  set_status status = modify (λ s. record s { status = status })

  -- Whether a quota that a turn needs is used up.
  unfoldable pub is_exhausted : Dict ℕ → Bool
  is_exhausted usage =
      is_spent (remaining c.pipeline.task.budget usage "model_calls")
      || is_spent (remaining c.pipeline.task.budget usage "steps")

  unfoldable pub turn_or_exhausted : Bool → Method W (Unit {0})
  turn_or_exhausted true = set_status exhausted
  turn_or_exhausted false = guarded_turn c

  unfoldable pub stop_or_turn : (ended : Bool) → TaskStatus → Method W (Unit {0})
  stop_or_turn true stored = set_status stored
  stop_or_turn false stored = gets (λ s. is_exhausted s.usage) >>= turn_or_exhausted

  unfoldable pub when_running : Bool → Method W (Unit {0}) → Method W (Unit {0})
  when_running false body s = (ok tt, s)
  when_running true body s = body s

  -- One round of `while self.status == RUNNING`.
  unfoldable pub round : Method W (Unit {0})
  round = ask c.store_status >>= (λ stored. stop_or_turn (is_terminal stored) stored)

  -- The loop, for a bound of rounds.
  unfoldable pub rounds : (bound : ℕ) → Method W (Unit {0})
  rounds zero s = (ok tt, s)
  rounds (suc bound) s = when_running (is_running s.status) (round >>= λ _. rounds bound) s

  unfoldable pub fail_metered : Option ℕ → Method W (Unit {0})
  fail_metered none = pure tt
  fail_metered (some tokens) = modify λ s. record s {
    status = failed;
    errors = denied "token-metered provider execution requires downstream accounting" ∷ s.errors;
  }

  unfoldable pub begin_with : (ended : Bool) → TaskStatus → Method W (Unit {0})
  begin_with true stored = set_status stored
  begin_with false stored = fail_metered c.pipeline.task.budget.max_total_tokens

  -- Before the loop: a store at its end, or a quota of tokens, ends the run at once.
  unfoldable pub begin_run : Method W (Unit {0})
  begin_run = do
    event "TASK" "RUNNING" [] []
    stored ← ask c.store_status
    begin_with (is_terminal stored) stored

  unfoldable pub transition : TaskStatus → Revision → TaskStatus → Method W (Unit {0})
  transition requested revision prior_status = do
    lift (
        refuse_if (not (is_terminal requested))
          (denied "only terminal statuses may be persisted here"))
    returned ← call (c.transition_status requested revision)
    observed_revision ← ask c.revision
    observed_status ← ask c.store_status
    lift (
        check_transition requested prior_status revision returned observed_revision observed_status)

  unfoldable pub persistence_failed : Error → Method W (Option Error)
  persistence_failed e = do
    status ← ask c.store_status
    revision ← ask c.revision
    event "STATUS_TRANSITION" "DENIED" [] []
    pure (some e)

  -- `_persist_terminal_status`
  unfoldable pub persist_terminal_status : Method W (Option Error)
  persist_terminal_status = do
    requested ← gets (λ s. s.status)
    revision ← ask c.revision
    prior_status ← ask c.store_status
    attempt (transition requested revision prior_status) persistence_failed
        (λ _. event "STATUS_TRANSITION" "ACCEPTED" [] [] >> pure none)

  unfoldable pub note_persistence : Option Error → Method W (Unit {0})
  note_persistence none = pure tt
  note_persistence (some e) =
      modify (λ s. record s { status = failed; output = none; errors = e ∷ s.errors })

  unfoldable pub result_now : Method W RuntimeResult
  result_now = do
    reported ← ask c.revision
    s ← gets (λ s. s)
    event "TASK" (status_text s.status) [] []
    revision ← ask c.revision
    pure (record {
      status = s.status;
      structured_output = s.output;
      state_revision = revision;
      budget_usage = s.usage;
      errors = s.errors;
    })

  unfoldable pub conclude_run : Method W RuntimeResult
  conclude_run = persist_terminal_status >>= (λ failure. note_persistence failure >> result_now)

  -- `run`, on a fresh coordinator and trace.
  unfoldable pub run : (bound : ℕ) → Method W RuntimeResult
  run bound = begin_run >> (rounds bound >> conclude_run)
