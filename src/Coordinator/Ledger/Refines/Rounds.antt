-- ===== src/Coordinator/Ledger/Refines/Rounds.antt =====
-- The rounds and the whole run of src/industrial_agent_runtime/coordinator.py as steps of the ledger.
use industrial_agent_runtime.Prelude.{
  ℕ, zero, suc, ◌≡◌, refl, Bool, true, false, not, Option, none, some, [],
}
use industrial_agent_runtime.Contracts.{
  Revision, TaskStatus, running, waiting, ready, done, failed, exhausted, cancelled,
}
use industrial_agent_runtime.Decisions.{Error, denied, refuse_if}
use industrial_agent_runtime.Coordinator.{
  State, Coordinator, Method, is_terminal, lift, ask, call, event,
}
use industrial_agent_runtime.Coordinator.Loop.{
  status_text, set_status, is_exhausted, turn_or_exhausted, stop_or_turn, round, rounds,
  when_running, is_running, fail_metered, begin_with, begin_run, transition, persistence_failed,
  persist_terminal_status, note_persistence, result_now, conclude_run, run,
}
use industrial_agent_runtime.Coordinator.Ledger.{view, Steps, none_left, step, stopped, withdrawn}
use industrial_agent_runtime.Coordinator.Ledger.Refines.{
  Keeps, Keeps-same, Keeps-bind, Keeps-attempt,
}
use industrial_agent_runtime.Coordinator.Ledger.Refines.Turn.{guarded_turn-Keeps}

module _ {W : Type 0} (c : Coordinator W) where
  turn_or_exhausted-Keeps : (spent : Bool) → Keeps c (turn_or_exhausted c spent)
  unfolding turn_or_exhausted set_status is_terminal
  turn_or_exhausted-Keeps true s = step none_left (stopped exhausted refl)
  turn_or_exhausted-Keeps false s = guarded_turn-Keeps c s

  stop_or_turn-Keeps :
      (ended : Bool) (stored : TaskStatus)
      → is_terminal stored ≡ ended
      → Keeps c (stop_or_turn c ended stored)
  unfolding stop_or_turn set_status
  stop_or_turn-Keeps true stored e s = step none_left (stopped stored e)
  stop_or_turn-Keeps false stored e s = turn_or_exhausted-Keeps (is_exhausted c s.usage) s

  round-Keeps : Keeps c (round c)
  unfolding round
  round-Keeps =
      Keeps-bind c (ask c.store_status) (λ stored. stop_or_turn c (is_terminal stored) stored)
        (λ s. none_left) (λ stored. stop_or_turn-Keeps (is_terminal stored) stored refl)

  when_running-Keeps :
      (b : Bool) (body : Method W (Unit {0})) → Keeps c body → Keeps c (when_running c b body)
  unfolding when_running
  when_running-Keeps true body k s = k s
  when_running-Keeps false body k s = none_left

  rounds-Keeps : (bound : ℕ) → Keeps c (rounds c bound)
  unfolding rounds
  rounds-Keeps zero s = none_left
  rounds-Keeps (suc bound) s =
      when_running-Keeps (is_running s.status) _
        (Keeps-bind c (round c) (λ _. rounds c bound) round-Keeps (λ _. rounds-Keeps bound)) s

  begin_with-Keeps :
      (ended : Bool) (stored : TaskStatus)
      → is_terminal stored ≡ ended
      → Keeps c (begin_with c ended stored)
  unfolding begin_with set_status fail_metered is_terminal
  begin_with-Keeps true stored e s = step none_left (stopped stored e)
  begin_with-Keeps false stored e s = metered c.pipeline.task.budget.max_total_tokens s
    where
      metered : (tokens : Option ℕ) → Keeps c (fail_metered c tokens)
      metered none s = none_left
      metered (some n) s = step none_left (stopped failed refl)

  begin_run-Keeps : Keeps c (begin_run c)
  unfolding begin_run event
  begin_run-Keeps s =
      Keeps-bind c (ask c.store_status) (λ stored. begin_with c (is_terminal stored) stored)
        (λ s. none_left) (λ stored. begin_with-Keeps (is_terminal stored) stored refl)
        (event "TASK" "RUNNING" [] [] s).1

  transition-Keeps :
      (requested : TaskStatus) (revision : Revision) (prior : TaskStatus)
      → Keeps c (transition c requested revision prior)
  unfolding transition
  transition-Keeps requested revision prior =
      Keeps-bind c
        (lift (
          refuse_if (not (is_terminal requested))
            (denied "only terminal statuses may be persisted here")))
        _ (λ s. none_left)
        (λ _.
          Keeps-bind c (call (c.transition_status requested revision)) _ (λ s. none_left)
            (λ returned.
              Keeps-bind c (ask c.revision) _ (λ s. none_left)
                (λ observed.
                  Keeps-bind c (ask c.store_status) _ (λ s. none_left) (λ status s. none_left))))

  persistence_failed-Keeps : (e : Error) → Keeps c (persistence_failed c e)
  unfolding persistence_failed event
  persistence_failed-Keeps e =
      Keeps-bind c (ask c.store_status) _ (λ s. none_left)
        (λ status. Keeps-bind c (ask c.revision) _ (λ s. none_left) (λ revision s. none_left))

  persist_terminal_status-Keeps : Keeps c (persist_terminal_status c)
  unfolding persist_terminal_status event
  persist_terminal_status-Keeps s =
      Keeps-bind c (ask c.revision) _ (λ s. none_left)
        (λ revision.
          Keeps-bind c (ask c.store_status) _ (λ s. none_left)
            (λ prior.
              Keeps-attempt c (transition c s.status revision prior) (persistence_failed c) _
                (transition-Keeps s.status revision prior) persistence_failed-Keeps
                (λ _ s. none_left)))
        s

  note_persistence-Keeps : (failure : Option Error) → Keeps c (note_persistence c failure)
  unfolding note_persistence
  note_persistence-Keeps none s = none_left
  note_persistence-Keeps (some e) s = step none_left withdrawn

  status_text-view :
      (status : TaskStatus) (s : State W)
      → view (event "TASK" (status_text status) [] [] s).1 ≡ view s
  unfolding event status_text
  status_text-view running s = refl
  status_text-view waiting s = refl
  status_text-view ready s = refl
  status_text-view done s = refl
  status_text-view failed s = refl
  status_text-view exhausted s = refl
  status_text-view cancelled s = refl

  result_now-Keeps : Keeps c (result_now c)
  unfolding result_now
  result_now-Keeps =
      Keeps-bind c (ask c.revision) _ (λ s. none_left)
        (λ revision s.
          Keeps-bind c (event "TASK" (status_text s.status) [] []) _
            (Keeps-same c (event "TASK" (status_text s.status) [] []) (status_text-view s.status))
            (λ _. Keeps-bind c (ask c.revision) _ (λ s. none_left) (λ now s. none_left)) s)

  -- A run, for any bound of rounds and from any state, changes the ledger by steps of the
  -- specification only: charges within the quota, single dispatches of requests that the gates
  -- authorized at the very ledger that they change, references of verified results, an accepted
  -- finish, an end.
  pub run-Steps :
      (bound : ℕ) (s : State W) → Steps c.pipeline c.verification (view s) (view (run c bound s).1)
  unfolding run conclude_run
  run-Steps bound = Keeps-bind c (begin_run c) _ begin_run-Keeps (λ _.
      Keeps-bind c (rounds c bound) _ (rounds-Keeps bound) (λ _.
        Keeps-bind c (persist_terminal_status c) _ persist_terminal_status-Keeps (λ failure.
          Keeps-bind c (note_persistence c failure) (λ _. result_now c)
            (note_persistence-Keeps failure) (λ _. result_now-Keeps))))
