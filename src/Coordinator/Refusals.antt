-- ===== src/Coordinator/Refusals.antt =====
-- What src/industrial_agent_runtime/coordinator.py does with a request or a batch that it refuses.
use industrial_agent_runtime.Prelude.{String, ◌≡◌, refl, Bool, true, not, none, Dict, contains}
use industrial_agent_runtime.Contracts.{ToolCallRequest}
use industrial_agent_runtime.Decisions.{Result, ok, err, Error, ◌>>=◌, ◌>>◌, refuse_if}
use industrial_agent_runtime.Gates.Static.{typed}
use industrial_agent_runtime.Gates.Authorize.{Checked, static_check}
use industrial_agent_runtime.Batch.Preflight.{request_supported}
use industrial_agent_runtime.Coordinator.{State, Coordinator, event, deny}
use industrial_agent_runtime.Coordinator.Execution.{
  execute, authorized, size, has_hooks, refused, gate_refusal,
}

refuse-dispatched :
    (r : Result Checked) (dispatched has_hooks : Bool) (e e' : Error)
    → dispatched ≡ true
    → (x : Error) × ((r >>= λ c. refuse_if dispatched e >> (refuse_if has_hooks e' >> ok c))
        ≡ err x)
refuse-dispatched (err x) dispatched has_hooks e e' h = (x, refl)
refuse-dispatched (ok c) dispatched has_hooks e e' h = (e, rw h)

module _ {W : Type 0} (c : Coordinator W) where
  refused-world :
      (request : ToolCallRequest) (ids : Dict String) (e : Error) (s : State W)
      → ((refused c request ids e s).0 ≡ ok none)
        × ((refused c request ids e s).1.world ≡ s.world)
        × ((refused c request ids e s).1.usage ≡ s.usage)
        × ((refused c request ids e s).1.request_ids ≡ s.request_ids)
  unfolding refused gate_refusal event deny
  refused-world request ids (Error.gate_denied d) s = (refl, refl, refl, refl)
  refused-world request ids (Error.verification_rejected d) s = (refl, refl, refl, refl)
  refused-world request ids (Error.denied r) s = (refl, refl, refl, refl)
  refused-world request ids Error.invariant_violation s = (refl, refl, refl, refl)
  refused-world request ids Error.value_error s = (refl, refl, refl, refl)
  refused-world request ids Error.type_error s = (refl, refl, refl, refl)
  refused-world request ids Error.key_error s = (refl, refl, refl, refl)
  refused-world request ids Error.attribute_error s = (refl, refl, refl, refl)
  refused-world request ids Error.overflow_error s = (refl, refl, refl, refl)
  refused-world request ids (Error.raised r) s = (refl, refl, refl, refl)

  request_supported-dispatched :
      (request : ToolCallRequest) (s : State W)
      → contains request.request_id s.request_ids ≡ true
      → (e : Error) × (request_supported c.pipeline s.known_refs s.request_ids (has_hooks c) request
          ≡ err e)
  unfolding request_supported
  request_supported-dispatched request s h =
      refuse-dispatched (static_check c.pipeline (typed request) s.known_refs none)
        (contains request.request_id s.request_ids) (not (has_hooks c)) _ _ h

  authorized-dispatched :
      (request : ToolCallRequest) (ids : Dict String) (s : State W)
      → contains request.request_id s.request_ids ≡ true
      → (e : Error) × (authorized c request none ids s ≡ (err e, s))
  unfolding authorized size
  authorized-dispatched request ids s h =
      let (e, raised) = request_supported-dispatched request s h in (e, rw raised)

  -- A single request whose id was dispatched before is refused: nothing is returned, and the usage,
  -- the dispatched ids and all that the application keeps stay as they were.
  pub execute-dispatched :
      (request : ToolCallRequest) (ids : Dict String) (s : State W)
      → contains request.request_id s.request_ids ≡ true
      → ((execute c request none ids s).0 ≡ ok none)
        × ((execute c request none ids s).1.world ≡ s.world)
        × ((execute c request none ids s).1.usage ≡ s.usage)
        × ((execute c request none ids s).1.request_ids ≡ s.request_ids)
  unfolding execute
  execute-dispatched request ids s h =
      let (e, raised) = authorized-dispatched request ids s h in
      rw raised (refused-world request ids e s)
