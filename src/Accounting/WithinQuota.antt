-- ===== src/Accounting/WithinQuota.antt =====
-- The usage of a task behind the settlement of an authorized request (coordinator.py `_execute`).
use industrial_agent_runtime.Prelude.{ℕ, ◌≡◌, ◌∙◌, sym, subst, Option, Dict, inl, inr}
use industrial_agent_runtime.Contracts.{ToolCallRequest, InformationRef, Revision}
use industrial_agent_runtime.Decisions.{ok, ok-injective}
use industrial_agent_runtime.Gates.Pipeline.{
  GatePipeline, ResolvedReservation, FrozenRequest, Reading,
}
use industrial_agent_runtime.Gates.Static.{typed}
use industrial_agent_runtime.Gates.Authorize.{authorize}
use industrial_agent_runtime.Verification.Provenance.{Returned}
use industrial_agent_runtime.Accounting.{Settlement, settle}
use industrial_agent_runtime.Accounting.Usage.{IsCounted, authorize-IsReserved}
use industrial_agent_runtime.Accounting.Settling.{settlement, IsCounted-after}

-- After an authorization, a settlement that returns leaves an entry for every dimension with a quota,
-- and the standard counters as integers within their quotas, whatever was reported and in whatever
-- amounts.
pub authorize-settle-IsCounted :
    (g : GatePipeline) (request : ToolCallRequest) (known : Dict InformationRef) (usage : Dict ℕ)
    (revision : Revision) (reading : Reading) (expected : Option ResolvedReservation)
    (frozen : FrozenRequest) (returned : Returned) (s : Settlement)
    → IsCounted g.task.budget usage
    → authorize g (typed request) known usage revision reading expected ≡ ok frozen
    → settle g.task.budget usage request frozen.reserved_budget_draw returned ≡ ok s
    → IsCounted g.task.budget s.usage
authorize-settle-IsCounted g request known usage revision reading expected frozen returned s u h
      ran =
    let r = authorize-IsReserved g request known usage revision reading expected frozen h in
    elim (settlement g.task.budget usage _ u r request returned) [
      | inl (_, raised) ↦ absurd (cc)
      | inr (middle, after, settled, first, second) ↦
          subst (λ t. IsCounted g.task.budget t.usage) (ok-injective (sym settled ∙ ran))
            (IsCounted-after g.task.budget usage _ u r request returned middle after first second)
    ]
