-- ===== src/Accounting/Usage.antt =====
-- What a usage is within, and what an authorization leaves to the settlement
-- (src/industrial_agent_runtime/coordinator.py).
use industrial_agent_runtime.Amounts.Whole.{is_whole-units}
use industrial_agent_runtime.Accounting.{dispatch_draw}
use industrial_agent_runtime.Json.{units}
use industrial_agent_runtime.Accounting.Spending.{all_whole, all_whole-used}
use industrial_agent_runtime.Prelude.{
  Bool-cases, inl, inr, eq_iff, arith, [], ◌∷◌, AllEntries, ℕ, ◌≤◌, String, ◌≡◌, sym, subst, ap,
  true, false, Option, some, [], Dict, get, has, IsDict, contains,
}
use industrial_agent_runtime.Amounts.{is_whole}
use industrial_agent_runtime.Contracts.{Budget, ToolCallRequest, InformationRef, Revision}
use industrial_agent_runtime.Decisions.{ok}
use industrial_agent_runtime.Gates.Policy.{standard_dimensions}
use industrial_agent_runtime.Gates.Pipeline.{
  GatePipeline, ResolvedReservation, FrozenRequest, Reading,
}
use industrial_agent_runtime.Gates.Static.{typed}
use industrial_agent_runtime.Gates.Budget.{used, quota}
use industrial_agent_runtime.Gates.Budget.Quota.{FitsQuota, IsWholeAt, quota-whole, eq_sym}
use industrial_agent_runtime.Gates.Reservation.Resolve.{resolve-Fits}
use industrial_agent_runtime.Gates.Authorize.{authorize, with_counters, freeze}
use industrial_agent_runtime.Gates.Authorize.Mediation.{authorize-FitsQuota, pass, frozen-freeze}
use industrial_agent_runtime.Accounting.Reserved.{resolve-IsDict}

-- The usage of a running task: every dimension with a quota has an entry, and the standard counters
-- are integers within their quotas.
pub record IsCounted (budget : Budget) (usage : Dict ℕ) : Type 0 where
  pub held : (n : String) (q : ℕ) → quota budget n ≡ some q → has n usage ≡ true
  pub whole : (n : String) → contains n standard_dimensions ≡ true → is_whole (used usage n) ≡ true
  pub counters :
      (n : String) (q : ℕ)
      → contains n standard_dimensions ≡ true
      → quota budget n ≡ some q
      → used usage n ≤ q

-- Every dimension is within its quota besides.
pub record IsUsage (budget : Budget) (usage : Dict ℕ) : Type 0 where
  pub held : (n : String) (q : ℕ) → quota budget n ≡ some q → has n usage ≡ true
  pub whole : (n : String) → contains n standard_dimensions ≡ true → is_whole (used usage n) ≡ true
  pub within : (n : String) (q : ℕ) → quota budget n ≡ some q → used usage n ≤ q

pub IsUsage-IsCounted :
    (budget : Budget) (usage : Dict ℕ) → IsUsage budget usage → IsCounted budget usage
IsUsage-IsCounted budget usage u = record {
  held = u.held;
  whole = u.whole;
  counters = λ n q _. u.within n q;
}

-- The standard counters are counted in whole numbers.
pub counter-IsWholeAt :
    (budget : Budget) (usage : Dict ℕ) (n : String)
    → IsCounted budget usage
    → contains n standard_dimensions ≡ true
    → IsWholeAt budget usage n
counter-IsWholeAt budget usage n u standard =
    (λ q h. quota-whole budget n q standard h, u.whole n standard)

-- What an authorization leaves to the settlement: a reservation of extra dimensions, each once,
-- that fits the quotas with its counters wherever the quota and the usage are whole.
pub record IsReserved (budget : Budget) (usage reserved : Dict ℕ) : Type 0 where
  pub once : IsDict reserved
  pub extra :
      (n : String) (a : ℕ) → get n reserved ≡ some a → contains n standard_dimensions ≡ false
  pub fits :
      (n : String) (a : ℕ)
      → IsWholeAt budget usage n
      → get n (with_counters reserved) ≡ some a
      → FitsQuota budget usage n a

pub authorize-IsReserved :
    (g : GatePipeline) (request : ToolCallRequest) (known : Dict InformationRef) (usage : Dict ℕ)
    (revision : Revision) (reading : Reading) (expected : Option ResolvedReservation)
    (frozen : FrozenRequest)
    → authorize g (typed request) known usage revision reading expected ≡ ok frozen
    → IsReserved g.task.budget usage frozen.reserved_budget_draw
unfolding freeze
authorize-IsReserved g request known usage revision reading expected frozen h =
    let p = pass g request known usage revision reading expected frozen h in
    let same : p.checked.reservation.draw ≡ frozen.reserved_budget_draw = sym (
      ap (λ t. t.reserved_budget_draw)
        (frozen-freeze g request known usage revision reading expected frozen h p)) in
    record {
      once = subst IsDict same (resolve-IsDict g request p.checked.spec _ p.static.sized);
      extra = λ n a found.
          (resolve-Fits g request p.checked.spec _ n a p.static.sized
            (subst (λ d. get n d ≡ some a) (sym same) found)).not_standard;
      fits = λ n a w.
          authorize-FitsQuota g request known usage revision reading expected frozen n a h w;
    }

-- A draw of integers on the standard counters, as `_charge` takes it.
abbrev pub IsCounterDraw : Dict ℕ → Type 0
IsCounterDraw draw =
    AllEntries (λ n a. (contains n standard_dimensions ≡ true) × (is_whole a ≡ true)) draw

-- `_charge(name=1)`
pub one-IsCounterDraw :
    (name : String)
    → contains name standard_dimensions ≡ true
    → IsCounterDraw ((name, units 1) ∷ [])
unfolding get
one-IsCounterDraw name standard n a found =
    (ground (arith, found, standard, eq_iff name n), ground (arith, found, is_whole-units 1))

pub dispatch_draw-IsCounterDraw : IsCounterDraw dispatch_draw
unfolding get contains
dispatch_draw-IsCounterDraw n a found = (
  ground (
    arith,
    found,
    eq_iff "tool_calls" n,
    eq_iff n "tool_calls",
    eq_iff "steps" n,
    eq_iff n "steps",
  ),
  ground (arith, found, is_whole-units 1),
)

-- A budget whose extra quotas are whole has whole quotas.
pub quota-all_whole :
    (budget : Budget) (n : String) (q : ℕ)
    → all_whole budget.extra_dimensions ≡ true
    → quota budget n ≡ some q
    → is_whole q ≡ true
unfolding used quota contains
quota-all_whole budget n q h e = elim (Bool-cases (contains n standard_dimensions)) [
  | inl standard ↦ quota-whole budget n q standard e
  | inr extra ↦
      ground (arith, all_whole-used budget.extra_dimensions n h, quota-extra budget n extra, e)
]
  where
    quota-extra :
        (budget : Budget) (n : String)
        → contains n standard_dimensions ≡ false
        → quota budget n ≡ get n budget.extra_dimensions
    quota-extra budget n extra = ground (
      arith,
      extra,
      eq_sym "model_calls" n,
      eq_sym "tool_calls" n,
      eq_sym "subagents" n,
      eq_sym "steps" n,
    )
