-- ===== src/Accounting/Settling.antt =====
-- The steps of the settlement of an authorized request (`_execute` of
-- src/industrial_agent_runtime/coordinator.py): the charge for the dispatch, and the charges of the
-- reconciliation.
use industrial_agent_runtime.Prelude.{
  ℕ, ◌+◌, ◌≤◌, String, ◌≡◌, ◌∙◌, ◌⊎◌, Bool, Bool-cases, refl, sym, subst, true, none, some, [],
  Dict, get, has, IsDict, eq_iff, inl, inr, Option-cases, arith, false≢true, contains,
}
use industrial_agent_runtime.Json.{units}
use industrial_agent_runtime.Amounts.{is_whole}
use industrial_agent_runtime.Amounts.Whole.{is_whole-zero, is_whole-units}
use industrial_agent_runtime.Contracts.{Budget, ToolCallRequest}
use industrial_agent_runtime.Decisions.{ok, err, overflow_error}
use industrial_agent_runtime.Gates.Policy.{standard_dimensions}
use industrial_agent_runtime.Gates.Budget.{used, quota}
use industrial_agent_runtime.Gates.Budget.Quota.{IsWholeAt, exceeds-not}
use industrial_agent_runtime.Gates.Authorize.{with_counters}
use industrial_agent_runtime.Gates.Reconcile.{
  Reconciliation, is_charged, reported, overflowing, tally, reconcile,
}
use industrial_agent_runtime.Gates.Reconcile.Charges.{charged_at}
use industrial_agent_runtime.Verification.Provenance.{Returned}
use industrial_agent_runtime.Accounting.{any_exceeds, charge, dispatch_draw, actual_draw, settle}
use industrial_agent_runtime.Accounting.Spending.{
  total-used, whole_at, whole_at-used, AllHeld, IsSpent, spend-IsSpent, used-whole, merge-absent,
  merge-present,
}
use industrial_agent_runtime.Accounting.Charged.{
  tally-IsDict, quota-of_is_charged, AllHeld-of, charged-le-reserved,
}
use industrial_agent_runtime.Accounting.Usage.{IsCounted, IsUsage, IsReserved, counter-IsWholeAt}

pub dispatch_draw-IsDict : IsDict dispatch_draw
unfolding has get
dispatch_draw-IsDict = (refl, (refl, tt))

dispatch_draw-whole : (n : String) → whole_at dispatch_draw n ≡ true
unfolding units
dispatch_draw-whole n = ground (arith, is_whole-units 1)

module _ (budget : Budget) (usage reserved : Dict ℕ) (u : IsCounted budget usage)
    (r : IsReserved budget usage reserved) where
  unreserved : (n : String) → contains n standard_dimensions ≡ true → get n reserved ≡ none
  unreserved n standard = elim (Option-cases (get n reserved)) [
    | inl absent ↦ absent
    | inr (a, found) ↦ absurd (false≢true (sym (r.extra n a found) ∙ standard))
  ]

  -- What the two counters and the reservation need fits, in every dimension.
  needed :
      (n : String) (q : ℕ)
      → quota budget n ≡ some q
      → IsWholeAt budget usage n
      → used usage n ≤ q
      → used usage n + used (with_counters reserved) n ≤ q
  unfolding used
  needed n q has_quota whole bounded = elim (Option-cases (get n (with_counters reserved))) [
    | inl absent ↦ ground (arith, absent, bounded)
    | inr (a, found) ↦
        let (q', same, fits) = r.fits n a whole found in
        ground (arith, found, same, has_quota, fits)
  ]

  -- Dispatch and reservation together are what was checked.
  dispatch-and-reserved :
      (n : String) → used dispatch_draw n + used reserved n ≤ used (with_counters reserved) n
  unfolding used with_counters get contains
  dispatch-and-reserved n = elim (Option-cases (get n reserved)) [
    | inl absent ↦ ground (arith, absent, merge-absent n dispatch_draw reserved absent)
    | inr (a, found) ↦ ground (
      arith,
      found,
      merge-present n dispatch_draw reserved a r.once found,
      r.extra n a found,
      eq_iff "tool_calls" n,
      eq_iff n "tool_calls",
      eq_iff "steps" n,
      eq_iff n "steps",
    )
  ]

  calls_counted : get "tool_calls" (with_counters reserved) ≡ some (units 1)
  unfolding with_counters get contains
  calls_counted = merge-absent "tool_calls" dispatch_draw reserved (unreserved "tool_calls" refl)

  steps_counted : get "steps" (with_counters reserved) ≡ some (units 1)
  unfolding with_counters get contains
  steps_counted = merge-absent "steps" dispatch_draw reserved (unreserved "steps" refl)

  -- The charge for the dispatch is within the standard budget.
  charge-IsSpent :
      (after : Dict ℕ) × (charge budget usage dispatch_draw ≡ ok after)
      × IsSpent usage dispatch_draw after
  unfolding charge any_exceeds contains
  charge-IsSpent =
      let calls_whole = counter-IsWholeAt budget usage "tool_calls" u refl in
      let steps_whole = counter-IsWholeAt budget usage "steps" u refl in
      let calls = r.fits "tool_calls" (units 1) calls_whole calls_counted in
      let steps = r.fits "steps" (units 1) steps_whole steps_counted in
      let (after, ran, s) =
        spend-IsSpent usage dispatch_draw
          (u.held "tool_calls" calls.0 calls.1, (u.held "steps" steps.0 steps.1, tt)) in
      (
        after,
        rw
            (
              exceeds-not budget usage "tool_calls" (units 1) calls_whole calls,
              exceeds-not budget usage "steps" (units 1) steps_whole steps,
            )
            ran,
        s,
      )

  module _ (request : ToolCallRequest) (returned : Returned) where
    abbrev bill : Reconciliation
    bill = tally reserved (actual_draw returned request reserved) budget

    -- Every charge of the reconciliation has an entry in a usage.
    charged-AllHeld :
        (after : Dict ℕ)
        → ((n : String) → has n usage ≡ true → has n after ≡ true)
        → AllHeld after bill.charged
    unfolding has
    charged-AllHeld after keep = AllHeld-of after bill.charged (λ n m. keep n (at n m))
      where
        at : (n : String) → has n bill.charged ≡ true → has n usage ≡ true
        at n m = elim (Option-cases (get n bill.charged)) [
          | inl absent ↦ absurd (false≢true (ground (arith, absent, m)))
          | inr (c, found) ↦
              let (extra, _) =
                charged_at reserved (actual_draw returned request reserved) budget n c found in
              let (q, has_quota) = quota-of_is_charged budget n extra in u.held n q has_quota
        ]

    abbrev overflowed : Bool
    overflowed = overflowing (reported (actual_draw returned request reserved))

    -- The settlement of an authorized request, with what it leaves, or the error of a report that
    -- `reconcile` cannot read.
    pub settlement :
        ((overflowed ≡ true) × (settle budget usage request reserved returned ≡ err overflow_error))
        ⊎ ((middle after : Dict ℕ) × (settle budget usage request reserved returned
              ≡ ok (record { usage = after; accounting = bill }))
            × IsSpent usage dispatch_draw middle
            × IsSpent middle bill.charged after)
    unfolding settle reconcile
    settlement =
        let (middle, charged, s) = charge-IsSpent in
        let (after, spent, s') =
          spend-IsSpent middle bill.charged (charged-AllHeld middle s.held) in
        elim (Bool-cases overflowed) [
          | inl too_large ↦ inl (too_large, rw (charged, too_large) refl)
          | inr fits ↦ inr (middle, after, rw (charged, fits, spent) refl, s, s')
        ]

    -- A standard counter is charged for the dispatch alone.
    uncharged : (n : String) → contains n standard_dimensions ≡ true → used bill.charged n ≡ 0
    unfolding used is_charged
    uncharged n standard = elim (Option-cases (get n bill.charged)) [
      | inl absent ↦ ground (arith, absent)
      | inr (c, found) ↦
          let (extra, _) =
            charged_at reserved (actual_draw returned request reserved) budget n c found in
          absurd (ground (arith, extra, standard))
    ]

    -- What a dimension of whole amounts comes to.
    settled_at :
        (middle after : Dict ℕ) (n : String)
        → IsSpent usage dispatch_draw middle
        → IsSpent middle bill.charged after
        → is_whole (used usage n) ≡ true
        → is_whole (used bill.charged n) ≡ true
        → (used after n ≡ used usage n + used dispatch_draw n + used bill.charged n)
          × (is_whole (used after n) ≡ true)
    settled_at middle after n s s' w v =
        let once = tally-IsDict reserved (actual_draw returned request reserved) budget in
        let w₁ = used-whole usage dispatch_draw middle n s w (dispatch_draw-whole n) in
        let v₁ = whole_at-used bill.charged n once v in
        (
          omega (
            arith,
            s'.grown n w₁ v₁,
            s.grown n w (dispatch_draw-whole n),
            total-used bill.charged n once,
            total-used dispatch_draw n dispatch_draw-IsDict,
          ),
          used-whole middle bill.charged after n s' w₁ v₁,
        )

    -- The settlement keeps the counters, whatever was reported.
    pub IsCounted-after :
        (middle after : Dict ℕ)
        → IsSpent usage dispatch_draw middle
        → IsSpent middle bill.charged after
        → IsCounted budget after
    IsCounted-after middle after s s' = record {
      held = λ n q h. s'.held n (s.held n (u.held n q h));
      whole = λ n standard. (at n standard).1;
      counters = λ n q standard h. omega (
        arith,
        (at n standard).0,
        uncharged n standard,
        dispatch-and-reserved n,
        needed n q h (counter-IsWholeAt budget usage n u standard) (u.counters n q standard h),
      );
    }
      where
        at :
            (n : String)
            → contains n standard_dimensions ≡ true
            → (used after n ≡ used usage n + used dispatch_draw n + used bill.charged n)
              × (is_whole (used after n) ≡ true)
        at n standard =
            settled_at middle after n s s' (u.whole n standard)
              (subst (λ m. is_whole m ≡ true) (sym (uncharged n standard)) is_whole-zero)

    -- Where all amounts are whole and the report has no violation, it keeps every dimension.
    pub IsUsage-after :
        (middle after : Dict ℕ)
        → ((n : String) (q : ℕ) → quota budget n ≡ some q → used usage n ≤ q)
        → ((n : String) (q : ℕ) → quota budget n ≡ some q → is_whole q ≡ true)
        → ((n : String) → is_whole (used usage n) ≡ true)
        → ((n : String) → is_whole (used bill.charged n) ≡ true)
        → bill.violations ≡ []
        → IsSpent usage dispatch_draw middle
        → IsSpent middle bill.charged after
        → IsUsage budget after × ((n : String) → is_whole (used after n) ≡ true)
    IsUsage-after middle after bounded quotas before drawn honest s s' =
        let at = λ (n : String). settled_at middle after n s s' (before n) (drawn n) in
        (
          record {
            held = λ n q h. s'.held n (s.held n (u.held n q h));
            whole = λ n standard. (at n).1;
            within = λ n q h. omega (
              arith,
              (at n).0,
              charged-le-reserved reserved (actual_draw returned request reserved) budget n honest,
              dispatch-and-reserved n,
              needed n q h (quotas n, before n) (bounded n q h),
            );
          },
          λ n. (at n).1,
        )
