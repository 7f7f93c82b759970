-- ===== src/Coordinator/Ledger/Refines.antt =====
-- How a method of the coordinator is read as steps of the ledger
-- (src/industrial_agent_runtime/coordinator.py): it leaves the ledger as it was, or makes steps.
pub mod Authorization
pub mod Dispatch
pub mod Ingest
pub mod Turns
pub mod Turn
pub mod Rounds
use industrial_agent_runtime.Prelude.{
  ℕ, String, ◌==◌, ◌≡◌, ◌∙◌, refl, sym, ap, subst, Bool, true, false, Option, none, some, List, [],
  ◌∷◌, Dict, ◌⊎◌, inl, inr,
}
use industrial_agent_runtime.Decisions.{Result, ok, err, Error, GateDecision}
use industrial_agent_runtime.Accounting.{charge}
use industrial_agent_runtime.Coordinator.{
  State, Coordinator, Method, Notice, continue, raise, event, notify, deny, spend_budget,
}
use industrial_agent_runtime.Coordinator.Ledger.{
  Ledger, view, Step, charged, Steps, none_left, step, Steps-append,
}

pub Result-cases :
    {A : Type 0} (r : Result A) → ((e : Error) × (r ≡ err e)) ⊎ ((a : A) × (r ≡ ok a))
Result-cases (err e) = inl (e, refl)
Result-cases (ok a) = inr (a, refl)

module _ {W : Type 0} (c : Coordinator W) where
  abbrev pub Reaches : Ledger → Ledger → Type 0
  Reaches = Steps c.pipeline c.verification

  -- From every state, the method makes steps.
  abbrev pub Keeps : {A : Type 0} → Method W A → Type 0
  Keeps m = (s : State W) → Reaches (view s) (view (m s).1)

  -- An outcome that left the ledger, with a property of the value where there is one.
  abbrev pub Reads : {A : Type 0} → Ledger → (A → Type 0) → Result A × State W → Type 0
  Reads l P (err e, s) = view s ≡ l
  Reads l P (ok a, s) = (view s ≡ l) × P a

  pub Reads-continue :
      {A B : Type 0} (l : Ledger) (P : A → Type 0) (Q : B → Type 0) (next : A → Method W B)
      (r : Result A × State W)
      → Reads l P r
      → ((a : A) (s : State W) → view s ≡ l → P a → Reads l Q (next a s))
      → Reads l Q (continue raise next r)
  Reads-continue l P Q next (err e, s) h k = h
  Reads-continue l P Q next (ok a, s) h k = k a s h.0 h.1

  pub Reads-attempt :
      {A B : Type 0} (l : Ledger) (P : A → Type 0) (Q : B → Type 0) (handler : Error → Method W B)
      (next : A → Method W B) (r : Result A × State W)
      → Reads l P r
      → ((e : Error) (s : State W) → view s ≡ l → Reads l Q (handler e s))
      → ((a : A) (s : State W) → view s ≡ l → P a → Reads l Q (next a s))
      → Reads l Q (continue handler next r)
  Reads-attempt l P Q handler next (err e, s) h k₁ k₂ = k₁ e s h
  Reads-attempt l P Q handler next (ok a, s) h k₁ k₂ = k₂ a s h.0 h.1

  pub Reaches-continue :
      {A B : Type 0} (l k : Ledger) (P : A → Type 0) (handler : Error → Method W B)
      (next : A → Method W B) (r : Result A × State W)
      → Reads k P r
      → ((e : Error) (s : State W) → view s ≡ k → Reaches l (view (handler e s).1))
      → ((a : A) (s : State W) → view s ≡ k → P a → Reaches l (view (next a s).1))
      → Reaches l (view (continue handler next r).1)
  Reaches-continue l k P handler next (err e, s) h k₁ k₂ = k₁ e s h
  Reaches-continue l k P handler next (ok a, s) h k₁ k₂ = k₂ a s h.0 h.1

  pub Reaches-Reads :
      {A : Type 0} (l k : Ledger) (r : Result A × State W)
      → Reads k (λ _. Unit {0}) r
      → k ≡ l
      → Reaches l (view r.1)
  Reaches-Reads l k (err e, s) h same = subst (Reaches l) (sym (h ∙ same)) none_left
  Reaches-Reads l k (ok a, s) h same = subst (Reaches l) (sym (h.0 ∙ same)) none_left

  pub Keeps-continue :
      {A B : Type 0} (l : Ledger) (handler : Error → Method W B) (next : A → Method W B)
      (r : Result A × State W)
      → Reaches l (view r.1)
      → ((e : Error) → Keeps (handler e))
      → ((a : A) → Keeps (next a))
      → Reaches l (view (continue handler next r).1)
  Keeps-continue l handler next (err e, s) h k₁ k₂ =
      Steps-append c.pipeline c.verification h (k₁ e s)
  Keeps-continue l handler next (ok a, s) h k₁ k₂ =
      Steps-append c.pipeline c.verification h (k₂ a s)

  pub Keeps-bind :
      {A B : Type 0} (m : Method W A) (next : A → Method W B)
      → Keeps m
      → ((a : A) → Keeps (next a))
      → Keeps (λ s. continue raise next (m s))
  Keeps-bind m next h k s = Keeps-continue (view s) raise next (m s) (h s) (λ e s'. none_left) k

  pub Keeps-attempt :
      {A B : Type 0} (m : Method W A) (handler : Error → Method W B) (next : A → Method W B)
      → Keeps m
      → ((e : Error) → Keeps (handler e))
      → ((a : A) → Keeps (next a))
      → Keeps (λ s. continue handler next (m s))
  Keeps-attempt m handler next h k₁ k₂ s = Keeps-continue (view s) handler next (m s) (h s) k₁ k₂

  -- A method that leaves the ledger in every case.
  pub Keeps-same : {A : Type 0} (m : Method W A) → ((s : State W) → view (m s).1 ≡ view s) → Keeps m
  Keeps-same m h s = subst (Reaches (view s)) (sym (h s)) none_left

  pub at : {l m : Ledger} (s : State W) → view s ≡ l → Reaches (view s) m → Reaches l m
  at {l} {m} s e p = subst (λ k. Reaches k m) e p

  pub spend_budget-cases :
      (draw : Dict ℕ) (s : State W)
      → ((e : Error) × (spend_budget c draw s ≡ (err e, s)))
        ⊎ ((usage : Dict ℕ) × (charge c.pipeline.task.budget s.usage draw ≡ ok usage)
            × (spend_budget c draw s ≡ (ok tt, record s { usage = usage })))
  unfolding spend_budget
  spend_budget-cases draw s = elim (Result-cases (charge c.pipeline.task.budget s.usage draw)) [
    | inl (e, h) ↦
        inl (e, ap (λ r. continue raise (λ u. λ s. (ok tt, record s { usage = u })) (r, s)) h)
    | inr (u, h) ↦
        inr (u, h, ap (λ r. continue raise (λ u. λ s. (ok tt, record s { usage = u })) (r, s)) h)
  ]

  -- A denial is no violation of a reservation.
  pub deny-view :
      (stage : String) (e : Error) (ids : Dict String) (s : State W)
      → view (deny stage e ids s).1 ≡ view s
  unfolding deny
  deny-view stage e ids s = refl
