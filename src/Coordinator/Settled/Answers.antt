-- ===== src/Coordinator/Settled/Answers.antt =====
-- What the answer of a method has where it returns (src/industrial_agent_runtime/coordinator.py).
use industrial_agent_runtime.Prelude.{◌≡◌, refl, ap, subst, ◌⊎◌, inl, inr}
use industrial_agent_runtime.Decisions.{Result, ok, err, Error, ok-injective}
use industrial_agent_runtime.Coordinator.{State, Method, raise, continue, pure}

module _ {W : Type 0} where
  continue-eq-ok :
      {A B : Type 0} (next : A → Method W B) (r : Result A × State W) {b : B} {after : State W}
      → continue raise next r ≡ (ok b, after)
      → (a : A) × (s : State W) × (r ≡ (ok a, s)) × (next a s ≡ (ok b, after))
  continue-eq-ok next (err e, s) h = absurd (cc)
  continue-eq-ok next (ok a, s) h = (a, s, refl, h)

  -- Where the method returns, its answer has a property.
  abbrev pub Ends : {A : Type 0} → Method W A → (A → Type 0) → Type 0
  Ends {A} m P = (s : State W) (a : A) (after : State W) → m s ≡ (ok a, after) → P a

  pub Ends-pure : {A : Type 0} (P : A → Type 0) (a : A) → P a → Ends (pure a) P
  Ends-pure P a p s b after h = subst P (ok-injective (ap (λ r. r.0) h)) p

  pub Ends-bind :
      {A B : Type 0} (Q : A → Type 0) (P : B → Type 0) (m : Method W A) (next : A → Method W B)
      → Ends m Q
      → ((a : A) → Q a → Ends (next a) P)
      → Ends (λ s. continue raise next (m s)) P
  Ends-bind Q P m next h k s b after e =
      let (a, s₁, first, rest) = continue-eq-ok next (m s) e in k a (h s a s₁ first) s₁ b after rest

  pub Ends-any : {A : Type 0} (m : Method W A) → Ends m (λ _. Unit {0})
  Ends-any m s a after h = tt

pub returned :
    {W A : Type 0} (r : Result A × State W)
    → ((e : Error) × (r.0 ≡ err e)) ⊎ ((a : A) × (r.0 ≡ ok a) × (r ≡ (ok a, r.1)))
returned (err e, s) = inl (e, refl)
returned (ok a, s) = inr (a, refl, refl)
