-- ===== src/Accounting/Reserved.antt =====
-- A resolved reservation holds every dimension once.
use industrial_agent_runtime.Prelude.{
  ℕ, String, ◌≡◌, subst, List, [], ◌∷◌, Dict, get, keys, insert, sorted, IsDict, insert-IsDict, inl,
  inr,
}
use industrial_agent_runtime.Contracts.{ToolSpec, ToolCallRequest}
use industrial_agent_runtime.Decisions.{ok, or_raise, >>=-eq-ok, ok-injective}
use industrial_agent_runtime.Gates.Pipeline.{GatePipeline, Raw, ResolvedReservation}
use industrial_agent_runtime.Gates.Reservation.{
  amount_for, reserve_names, reservation, declared_names, resolved_amount, resolve_names, resolve,
}
use industrial_agent_runtime.Gates.Reservation.Resolve.{refine-cases}

module _ (g : GatePipeline) (id : String) (spec : ToolSpec) where
  reserve_names-IsDict :
      (ns : List String) (reserved draw : Dict ℕ)
      → IsDict reserved
      → reserve_names g id spec ns reserved ≡ ok draw
      → IsDict draw
  unfolding reserve_names
  reserve_names-IsDict [] reserved draw d h = subst IsDict (ok-injective h) d
  reserve_names-IsDict (n ∷ ns) reserved draw d h =
      let (a, _, rest) = >>=-eq-ok (amount_for g id spec n) _ h in
      reserve_names-IsDict ns (insert n a reserved) draw (insert-IsDict n a reserved d) rest

  resolve_names-IsDict :
      (resolved : Dict Raw) (ns : List String) (r s : ResolvedReservation)
      → IsDict r.draw
      → resolve_names g id spec resolved ns r ≡ ok s
      → IsDict s.draw
  unfolding resolve_names
  resolve_names-IsDict resolved [] r s d h = subst (λ t. IsDict t.draw) (ok-injective h) d
  resolve_names-IsDict resolved (n ∷ ns) r s d h =
      let (value, _, h₁) = >>=-eq-ok (or_raise (get n resolved) _) _ h in
      let (a, _, rest) = >>=-eq-ok (resolved_amount g id spec r.draw n value) _ h₁ in
      resolve_names-IsDict resolved ns _ s (insert-IsDict n a r.draw d) rest

pub resolve-IsDict :
    (g : GatePipeline) (request : ToolCallRequest) (spec : ToolSpec) (r : ResolvedReservation)
    → resolve g request spec ≡ ok r
    → IsDict r.draw
unfolding resolve reservation
resolve-IsDict g request spec r h =
    let id = request.request_id in
    let (draw, sized, rest) = >>=-eq-ok (reservation g id spec) _ h in
    let once = reserve_names-IsDict g id spec (declared_names spec) [] draw tt sized in
    elim (refine-cases g request spec _ r rest) [
      | inl same ↦ subst (λ t. IsDict t.draw) same once
      | inr (resolved, loop) ↦
          resolve_names-IsDict g id spec resolved (sorted (keys resolved)) _ r once loop
    ]
