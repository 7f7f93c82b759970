-- ===== src/Batch/Waves/Ranked.antt =====
-- The cycle check against a ranking of the keys, in which every dependency stands below its item.
use industrial_agent_runtime.Prelude.{
  ℕ, zero, suc, ◌+◌, ◌≤◌, ◌<◌, String, ◌==◌, ◌≡◌, refl, sym, subst, true, false, not, ◌&&◌, ◌||◌,
  List, [], ◌∷◌, ◌++◌, contains, subset, contains-subset, contains-append, length, inl, inr, ◌⊎◌,
  ◌↔◌, Bool-cases, arith, false≢true, if◌then◌else◌, eq_iff, eq_refl,
}
use industrial_agent_runtime.Batch.Waves.{ready, waiting, is_cyclic}

subset-eq-false :
    (ns ms : List String)
    → subset ns ms ≡ false
    → (n : String) × (contains n ns ≡ true) × (contains n ms ≡ false)
unfolding subset contains
subset-eq-false [] ms h = absurd (false≢true (sym h))
subset-eq-false (n ∷ ns) ms h = elim (Bool-cases (contains n ms)) [
  | inl held ↦
      let (m, listed, free) = subset-eq-false ns ms (ground (arith, h, held)) in
      (m, ground (arith, listed), free)
  | inr free ↦ (n, ground (arith, eq_refl n), free)
]

List-cases {ℓ} : {A : Type ℓ} (xs : List A) → (xs ≡ []) ⊎ ((y : A) × (ys : List A) × (xs ≡ y ∷ ys))
List-cases [] = inl refl
List-cases (x ∷ xs) = inr (x, xs, refl)

module _ (deps : String → List String) where
  -- Every dependency of the keys is among them, and has a lower rank.
  abbrev pub IsRanked : (String → ℕ) → List String → Type 0
  IsRanked rank ks =
      (k d : String) → contains k ks ≡ true → contains d (deps k) ≡ true → rank d < rank k

  pub contains-ready :
      (k : String) (visited pending : List String)
      → contains k (ready deps visited pending) ≡ (contains k pending && subset (deps k) visited)
  unfolding ready contains
  contains-ready k visited [] = refl
  contains-ready k visited (j ∷ ks) = elim (Bool-cases (j == k)) [
    | inl same ↦
        let e = (eq_iff j k).0 same in
        ground (
          arith,
          contains-ready k visited ks,
          same,
          subst (λ i. subset (deps j) visited ≡ subset (deps i) visited) e refl,
        )
    | inr differs ↦ ground (arith, contains-ready k visited ks, differs)
  ]

  pub contains-waiting :
      (k : String) (visited pending : List String)
      → contains k (waiting deps visited pending)
        ≡ (contains k pending && not (subset (deps k) visited))
  unfolding waiting contains
  contains-waiting k visited [] = refl
  contains-waiting k visited (j ∷ ks) = elim (Bool-cases (j == k)) [
    | inl same ↦
        let e = (eq_iff j k).0 same in
        ground (
          arith,
          contains-waiting k visited ks,
          same,
          subst (λ i. subset (deps j) visited ≡ subset (deps i) visited) e refl,
        )
    | inr differs ↦ ground (arith, contains-waiting k visited ks, differs)
  ]

  length-waiting :
      (visited pending : List String)
      → length (ready deps visited pending) + length (waiting deps visited pending) ≡ length pending
  unfolding ready waiting
  length-waiting visited [] = omega arith
  length-waiting visited (k ∷ ks) = ground (arith, length-waiting visited ks)

  -- What a round of waves shows: a dependency is visited, or is pending with a lower rank.
  abbrev IsLayered : (String → ℕ) → (visited pending : List String) → Type 0
  IsLayered rank visited pending =
      (k d : String)
      → contains k pending ≡ true
      → contains d (deps k) ≡ true
      → (contains d visited ≡ true) ⊎ (rank d < rank k)

  next_rank : (String → ℕ) → (visited pending : List String) → String → ℕ
  next_rank rank visited pending k =
      if contains k (ready deps visited pending) then 0 else suc (rank k)

  next_rank-IsLayered :
      (rank : String → ℕ) (visited pending : List String)
      → IsLayered rank (visited ++ ready deps visited pending) (waiting deps visited pending)
      → IsLayered (next_rank rank visited pending) visited pending
  unfolding next_rank
  next_rank-IsLayered rank visited pending layered k d listed dep =
      elim (Bool-cases (subset (deps k) visited)) [
        | inl free ↦ inl (contains-subset (deps k) visited d free dep)
        | inr held ↦
            let waits = contains-waiting k visited pending in
            let not_ready = contains-ready k visited pending in
            elim (layered k d (ground (arith, waits, listed, held)) dep) [
              | inl seen ↦ ground (
                arith,
                contains-append d visited (ready deps visited pending),
                seen,
                not_ready,
                held,
                listed,
              )
              | inr lower ↦ ground (arith, lower, not_ready, held, listed)
            ]
      ]

  is_cyclic-IsLayered :
      (bound : ℕ) (visited pending : List String)
      → is_cyclic deps bound visited pending ≡ false
      → (rank : String → ℕ) × IsLayered rank visited pending
  unfolding is_cyclic contains
  is_cyclic-IsLayered bound visited [] h = (λ k. 0, λ k d listed dep. absurd (false≢true listed))
  is_cyclic-IsLayered zero visited (k ∷ ks) h = absurd (false≢true (sym h))
  is_cyclic-IsLayered (suc bound) visited (k ∷ ks) h =
      let (rank, layered) =
        is_cyclic-IsLayered bound (visited ++ ready deps visited (k ∷ ks))
          (waiting deps visited (k ∷ ks)) (ground (arith, h)) in
      (next_rank rank visited (k ∷ ks), next_rank-IsLayered rank visited (k ∷ ks) layered)

  -- Every dependency is visited or pending.
  abbrev IsClosed : (visited pending : List String) → Type 0
  IsClosed visited pending =
      (k d : String)
      → contains k pending ≡ true
      → contains d (deps k) ≡ true
      → (contains d visited || contains d pending) ≡ true

  IsClosed-next :
      (visited pending : List String)
      → IsClosed visited pending
      → IsClosed (visited ++ ready deps visited pending) (waiting deps visited pending)
  IsClosed-next visited pending closed k d listed dep =
      let waits = contains-waiting k visited pending in
      let known = closed k d (ground (arith, waits, listed)) dep in
      ground (
        arith,
        known,
        contains-append d visited (ready deps visited pending),
        contains-ready d visited pending,
        contains-waiting d visited pending,
      )

  -- Below every pending key there is a pending key of lower rank, where no key is ready.
  descent :
      (rank : String → ℕ) (visited pending : List String)
      → IsClosed visited pending
      → IsRanked rank pending
      → ready deps visited pending ≡ []
      → (n : ℕ) (k : String) → contains k pending ≡ true
      → ¬ (rank k < n)
  unfolding contains
  descent rank visited pending closed ranked idle zero k listed below = omega arith
  descent rank visited pending closed ranked idle (suc n) k listed below =
      let held : subset (deps k) visited ≡ false =
        ground (arith, contains-ready k visited pending, idle, listed) in
      let (d, dep, free) = subset-eq-false (deps k) visited held in
      let there = closed k d listed dep in
      let lower = ranked k d listed dep in
      descent rank visited pending closed ranked idle n d (ground (arith, there, free))
        (omega (arith, lower, below))

  ranked-is_cyclic :
      (rank : String → ℕ) (bound : ℕ) (visited pending : List String)
      → length pending ≤ bound
      → IsClosed visited pending
      → IsRanked rank pending
      → is_cyclic deps bound visited pending ≡ false
  unfolding is_cyclic contains
  ranked-is_cyclic rank bound visited [] enough closed ranked = refl
  ranked-is_cyclic rank zero visited (k ∷ ks) enough closed ranked = absurd (omega arith)
  ranked-is_cyclic rank (suc bound) visited (k ∷ ks) enough closed ranked =
      elim (List-cases (ready deps visited (k ∷ ks))) [
        | inl idle ↦ absurd (
            descent rank visited (k ∷ ks) closed ranked idle (suc (rank k)) k
              (ground (arith, eq_refl k)) (omega arith))
        | inr (r, rs, found) ↦
            let left = waiting deps visited (k ∷ ks) in
            let fewer : length left ≤ bound =
              ground (arith, length-waiting visited (k ∷ ks), found, enough) in
            ground (
              arith,
              found,
              ranked-is_cyclic rank bound (visited ++ ready deps visited (k ∷ ks)) left fewer
                  (IsClosed-next visited (k ∷ ks) closed)
                  (λ j d listed dep.
                    ranked j d (ground (arith, contains-waiting j visited (k ∷ ks), listed)) dep),
            )
      ]

-- The cycle check passes exactly if the keys have a ranking, where every dependency is one of them.
pub is_cyclic_iff :
    (deps : String → List String) (ks : List String)
    → ((k d : String) → contains k ks ≡ true → contains d (deps k) ≡ true → contains d ks ≡ true)
    → (is_cyclic deps (length ks) [] ks ≡ false) ↔ ((rank : String → ℕ) × IsRanked deps rank ks)
unfolding contains
is_cyclic_iff deps ks closed = (
  λ h.
      let (rank, layered) = is_cyclic-IsLayered deps (length ks) [] ks h in
      (
        rank,
        λ k d listed dep. (elim (layered k d listed dep) [
          | inl seen ↦ absurd (false≢true seen)
          | inr lower ↦ lower
        ]),
      ),
  λ (rank, ranked). ranked-is_cyclic deps rank (length ks) [] ks (omega arith) closed ranked,
)
