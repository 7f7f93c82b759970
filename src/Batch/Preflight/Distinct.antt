-- ===== src/Batch/Preflight/Distinct.antt =====
-- Names that stand once: what `_validate_batch` learns from the length of its dictionary of items
-- (src/industrial_agent_runtime/coordinator.py).
use industrial_agent_runtime.Prelude.{
  suc, ◌+◌, ◌≤◌, String, ◌==◌, ◌≡◌, ◌∙◌, refl, true, false, ◌||◌, List, [], ◌∷◌, ◌++◌, Dict, get,
  has, insert, sym, ap, subst, eq_refl, keys, contains, length, has-insert, arith, eq_iff, inl, inr,
  Bool-cases, if◌then◌else◌,
}
use industrial_agent_runtime.Actions.{WorkItem}
use industrial_agent_runtime.Batch.Preflight.{index}

abbrev pub IsDistinct : List String → Type 0
IsDistinct [] = Unit
IsDistinct (n ∷ ns) = (contains n ns ≡ false) × IsDistinct ns

abbrev pub work_ids : List WorkItem → List String
work_ids [] = []
work_ids (x ∷ xs) = x.work_id ∷ work_ids xs

module _ {ℓ} {V : Type ℓ} where
  length-insert :
      (k : String) (v : V) (m : Dict V)
      → length (insert k v m) ≡ (if has k m then length m else suc (length m))
  unfolding insert has get
  length-insert k v [] = refl
  length-insert k v ((j, w) ∷ m) = ground (arith, length-insert k v m)

  -- A new key stands behind.
  pub insert-absent :
      (k : String) (v : V) (m : Dict V) → has k m ≡ false → insert k v m ≡ m ++ (k, v) ∷ []
  unfolding insert has get
  insert-absent k v [] h = refl
  insert-absent k v ((j, w) ∷ m) h = ground (arith, insert-absent k v m, h)

  keys-insert :
      (k : String) (v : V) (m : Dict V) → has k m ≡ false → keys (insert k v m) ≡ keys m ++ k ∷ []
  unfolding keys insert has get
  keys-insert k v [] h = refl
  keys-insert k v ((j, w) ∷ m) h = ground (arith, keys-insert k v m, h)

length-index : (xs : List WorkItem) (m : Dict WorkItem) → length (index xs m) ≤ length m + length xs
unfolding index
length-index [] m = omega arith
length-index (x ∷ xs) m =
    ground (arith, length-index xs (insert x.work_id x m), length-insert x.work_id x m)

append_nil : (xs : List String) → xs ++ [] ≡ xs
append_nil [] = refl
append_nil (x ∷ xs) = rw (append_nil xs)

append_assoc : (xs ys zs : List String) → (xs ++ ys) ++ zs ≡ xs ++ (ys ++ zs)
append_assoc [] ys zs = refl
append_assoc (x ∷ xs) ys zs = rw (append_assoc xs ys zs)

-- A dictionary that grew by every item has read no id twice, and lists them in their order.
pub index-IsDistinct :
    (xs : List WorkItem) (m : Dict WorkItem)
    → length (index xs m) ≡ length m + length xs
    → IsDistinct (work_ids xs)
      × ((k : String) → contains k (work_ids xs) ≡ true → has k m ≡ false)
      × (keys (index xs m) ≡ keys m ++ work_ids xs)
unfolding index contains
index-IsDistinct [] m h = (tt, λ k c. absurd (cc), sym (append_nil (keys m)))
index-IsDistinct (x ∷ xs) m h =
    let grew = length-insert x.work_id x m in
    let fresh : has x.work_id m ≡ false =
      ground (arith, h, grew, length-index xs (insert x.work_id x m)) in
    let (rest, free, order) =
      index-IsDistinct xs (insert x.work_id x m) (ground (arith, h, grew, fresh)) in
    let added = λ (k : String). has-insert x.work_id k x m in
    (
      (once free added, rest),
      λ k listed. unheld fresh free added k listed,
      order
          ∙ (ap (λ ks. ks ++ work_ids xs) (keys-insert x.work_id x m fresh)
              ∙ append_assoc (keys m) (x.work_id ∷ []) (work_ids xs)),
    )
  where
    unheld :
        has x.work_id m ≡ false
        → ((k : String) → contains k (work_ids xs) ≡ true → has k (insert x.work_id x m) ≡ false)
        → ((k : String) → has k (insert x.work_id x m) ≡ (x.work_id == k || has k m))
        → (k : String) → (x.work_id == k || contains k (work_ids xs)) ≡ true
        → has k m ≡ false
    unheld fresh free added k listed = elim (Bool-cases (x.work_id == k)) [
      | inl same ↦ subst (λ i. has i m ≡ false) ((eq_iff x.work_id k).0 same) fresh
      | inr differs ↦ ground (arith, added k, free k (ground (arith, listed, differs)))
    ]

    once :
        ((k : String) → contains k (work_ids xs) ≡ true → has k (insert x.work_id x m) ≡ false)
        → ((k : String) → has k (insert x.work_id x m) ≡ (x.work_id == k || has k m))
        → contains x.work_id (work_ids xs) ≡ false
    once free added = elim (Bool-cases (contains x.work_id (work_ids xs))) [
      | inl again ↦
          absurd (ground (arith, free x.work_id again, added x.work_id, eq_refl x.work_id))
      | inr absent ↦ absent
    ]
