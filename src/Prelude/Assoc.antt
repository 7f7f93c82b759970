-- ===== src/Prelude/Assoc.antt =====
-- Dictionaries with string keys as association lists, and collections of names. A lookup reads the
-- first entry of its key, and a write replaces it in place, so insertion order is kept.
use Prim.Native.String.{String}
use mathlib.Core.Path.{◌≡◌, ◌∙◌, refl, sym, subst}
use mathlib.Core.Logic.{inl, inr}
use mathlib.Core.Bool.{Bool, true, false, ◌&&◌, ◌||◌}
use mathlib.Core.Option.{Option, none, some}
use mathlib.Core.List.{List, [], ◌∷◌, ◌++◌}
use native.Mathlib.Omega.{arith}
use text.Mathlib.Text.{◌==◌}
use text.Mathlib.TextEquality.{eq_iff}
use industrial_agent_runtime.Prelude.Tests.{if◌then◌else◌, is_some, Bool-cases}

-- `name in names`
unfoldable pub contains : String → List String → Bool
contains n [] = false
contains n (m ∷ ms) = m == n || contains n ms

-- `set(a) <= set(b)`
unfoldable pub subset : List String → List String → Bool
subset [] ms = true
subset (n ∷ ns) ms = contains n ms && subset ns ms

pub contains-subset :
    (ns ms : List String) (n : String)
    → subset ns ms ≡ true
    → contains n ns ≡ true
    → contains n ms ≡ true
unfolding subset contains
contains-subset [] ms n h m = ground arith
contains-subset (a ∷ ns) ms n h m = ground (arith, eq_iff a n, contains-subset ns ms n)

pub contains-append :
    (n : String) (xs ys : List String) → contains n (xs ++ ys) ≡ (contains n xs || contains n ys)
unfolding contains
contains-append n [] ys = refl
contains-append n (x ∷ xs) ys = ground (arith, contains-append n xs ys)

abbrev pub Dict {ℓ} : Type ℓ → Type ℓ
Dict V = List (String × V)

module _ {ℓ} {V : Type ℓ} where
  unfoldable pub get : String → Dict V → Option V
  get k [] = none
  get k ((j, v) ∷ m) = if j == k then some v else get k m

  unfoldable pub insert : String → V → Dict V → Dict V
  insert k v [] = (k, v) ∷ []
  insert k v ((j, w) ∷ m) = if j == k then (k, v) ∷ m else (j, w) ∷ insert k v m

  unfoldable pub keys : Dict V → List String
  keys [] = []
  keys ((j, v) ∷ m) = j ∷ keys m

  -- `name in mapping`
  unfoldable pub has : String → Dict V → Bool
  has k m = is_some (get k m)

  pub get-insert :
      (k j : String) (v : V) (m : Dict V)
      → get j (insert k v m) ≡ (if k == j then some v else get j m)
  unfolding get insert
  get-insert k j v [] = refl
  get-insert k j v ((i, w) ∷ m) =
      ground (arith, eq_iff k j, eq_iff i k, eq_iff i j, get-insert k j v m)

  pub contains-keys : (k : String) (m : Dict V) → contains k (keys m) ≡ has k m
  unfolding contains keys has get
  contains-keys k [] = refl
  contains-keys k ((j, v) ∷ m) = ground (arith, contains-keys k m)

  -- Every entry of a dict has a property.
  abbrev pub AllEntries : (String → V → Type ℓ) → Dict V → Type ℓ
  AllEntries P m = (k : String) (v : V) → get k m ≡ some v → P k v

  pub AllEntries-insert :
      (P : String → V → Type ℓ) (m : Dict V) (j : String) (w : V)
      → AllEntries P m
      → P j w
      → AllEntries P (insert j w m)
  AllEntries-insert P m j w all p k v h = elim (Bool-cases (j == k)) [
    | inl same ↦
        subst (λ i. P i v) ((eq_iff j k).0 same)
          (subst (P j) (ground (arith, h, get-insert j k w m, same)) p)
    | inr differs ↦ all k v (ground (arith, h, get-insert j k w m, differs))
  ]

  pub AllEntries-nil : (P : String → V → Type ℓ) → AllEntries P []
  unfolding get
  AllEntries-nil P k v h = absurd (cc)

  -- No key twice.
  abbrev pub IsDict : Dict V → Type 0
  IsDict [] = Unit
  IsDict ((k, v) ∷ m) = (has k m ≡ false) × IsDict m

  pub has-insert : (k j : String) (v : V) (m : Dict V) → has j (insert k v m) ≡ (k == j || has j m)
  unfolding has
  has-insert k j v m = ground (arith, get-insert k j v m)

  pub insert-IsDict : (k : String) (v : V) (m : Dict V) → IsDict m → IsDict (insert k v m)
  unfolding insert has get
  insert-IsDict k v [] d = (refl, tt)
  insert-IsDict k v ((j, w) ∷ m) d = elim (Bool-cases (j == k)) [
    | inl same ↦
        subst (λ b. IsDict (if b then (k, v) ∷ m else (j, w) ∷ insert k v m)) (sym same)
          (subst (λ i. has i m ≡ false) ((eq_iff j k).0 same) d.0, d.1)
    | inr differs ↦
        subst (λ b. IsDict (if b then (k, v) ∷ m else (j, w) ∷ insert k v m)) (sym differs)
          (
            has-insert k j v m ∙ ground (arith, d.0, differs, eq_iff k j, eq_iff j k),
            insert-IsDict k v m d.1,
          )
  ]

  pub get-absent : (k : String) (m : Dict V) → has k m ≡ false → get k m ≡ none
  unfolding has
  get-absent k m h = ground (arith, h)
