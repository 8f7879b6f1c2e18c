-- ===== src/HashMap.antt =====
-- `std::collections::HashMap` and the SQL tables with a primary key: association lists over keys
-- with decidable equality. Iteration goes in insertion order, which is one of the orders that the
-- source's unordered iteration may take.
pub mod Within
use parda.Base.{
  ℕ, ◌+◌, ◌≡◌, refl, Bool, false, ◌||◌, Option, none, some, List, [], ◌∷◌, ◌++◌, arith,
  if◌then◌else◌, KeyEq, ◌==◌, keep_if, sum_by, All, length, ◌≤◌,
}

abbrev pub HashMap {ℓ κ} : Type ℓ → Type κ → Type (ℓ ⊔ κ)
HashMap K V = List (K × V)

module _ {ℓ κ} {K : Type ℓ} {V : Type κ} ⦃e : KeyEq K⦄ where
  abbrev pub lookup : K → HashMap K V → Option V
  lookup k [] = none
  lookup k ((j, v) ∷ m) = if j == k then some v else lookup k m

  abbrev pub contains_key : K → HashMap K V → Bool
  contains_key k [] = false
  contains_key k ((j, v) ∷ m) = j == k || contains_key k m

  -- A key that is there gets the new value.
  unfoldable pub insert : K → V → HashMap K V → HashMap K V
  insert k v [] = (k, v) ∷ []
  insert k v ((j, w) ∷ m) = if j == k then (k, v) ∷ m else (j, w) ∷ insert k v m

  unfoldable pub remove : K → HashMap K V → HashMap K V
  remove k [] = []
  remove k ((j, w) ∷ m) = let rest = remove k m in if j == k then rest else (j, w) ∷ rest

  -- Every key stands once.
  abbrev pub Distinct : HashMap K V → Type 0
  Distinct [] = Unit {0}
  Distinct ((k, v) ∷ m) = (contains_key k m ≡ false) × Distinct m

  pub lookup-insert :
      (k j : K) (v : V) (m : HashMap K V)
      → lookup j (insert k v m) ≡ (if k == j then some v else lookup j m)
  unfolding insert
  lookup-insert k j v [] = refl
  lookup-insert k j v ((i, w) ∷ m) =
      ground
        (arith, e.same_key_iff k j, e.same_key_iff i k, e.same_key_iff i j, lookup-insert k j v m)

  pub lookup-remove :
      (k j : K) (m : HashMap K V) → lookup j (remove k m) ≡ (if k == j then none else lookup j m)
  unfolding remove
  lookup-remove k j [] = ground arith
  lookup-remove k j ((i, w) ∷ m) =
      ground
        (arith, e.same_key_iff k j, e.same_key_iff i k, e.same_key_iff i j, lookup-remove k j m)

  pub contains_key-insert :
      (k j : K) (v : V) (m : HashMap K V)
      → contains_key j (insert k v m) ≡ (k == j || contains_key j m)
  unfolding insert
  contains_key-insert k j v [] = refl
  contains_key-insert k j v ((i, w) ∷ m) = ground (
    arith,
    e.same_key_iff k j,
    e.same_key_iff i k,
    e.same_key_iff i j,
    contains_key-insert k j v m,
  )

  pub contains_key-remove :
      (k j : K) (m : HashMap K V)
      → contains_key j (remove k m) ≡ (if k == j then false else contains_key j m)
  unfolding remove
  contains_key-remove k j [] = ground arith
  contains_key-remove k j ((i, w) ∷ m) =
      ground (
        arith,
        e.same_key_iff k j,
        e.same_key_iff i k,
        e.same_key_iff i j,
        contains_key-remove k j m,
      )

  pub insert-Distinct : (k : K) (v : V) (m : HashMap K V) → Distinct m → Distinct (insert k v m)
  unfolding insert
  insert-Distinct k v [] d = (refl, tt)
  insert-Distinct k v ((i, w) ∷ m) d = ground (
    arith,
    insert-Distinct k v m,
    contains_key-insert k i v m,
    e.same_key_iff i k,
    e.same_key_iff k i,
  )

  pub remove-Distinct : (k : K) (m : HashMap K V) → Distinct m → Distinct (remove k m)
  unfolding remove
  remove-Distinct k [] d = tt
  remove-Distinct k ((i, w) ∷ m) d = ground (arith, remove-Distinct k m, contains_key-remove k i m)

  -- An absent key is appended, so a size grows by one.
  pub insert_absent :
      (k : K) (v : V) (m : HashMap K V) → contains_key k m ≡ false → insert k v m ≡ m ++ (k, v) ∷ []
  unfolding insert
  insert_absent k v [] h = refl
  insert_absent k v ((i, w) ∷ m) h = ground (arith, insert_absent k v m)

  pub remove_absent : (k : K) (m : HashMap K V) → contains_key k m ≡ false → remove k m ≡ m
  unfolding remove
  remove_absent k [] h = refl
  remove_absent k ((i, w) ∷ m) h = ground (arith, remove_absent k m)

  -- Removing a key that is there takes its own share out of any sum over the entries.
  pub sum_by-remove :
      (size : K × V → ℕ) (k : K) (v : V) (m : HashMap K V)
      → Distinct m
      → lookup k m ≡ some v
      → size (k, v) + sum_by size (remove k m) ≡ sum_by size m
  unfolding remove
  sum_by-remove size k v [] d h = cc
  sum_by-remove size k v ((i, w) ∷ m) d h =
      ground (arith, e.same_key_iff i k, remove_absent k m, sum_by-remove size k v m)

  pub contains_key-lookup : (k : K) (m : HashMap K V) → lookup k m ≡ none → contains_key k m ≡ false
  contains_key-lookup k [] h = refl
  contains_key-lookup k ((i, w) ∷ m) h = ground (arith, contains_key-lookup k m)

  pub lookup_absent : (k : K) (m : HashMap K V) → contains_key k m ≡ false → lookup k m ≡ none
  lookup_absent k [] h = refl
  lookup_absent k ((i, w) ∷ m) h = ground (arith, lookup_absent k m)

  pub contains_key-keep_if :
      (k : K) (test : K × V → Bool) (m : HashMap K V)
      → contains_key k m ≡ false
      → contains_key k (keep_if test m) ≡ false
  contains_key-keep_if k test [] h = refl
  contains_key-keep_if k test ((i, w) ∷ m) h = ground (arith, contains_key-keep_if k test m)

  pub keep_if-Distinct :
      (test : K × V → Bool) (m : HashMap K V) → Distinct m → Distinct (keep_if test m)
  keep_if-Distinct test [] d = tt
  keep_if-Distinct test ((i, w) ∷ m) d =
      ground (arith, keep_if-Distinct test m, contains_key-keep_if i test m)

  -- What a lookup finds after a filter on the entries.
  abbrev pub passing : (K × V → Bool) → K → Option V → Option V
  passing test k none = none
  passing test k (some v) = if test (k, v) then some v else none

  pub lookup-keep_if :
      (test : K × V → Bool) (k : K) (m : HashMap K V)
      → Distinct m
      → lookup k (keep_if test m) ≡ passing test k (lookup k m)
  lookup-keep_if test k [] d = refl
  lookup-keep_if test k ((i, w) ∷ m) d = ground (
    arith,
    e.same_key_iff i k,
    lookup-keep_if test k m,
    lookup_absent k m,
    contains_key-keep_if k test m,
    lookup_absent k (keep_if test m),
  )

  pub remove-All : (P : K × V → Type 0) (k : K) (m : HashMap K V) → All P m → All P (remove k m)
  unfolding remove
  remove-All P k [] h = tt
  remove-All P k ((i, w) ∷ m) h = ground (arith, remove-All P k m)

  pub insert-All :
      (P : K × V → Type 0) (k : K) (v : V) (m : HashMap K V)
      → P (k, v)
      → All P m
      → All P (insert k v m)
  unfolding insert
  insert-All P k v [] p h = (p, tt)
  insert-All P k v ((i, w) ∷ m) p h = ground (arith, insert-All P k v m p)

  pub length-remove-le : (k : K) (m : HashMap K V) → length (remove k m) ≤ length m
  unfolding remove
  length-remove-le k [] = omega arith
  length-remove-le k ((i, w) ∷ m) = ground (arith, length-remove-le k m)
