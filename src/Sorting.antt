-- ===== src/Sorting.antt =====
-- `ORDER BY … ASC`: a stable sort by a number. SQL leaves the order of equal keys open.
use mathlib.Core.List.{Perm}
use mathlib.Core.List.Perm
use parda.Base.{
  ℕ, ◌≤◌, ◌≡◌, refl, ap, ◌∙◌, map, List, [], ◌∷◌, arith, leb, if◌then◌else◌, Bool-cases, inl, inr,
  All,
}

module _ {ℓ} {A : Type ℓ} (key : A → ℕ) where
  pub insert_by : A → List A → List A
  insert_by a [] = a ∷ []
  insert_by a (b ∷ bs) =
      let rest = insert_by a bs in if leb (key a) (key b) then a ∷ (b ∷ bs) else b ∷ rest

  unfoldable pub sort_by : List A → List A
  unfolding insert_by
  sort_by [] = []
  sort_by (a ∷ xs) = insert_by a (sort_by xs)

  -- The keys never fall.
  abbrev pub Ascending : List A → Type 0
  Ascending [] = Unit {0}
  Ascending (a ∷ xs) = All (λ b. key a ≤ key b) xs × Ascending xs

  All-weaken : (n m : ℕ) (xs : List A) → n ≤ m → All (λ b. m ≤ key b) xs → All (λ b. n ≤ key b) xs
  All-weaken n m [] h all = tt
  All-weaken n m (a ∷ xs) h all = (omega arith, All-weaken n m xs h all.1)

  All-insert_by :
      (n : ℕ) (a : A) (xs : List A)
      → n ≤ key a
      → All (λ b. n ≤ key b) xs
      → All (λ b. n ≤ key b) (insert_by a xs)
  unfolding insert_by
  All-insert_by n a [] h all = (h, tt)
  All-insert_by n a (b ∷ bs) h all = ground (arith, All-insert_by n a bs h all.1)

  insert_by-Ascending : (a : A) (xs : List A) → Ascending xs → Ascending (insert_by a xs)
  unfolding insert_by
  insert_by-Ascending a [] s = (tt, tt)
  insert_by-Ascending a (b ∷ bs) s = elim (Bool-cases (leb (key a) (key b))) [
    | inl low ↦
        rw (low, insert_by) ((ground arith, All-weaken (key a) (key b) bs (ground arith) s.0), s)
    | inr high ↦
        rw (high, insert_by)
          (All-insert_by (key b) a bs (ground arith) s.0, insert_by-Ascending a bs s.1)
  ]

  pub sort_by-Ascending : (xs : List A) → Ascending (sort_by xs)
  unfolding sort_by
  sort_by-Ascending [] = tt
  sort_by-Ascending (a ∷ xs) = insert_by-Ascending a (sort_by xs) (sort_by-Ascending xs)

  insert_by-perm : (a : A) (xs : List A) → Perm (insert_by a xs) (a ∷ xs)
  unfolding insert_by
  insert_by-perm a [] = Perm.refl (a ∷ [])
  insert_by-perm a (b ∷ bs) = elim (Bool-cases (leb (key a) (key b))) [
    | inl low ↦ rw (low, insert_by) (Perm.refl (a ∷ (b ∷ bs)))
    | inr high ↦
        rw (high, insert_by) (Perm.trans (Perm.cons b (insert_by-perm a bs)) (Perm.swap a b bs))
  ]

  pub sort_by-perm : (xs : List A) → Perm (sort_by xs) xs
  unfolding sort_by
  sort_by-perm [] = Perm.refl []
  sort_by-perm (a ∷ xs) = Perm.trans (insert_by-perm a (sort_by xs)) (Perm.cons a (sort_by-perm xs))

  insert_by-All : (P : A → Type 0) (a : A) (xs : List A) → P a → All P xs → All P (insert_by a xs)
  unfolding insert_by
  insert_by-All P a [] p h = (p, tt)
  insert_by-All P a (b ∷ bs) p h = ground (arith, insert_by-All P a bs p)

  pub All-sort_by : (P : A → Type 0) (xs : List A) → All P xs → All P (sort_by xs)
  unfolding sort_by
  All-sort_by P [] h = tt
  All-sort_by P (a ∷ xs) h = insert_by-All P a (sort_by xs) h.0 (All-sort_by P xs h.1)

-- Sorting commutes with a map that keeps the keys.
module _ {ℓ κ} {A : Type ℓ} {B : Type κ} (f : A → B) (key : B → ℕ) where
  map-insert_by :
      (a : A) (xs : List A)
      → map f (insert_by (λ x. key (f x)) a xs) ≡ insert_by key (f a) (map f xs)
  unfolding insert_by
  map-insert_by a [] = refl
  map-insert_by a (b ∷ bs) = ground (arith, map-insert_by a bs)

  pub map-sort_by : (xs : List A) → map f (sort_by (λ x. key (f x)) xs) ≡ sort_by key (map f xs)
  unfolding sort_by
  map-sort_by [] = refl
  map-sort_by (a ∷ xs) =
      map-insert_by a (sort_by (λ x. key (f x)) xs) ∙ ap (insert_by key (f a)) (map-sort_by xs)
