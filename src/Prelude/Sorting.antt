-- ===== src/Prelude/Sorting.antt =====
-- The rows of a query: `where`, and `order by` as the insertion of the rows one by one.
use Prim.Native.Nat.{suc, ◌≤◌}
use mathlib.Core.Path.{◌≡◌, refl, ap, ◌∙◌}
use mathlib.Core.Logic.{inl, inr}
use mathlib.Core.Bool.{Bool, true, false}
use mathlib.Core.List.{List, [], ◌∷◌}
use native.Mathlib.Omega.{arith}
use dockfleet.Prelude.Tests.{if◌then◌else◌, Bool-cases}
use dockfleet.Prelude.Lists.{length, All, All-map_of}

module _ {ℓ} {A : Type ℓ} where
  unfoldable pub filter : (A → Bool) → List A → List A
  filter p [] = []
  filter p (x ∷ xs) = let rest = filter p xs in if p x then x ∷ rest else rest

  pub length-filter_le : (p : A → Bool) (xs : List A) → length (filter p xs) ≤ length xs
  unfolding filter
  length-filter_le p [] = omega arith
  length-filter_le p (x ∷ xs) = ground (arith, length-filter_le p xs)

  pub filter_keeps : (p : A → Bool) (xs : List A) → All (λ x. p x ≡ true) xs → filter p xs ≡ xs
  unfolding filter
  filter_keeps p [] h = refl
  filter_keeps p (x ∷ xs) h = rw (h.0, filter_keeps p xs h.1)

  pub filter_drops : (p : A → Bool) (xs : List A) → All (λ x. p x ≡ false) xs → filter p xs ≡ []
  unfolding filter
  filter_drops p [] h = refl
  filter_drops p (x ∷ xs) h = rw (h.0, filter_drops p xs h.1)

  pub filter-All {κ} :
      (P : A → Type κ) (p : A → Bool) (xs : List A) → All P xs → All P (filter p xs)
  unfolding filter
  filter-All P p [] h = tt
  filter-All P p (x ∷ xs) h = elim (Bool-cases (p x)) [
    | inl kept ↦ rw kept (h.0, filter-All P p xs h.1)
    | inr dropped ↦ rw dropped (filter-All P p xs h.1)
  ]

  -- A second condition that the rows of the first fulfil anyway.
  pub filter-filter :
      (p q : A → Bool) (xs : List A)
      → All (λ x. p x ≡ true → q x ≡ true) xs
      → filter p (filter q xs) ≡ filter p xs
  unfolding filter
  filter-filter p q [] h = refl
  filter-filter p q (x ∷ xs) h = elim (Bool-cases (p x)) [
    | inl kept ↦ rw (kept, h.0 kept, filter) (rw (kept, filter-filter p q xs h.1))
    | inr dropped ↦ elim (Bool-cases (q x)) [
      | inl both ↦ rw (dropped, both, filter) (rw (dropped, filter-filter p q xs h.1))
      | inr neither ↦ rw (dropped, neither, filter) (filter-filter p q xs h.1)
    ]
  ]

  -- Each item stands in this relation to those behind it.
  abbrev pub Pairs {κ} : (A → A → Type κ) → List A → Type κ
  Pairs R [] = Unit
  Pairs R (x ∷ xs) = All (R x) xs × Pairs R xs

  pub filter-holds : (p : A → Bool) (xs : List A) → All (λ x. p x ≡ true) (filter p xs)
  unfolding filter
  filter-holds p [] = tt
  filter-holds p (x ∷ xs) = elim (Bool-cases (p x)) [
    | inl kept ↦ rw kept (kept, filter-holds p xs)
    | inr dropped ↦ rw dropped (filter-holds p xs)
  ]

  pub filter-Pairs {κ} :
      (R : A → A → Type κ) (p : A → Bool) (xs : List A) → Pairs R xs → Pairs R (filter p xs)
  unfolding filter
  filter-Pairs R p [] h = tt
  filter-Pairs R p (x ∷ xs) h = elim (Bool-cases (p x)) [
    | inl kept ↦ rw kept (filter-All (R x) p xs h.0, filter-Pairs R p xs h.1)
    | inr dropped ↦ rw dropped (filter-Pairs R p xs h.1)
  ]

module _ {ℓ} {A : Type ℓ} (before : A → A → Bool) where
  unfoldable pub insert_by : A → List A → List A
  insert_by x [] = x ∷ []
  insert_by x (y ∷ ys) = let rest = insert_by x ys in if before x y then x ∷ y ∷ ys else y ∷ rest

  unfoldable pub sort_by : List A → List A
  unfolding insert_by
  sort_by [] = []
  sort_by (x ∷ xs) = insert_by x (sort_by xs)

  length-insert_by : (x : A) (ys : List A) → length (insert_by x ys) ≡ suc (length ys)
  unfolding insert_by
  length-insert_by x [] = refl
  length-insert_by x (y ∷ ys) = ground (arith, length-insert_by x ys)

  pub length-sort_by : (xs : List A) → length (sort_by xs) ≡ length xs
  unfolding sort_by
  length-sort_by [] = refl
  length-sort_by (x ∷ xs) = length-insert_by x (sort_by xs) ∙ ap suc (length-sort_by xs)

  abbrev pub Before : A → A → Type 0
  Before x y = before x y ≡ true

  abbrev pub Sorted : List A → Type 0
  Sorted = Pairs Before

  pub insert_by-All {κ} :
      (P : A → Type κ) (x : A) (ys : List A) → P x → All P ys → All P (insert_by x ys)
  unfolding insert_by
  insert_by-All P x [] p h = (p, tt)
  insert_by-All P x (y ∷ ys) p h = elim (Bool-cases (before x y)) [
    | inl first ↦ rw first (p, h)
    | inr later ↦ rw later (h.0, insert_by-All P x ys p h.1)
  ]

  pub sort_by-All {κ} : (P : A → Type κ) (xs : List A) → All P xs → All P (sort_by xs)
  unfolding sort_by
  sort_by-All P [] h = tt
  sort_by-All P (x ∷ xs) h = insert_by-All P x (sort_by xs) h.0 (sort_by-All P xs h.1)

-- An order in which any two of the rows that are told apart by `Apart` are comparable.
module _ {ℓ} {A : Type ℓ} (before : A → A → Bool) (Apart : A → A → Type 0)
    (total : (x y : A) → Apart x y → before x y ≡ false → before y x ≡ true)
    (trans : (x y z : A) → before x y ≡ true → before y z ≡ true → before x z ≡ true) where
  insert_by-Sorted :
      (x : A) (ys : List A)
      → All (Apart x) ys
      → Sorted before ys
      → Sorted before (insert_by before x ys)
  unfolding insert_by
  insert_by-Sorted x [] d h = (tt, tt)
  insert_by-Sorted x (y ∷ ys) d h = elim (Bool-cases (before x y)) [
    | inl first ↦ rw first ((first, All-map_of (λ z. trans x y z first) ys h.0), h)
    | inr later ↦ rw later (
      insert_by-All before (Before before y) x ys (total x y d.0 later) h.0,
      insert_by-Sorted x ys d.1 h.1,
    )
  ]

  pub sort_by-Sorted : (xs : List A) → Pairs Apart xs → Sorted before (sort_by before xs)
  unfolding sort_by
  sort_by-Sorted [] d = tt
  sort_by-Sorted (x ∷ xs) d =
      insert_by-Sorted x (sort_by before xs) (sort_by-All before (Apart x) xs d.0)
        (sort_by-Sorted xs d.1)

  insert_by-first :
      (x : A) (ys : List A) → All (Before before x) ys → insert_by before x ys ≡ x ∷ ys
  unfolding insert_by
  insert_by-first x [] h = refl
  insert_by-first x (y ∷ ys) h = rw h.0 refl

  -- A condition on the rows may be tried before they are sorted, or afterwards.
  filter-insert_by :
      (p : A → Bool) (x : A) (ys : List A)
      → Sorted before ys
      → filter p (insert_by before x ys)
        ≡ (if p x then insert_by before x (filter p ys) else filter p ys)
  unfolding filter insert_by
  filter-insert_by p x [] h = ground arith
  filter-insert_by p x (y ∷ ys) h = elim (Bool-cases (before x y)) [
    | inl first ↦ elim (Bool-cases (p y)) [
      | inl kept ↦ rw (first, kept, filter, insert_by) (rw first refl)
      | inr dropped ↦
          rw
            (
              first,
              dropped,
              filter,
              insert_by-first x (filter p ys)
                  (filter-All (Before before x) p ys (All-map_of (λ z. trans x y z first) ys h.0)),
            )
            refl
    ]
    | inr later ↦ elim (Bool-cases (p y)) [
      | inl kept ↦ rw (later, kept, filter, filter-insert_by p x ys h.1) (ground (arith, later))
      | inr dropped ↦ rw (later, dropped, filter) (filter-insert_by p x ys h.1)
    ]
  ]

  pub filter-sort_by :
      (p : A → Bool) (xs : List A)
      → Pairs Apart xs
      → filter p (sort_by before xs) ≡ sort_by before (filter p xs)
  unfolding filter sort_by
  filter-sort_by p [] d = refl
  filter-sort_by p (x ∷ xs) d =
      filter-insert_by p x (sort_by before xs) (sort_by-Sorted xs d.1) ∙ elim (Bool-cases (p x)) [
        | inl kept ↦ rw (kept, filter-sort_by p xs d.1) refl
        | inr dropped ↦ rw (dropped, filter-sort_by p xs d.1) refl
      ]
