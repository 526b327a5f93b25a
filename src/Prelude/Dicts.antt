-- ===== src/Prelude/Dicts.antt =====
-- Python's `dict` with text keys, as its entries in the order of insertion, and `set` of texts as
-- the list of its members.
use Prim.Native.String.{String}
use mathlib.Core.Path.{◌≡◌, refl}
use mathlib.Core.Logic.{inl, inr}
use mathlib.Core.Bool.{Bool, true, false, ◌||◌}
use mathlib.Core.Option.{Option, none, some}
use mathlib.Core.List.{List, [], ◌∷◌}
use native.Mathlib.Omega.{arith}
use text.Mathlib.Text.{◌==◌}
use text.Mathlib.TextEquality.{eq_iff}
use dockfleet.Prelude.Tests.{if◌then◌else◌, Bool-cases}

-- `x in s`
unfoldable pub member : String → List String → Bool
member x [] = false
member x (y ∷ s) = y == x || member x s

-- `s.discard(x)`; `s.remove(x)` of a member
unfoldable pub discard : String → List String → List String
discard x [] = []
discard x (y ∷ s) = let rest = discard x s in if y == x then rest else y ∷ rest

pub member-discard :
    (x y : String) (s : List String)
    → member y (discard x s) ≡ (if x == y then false else member y s)
unfolding member discard
member-discard x y [] = ground arith
member-discard x y (z ∷ s) =
    ground (arith, member-discard x y s, eq_iff z x, eq_iff z y, eq_iff x y)

pub discard-absent : (x : String) (s : List String) → member x s ≡ false → discard x s ≡ s
unfolding member discard
discard-absent x [] h = refl
discard-absent x (y ∷ s) h = ground (arith, discard-absent x s)

pub discard-head : (x : String) (s : List String) → member x s ≡ false → discard x (x ∷ s) ≡ s
unfolding discard
discard-head x s h = ground (arith, eq_iff x x, discard-absent x s)

abbrev pub Dict {ℓ} : Type ℓ → Type ℓ
Dict V = List (String × V)

module _ {ℓ} {V : Type ℓ} where
  -- `d.get(k)`
  unfoldable pub lookup : String → Dict V → Option V
  lookup k [] = none
  lookup k ((j, v) ∷ d) = if j == k then some v else lookup k d

  -- `d[k] = v`
  unfoldable pub put : String → V → Dict V → Dict V
  put k v [] = (k, v) ∷ []
  put k v ((j, w) ∷ d) = if j == k then (j, v) ∷ d else (j, w) ∷ put k v d

  -- `d.pop(k, None)`
  unfoldable pub pop : String → Dict V → Dict V
  pop k [] = []
  pop k ((j, v) ∷ d) = let rest = pop k d in if j == k then rest else (j, v) ∷ rest

  unfoldable pub keys : Dict V → List String
  keys [] = []
  keys ((k, v) ∷ d) = k ∷ keys d

  pub lookup-put :
      (k j : String) (v : V) (d : Dict V)
      → lookup j (put k v d) ≡ (if k == j then some v else lookup j d)
  unfolding lookup put
  lookup-put k j v [] = refl
  lookup-put k j v ((i, w) ∷ d) =
      ground (arith, eq_iff k j, eq_iff i k, eq_iff i j, lookup-put k j v d)

  pub lookup-pop :
      (k j : String) (d : Dict V) → lookup j (pop k d) ≡ (if k == j then none else lookup j d)
  unfolding lookup pop
  lookup-pop k j [] = ground arith
  lookup-pop k j ((i, w) ∷ d) = ground (arith, eq_iff k j, eq_iff i k, eq_iff i j, lookup-pop k j d)

  pub lookup_of_member :
      (k : String) (d : Dict V) → member k (keys d) ≡ true → (v : V) × (lookup k d ≡ some v)
  unfolding lookup keys member
  lookup_of_member k [] h = cc
  lookup_of_member k ((j, v) ∷ d) h = elim (Bool-cases (j == k)) [
    | inl here ↦ (v, rw here)
    | inr there ↦ rw there (lookup_of_member k d (ground arith))
  ]

  pub member_of_lookup :
      (k : String) (d : Dict V) (v : V) → lookup k d ≡ some v → member k (keys d) ≡ true
  unfolding lookup keys member
  member_of_lookup k [] v h = cc
  member_of_lookup k ((j, w) ∷ d) v h = elim (Bool-cases (j == k)) [
    | inl here ↦ rw here
    | inr there ↦ rw there (member_of_lookup k d v (rw there at h))
  ]
