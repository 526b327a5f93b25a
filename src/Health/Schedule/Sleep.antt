-- ===== src/Health/Schedule/Sleep.antt =====
-- How long the loop sleeps.
use dockfleet.Prelude.{
  ℕ, ◌+◌, ◌*◌, ◌-◌, ◌≤◌, String, ◌≡◌, ◌∙◌, ap, true, List, [], ◌∷◌, some, Dict, lookup, keys,
  member, min, max, All, arith, ◌==◌, eq_iff, Bool-cases, Option-cases, inl, inr,
}
use dockfleet.Cli.Config.{ServiceConfig}
use dockfleet.Health.Schedule.{second, deadlines, earliest, next_sleep}

earliest-le-first : (first : ℕ) (rest : List ℕ) → earliest first rest ≤ first
unfolding earliest
earliest-le-first first [] = omega arith
earliest-le-first first (t ∷ rest) = omega (arith, earliest-le-first (min first t) rest)

earliest-le : (first : ℕ) (rest : List ℕ) → All (λ t. earliest first rest ≤ t) rest
unfolding earliest
earliest-le first [] = tt
earliest-le first (t ∷ rest) =
    (omega (arith, earliest-le-first (min first t) rest), earliest-le (min first t) rest)

pick :
    (P : ℕ → Type 0) (names : List String) (next : Dict ℕ) (name : String) (t : ℕ)
    → All P (deadlines names next)
    → member name names ≡ true
    → lookup name next ≡ some t
    → P t
unfolding deadlines member
pick P [] next name t all m h = cc
pick P (k ∷ names) next name t all m h = elim (Bool-cases (k == name)) [
  | inl here ↦
      let at : lookup k next ≡ some t = ap (λ n. lookup n next) ((eq_iff k name).0 here) ∙ h in
      (rw (at, deadlines) at all).0
  | inr there ↦
      let m' : member name names ≡ true = rw there at m in
      elim (Option-cases (lookup k next)) [
        | inl gone ↦ pick P names next name t (rw (gone, deadlines) at all) m' h
        | inr (u, found) ↦ pick P names next name t (rw (found, deadlines) at all).1 m' h
      ]
]

-- When a service of the configuration has a deadline, the loop sleeps at most the interval of the
-- loop (a second, if that is shorter), so that a stop is noticed, and it does not sleep past any
-- deadline that is still to come.
pub sleep_bounds :
    (services : Dict ServiceConfig) (interval : ℕ) (next : Dict ℕ) (elapsed now : ℕ) (name : String)
    (deadline : ℕ)
    → member name (keys services) ≡ true
    → lookup name next ≡ some deadline
    → now ≤ deadline
    → (next_sleep services interval next elapsed now ≤ max second (interval * second))
      × (now + next_sleep services interval next elapsed now ≤ deadline)
unfolding next_sleep
sleep_bounds services interval next elapsed now name deadline m h later =
    go (deadlines (keys services) next) (λ P all. pick P (keys services) next name deadline all m h)
  where
    go :
        (times : List ℕ)
        → ((P : ℕ → Type 0) → All P times → P deadline)
        → let sleep : ℕ = (elim times [
          | [] ↦ interval * second - elapsed
          | first ∷ rest ↦ min (earliest first rest - now) (max second (interval * second))
        ]) in
          (sleep ≤ max second (interval * second)) × (now + sleep ≤ deadline)
    go [] has = absurd (has (λ t. ⊥) tt)
    go (first ∷ rest) has =
        let soonest =
          has (λ t. earliest first rest ≤ t)
            (earliest-le-first first rest, earliest-le first rest) in
        (omega arith, omega arith)
