-- ===== src/Core/Order/Cycles.antt =====
-- Walks that fail, and services that depend on themselves.
use dockfleet.Prelude.{
  ℕ, zero, suc, ◌<◌, String, ◌≡◌, ◌∙◌, refl, ap, eq_iff, true, false, List, [], ◌∷◌, inl, inr, ◌⊎◌,
  lookup, keys, member, lookup_of_member, member_of_lookup, length, All, All-map_of, arith,
  Bool-cases, Option-cases, ◌==◌,
}
use dockfleet.Cli.Config.{or_empty}
use dockfleet.Core.Order.{
  Failure, Result, ok, err, ◌>>=◌, Walk, start, Services, known, for_each, enter, visit, deps_of,
  circular,
}
use dockfleet.Core.Order.Sound.{Sane, Visits, entered, left, visit-Visits, enter-Sane}
use dockfleet.Core.Order.Depth.{outstanding, outstanding-lt, outstanding-le-length, length-keys}

-- `Depends services a b`: `a` depends on `b`, over one service or more.
pub data Depends (services : Services) : String → String → Type 0 where
  direct : {a b : String} → member b (deps_of services a) ≡ true → Depends services a b
  over :
      {a b c : String}
      → member b (deps_of services a) ≡ true
      → Depends services b c
      → Depends services a c

member-known :
    (services : Services) (dep : String) (deps : List String)
    → member dep (known services deps) ≡ true
    → member dep (keys services) ≡ true
unfolding known member
member-known services dep [] h = cc
member-known services dep (d ∷ deps) h =
    ground (arith, eq_iff d dep, member-known services dep deps)

members_of :
    (s t : List String)
    → ((x : String) → member x s ≡ true → member x t ≡ true)
    → All (λ x. member x t ≡ true) s
unfolding member
members_of [] t h = tt
members_of (x ∷ s) t h =
    (h x (ground (arith, eq_iff x x)), members_of s t (λ y m. h y (ground (arith, m))))

pub member-deps_of :
    (services : Services) (name dep : String)
    → member dep (deps_of services name) ≡ true
    → member dep (keys services) ≡ true
unfolding deps_of member
member-deps_of services name dep h = elim (Option-cases (lookup name services)) [
  | inl gone ↦ let h' = rw (gone, deps_of) at h in cc
  | inr (svc, found) ↦
      member-known services dep (or_empty svc.depends_on) (rw (found, deps_of) at h)
]

pub known_of_dep :
    (services : Services) (name dep : String)
    → member dep (deps_of services name) ≡ true
    → member name (keys services) ≡ true
unfolding deps_of member
known_of_dep services name dep h = elim (Option-cases (lookup name services)) [
  | inl gone ↦ let h' = rw (gone, deps_of) at h in cc
  | inr (svc, found) ↦ member_of_lookup name services svc found
]

module _ {ℓ κ} {A : Type ℓ} {B : Type κ} where
  >>=-eq-err :
      (first : Result A) (next : A → Result B) {failure : Failure}
      → (first >>= next) ≡ err failure
      → (first ≡ err failure) ⊎ ((value : A) × (first ≡ ok value) × (next value ≡ err failure))
  >>=-eq-err (ok value) next h = inr (value, refl, h)
  >>=-eq-err (err why) next h = inl (cc)

err-injective : {a b : Failure} → ◌≡◌ {A = Result Walk} (err a) (err b) → a ≡ b
err-injective h = cc

module _ (services : Services) where
  Depends-snoc :
      {a b c : String}
      → Depends services a b
      → member c (deps_of services b) ≡ true
      → Depends services a c
  Depends-snoc (direct h) k = over h (direct k)
  Depends-snoc (over h d) k = over h (Depends-snoc d k)

  -- The services being visited, the latest first: each is a dependency of the one behind it.
  Chain : String → List String → Type 0
  Chain name [] = Unit
  Chain name (parent ∷ rest) = (member name (deps_of services parent) ≡ true) × Chain parent rest

  Depends-of_Chain :
      (x name : String) (visiting : List String)
      → Chain name visiting
      → member x visiting ≡ true
      → Depends services x name
  unfolding Chain member
  Depends-of_Chain x name [] c h = cc
  Depends-of_Chain x name (parent ∷ rest) c h = elim (Bool-cases (parent == x)) [
    | inl here ↦ rw (← (eq_iff parent x).0 here) (direct c.0)
    | inr there ↦ Depends-snoc (Depends-of_Chain x parent rest c.1 (ground arith)) c.0
  ]

  -- The walk failed because a service depends on itself.
  pub data Blames : Failure → Type 0 where
    on : (n : String) → Depends services n n → Blames (circular n)

  -- `v` fails for no other reason, on the names that `P` admits, while `visiting` is visited.
  abbrev FailsWell : List String → (String → Type 0) → (String → Walk → Result Walk) → Type 0
  FailsWell visiting P v =
      (name : String) (w : Walk) (e : Failure)
      → P name
      → Sane services w
      → w.visiting ≡ visiting
      → v name w ≡ err e
      → Blames e

  for_each-Blames :
      (visiting : List String) (P : String → Type 0) (v : String → Walk → Result Walk)
      → Visits services v
      → FailsWell visiting P v
      → (names : List String) (w : Walk) (e : Failure) → All P names
      → Sane services w
      → w.visiting ≡ visiting
      → for_each v names w ≡ err e
      → Blames e
  unfolding for_each
  for_each-Blames visiting P v good fails [] w e all s same h = cc
  for_each-Blames visiting P v good fails (name ∷ names) w e all s same h =
      elim (>>=-eq-err (v name w) (for_each v names) h) [
        | inl now ↦ fails name w e all.0 s same now
        | inr (mid, run, later) ↦
            let g = (good name w mid s run).0 in
            for_each-Blames visiting P v good fails names mid e all.1 g.sane (g.visiting ∙ same)
              later
      ]

  abbrev Called : ℕ → List String → String → Type 0
  Called depth visiting name =
      (outstanding (keys services) visiting < depth)
      × Chain name visiting
      × (member name (keys services) ≡ true)

  enter-Blames :
      (depth : ℕ) (visiting : List String)
      → ((inner : List String) → FailsWell inner (Called depth inner) (visit services depth))
      → (name : String) (w : Walk) (e : Failure) → Called (suc depth) visiting name
      → Sane services w
      → w.visiting ≡ visiting
      → member name w.visiting ≡ false
      → member name w.visited ≡ false
      → enter services (visit services depth) name w ≡ err e
      → Blames e
  unfolding enter deps_of Chain
  enter-Blames depth visiting fails name w e c s same fresh new h =
      elim (Option-cases (lookup name services)) [
        | inl gone ↦ let (svc, found) = lookup_of_member name services c.2 in cc
        | inr (svc, found) ↦
            let deps = known services (or_empty svc.depends_on) in
            let inner = name ∷ visiting in
            let same_deps : deps_of services name ≡ deps = rw (found, deps_of) refl in
            let less = outstanding-lt (keys services) name visiting c.2 (rw same at fresh) in
            let called = members_of deps (deps_of services name) (λ x m. rw same_deps m) in
            elim (>>=-eq-err (for_each (visit services depth) deps (entered services name w))
              (λ w'. ok (left services name w')) (rw (found, enter) at h)) [
                | inl loop ↦
                    for_each-Blames inner (Called depth inner) (visit services depth)
                      (visit-Visits services depth) (fails inner) deps (entered services name w) e
                      (All-map_of (λ x m. (omega arith, (m, c.1), member-deps_of services name x m))
                        deps called)
                      (enter-Sane services name w new s) (ap (λ l. name ∷ l) same) loop
                | inr (mid, run, done) ↦ cc
              ]
      ]

  visit-Blames :
      (depth : ℕ) (visiting : List String)
      → FailsWell visiting (Called depth visiting) (visit services depth)
  unfolding visit
  visit-Blames zero visiting name w e c s same h = absurd (omega arith)
  visit-Blames (suc depth) visiting name w e c s same h =
      elim (Bool-cases (member name w.visiting)) [
        | inl loop ↦
            rw (← err-injective (rw loop at h))
              (on name (Depends-of_Chain name name visiting c.1 (rw same at loop)))
        | inr fresh ↦ elim (Bool-cases (member name w.visited)) [
          | inl old ↦ let h' = rw (fresh, old) at h in cc
          | inr new ↦
              enter-Blames depth visiting (visit-Blames depth) name w e c s same fresh new
                (rw (fresh, new) at h)
        ]
      ]

pub walk_Blames :
    (services : Services) (e : Failure)
    → for_each (visit services (suc (length services))) (keys services) start ≡ err e
    → Blames services e
unfolding Chain member
walk_Blames services e run =
    let depth = suc (length services) in
    for_each-Blames services [] (Called services depth []) (visit services depth)
      (visit-Visits services depth) (visit-Blames services depth []) (keys services) start e
      (All-map_of
        (λ k m.
          (omega (arith, outstanding-le-length (keys services) [], length-keys services), tt, m))
        (keys services) (members_of (keys services) (keys services) (λ x m. m)))
      (record { placed = tt; order = refl; apart = λ x h. cc; inside = λ x h. cc }) refl run
