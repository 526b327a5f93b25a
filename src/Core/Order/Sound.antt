-- ===== src/Core/Order/Sound.antt =====
-- Walks that succeed, and where they place the services.
use mathlib.Core.List.{reverse-append}
use dockfleet.Prelude.{
  ℕ, zero, suc, String, ◌≡◌, ◌∙◌, refl, sym, ap, eq_iff, true, false, List, [], ◌∷◌, ◌++◌, reverse,
  lookup, keys, member, discard, discard-head, member-discard, member_of_lookup, length, All, arith,
  Bool-cases, Option-cases, inl, inr,
}
use dockfleet.Cli.Config.{or_empty}
use dockfleet.Core.Order.{
  Result, ok, err, ◌>>=◌, Walk, start, Services, known, for_each, enter, visit, deps_of,
}

module _ {ℓ κ} {A : Type ℓ} {B : Type κ} where
  pub >>=-eq-ok :
      (first : Result A) (next : A → Result B) {result : B}
      → (first >>= next) ≡ ok result
      → (value : A) × (first ≡ ok value) × (next value ≡ ok result)
  >>=-eq-ok (ok value) next h = (value, refl, h)
  >>=-eq-ok (err failure) next h = cc

pub ok-injective {ℓ} : {A : Type ℓ} {a b : A} → ok a ≡ ok b → a ≡ b
ok-injective h = cc

pub member_of_All :
    (x : String) (names s : List String)
    → All (λ name. member name s ≡ true) names
    → member x names ≡ true
    → member x s ≡ true
unfolding member
member_of_All x [] s all h = cc
member_of_All x (y ∷ names) s all h =
    ground (arith, all.0, eq_iff y x, member_of_All x names s all.1)

module _ (services : Services) where
  -- A list of services, the latest first: each stands once, in front of all its dependencies.
  abbrev pub Placed : List String → Type 0
  Placed [] = Unit
  Placed (name ∷ earlier) =
      (member name earlier ≡ false)
      × All (λ dep. member dep earlier ≡ true) (deps_of services name)
      × Placed earlier

  -- What holds of the state of the walk between two visits.
  pub record Sane (w : Walk) : Type 0 where
    pub placed : Placed w.visited
    pub order : w.order ≡ reverse w.visited
    pub apart : (x : String) → member x w.visiting ≡ true → member x w.visited ≡ false
    pub inside : (x : String) → member x w.visited ≡ true → member x (keys services) ≡ true

  -- What a visit does to the state.
  pub record Grows (w w' : Walk) : Type 0 where
    pub sane : Sane w'
    pub visiting : w'.visiting ≡ w.visiting
    pub keeps : (x : String) → member x w.visited ≡ true → member x w'.visited ≡ true
    pub apart : (x : String) → member x w.visiting ≡ true → member x w'.visited ≡ member x w.visited

  Grows-refl : (w : Walk) → Sane w → Grows w w
  Grows-refl w s = record { sane = s; visiting = refl; keeps = λ x h. h; apart = λ x h. refl }

  Grows-trans : (a b c : Walk) → Grows a b → Grows b c → Grows a c
  Grows-trans a b c g h = record {
    sane = h.sane;
    visiting = h.visiting ∙ g.visiting;
    keeps = λ x p. h.keeps x (g.keeps x p);
    apart = λ x p. h.apart x (rw g.visiting p) ∙ g.apart x p;
  }

  abbrev pub Visits : (String → Walk → Result Walk) → Type 0
  Visits v =
      (name : String) (w w' : Walk)
      → Sane w
      → v name w ≡ ok w'
      → Grows w w' × (member name w'.visited ≡ true)

  abbrev pub AllVisited : List String → Walk → Type 0
  AllVisited names w = All (λ name. member name w.visited ≡ true) names

  for_each-Grows :
      (v : String → Walk → Result Walk)
      → Visits v
      → (names : List String) (w w' : Walk) → Sane w
      → for_each v names w ≡ ok w'
      → Grows w w' × AllVisited names w'
  unfolding for_each
  for_each-Grows v good [] w w' s h = rw (← ok-injective h) (Grows-refl w s, tt)
  for_each-Grows v good (name ∷ names) w w' s h =
      let (mid, first, rest) = >>=-eq-ok (v name w) (for_each v names) h in
      let (g, m) = good name w mid s first in
      let (g', all) = for_each-Grows v good names mid w' g.sane rest in
      (Grows-trans w mid w' g g', (g'.keeps name m, all))

  abbrev pub entered : String → Walk → Walk
  entered name w = record w { visiting = name ∷ w.visiting }

  abbrev pub left : String → Walk → Walk
  left name w = record {
    visited = name ∷ w.visited;
    visiting = discard name w.visiting;
    order = w.order ++ name ∷ [];
  }

  pub enter-Sane :
      (name : String) (w : Walk) → member name w.visited ≡ false → Sane w → Sane (entered name w)
  unfolding member
  enter-Sane name w new s = record {
    placed = s.placed;
    order = s.order;
    apart = λ x h. ground (arith, s.apart x, eq_iff name x);
    inside = s.inside;
  }

  -- What is known when the dependencies of `name` have been visited.
  record Ready (name : String) (w mid : Walk) : Type 0 where
    fresh : member name w.visiting ≡ false
    new : member name w.visited ≡ false
    known_name : member name (keys services) ≡ true
    grows : Grows (entered name w) mid
    deps : AllVisited (deps_of services name) mid

  still_new : (name : String) (w mid : Walk) → Ready name w mid → member name mid.visited ≡ false
  unfolding member
  still_new name w mid r = r.grows.apart name (ground (arith, eq_iff name name)) ∙ r.new

  leave-Sane : (name : String) (w mid : Walk) → Sane w → Ready name w mid → Sane (left name mid)
  unfolding member
  leave-Sane name w mid s r = record {
    placed = (still_new name w mid r, r.deps, r.grows.sane.placed);
    order =
        ap (λ l. l ++ name ∷ []) r.grows.sane.order ∙ sym (reverse-append (name ∷ []) mid.visited);
    apart = λ x h.
        ground (arith, r.grows.sane.apart x, member-discard name x mid.visiting, eq_iff name x);
    inside = λ x h. ground (arith, r.known_name, r.grows.sane.inside x, eq_iff name x);
  }

  leave-Grows : (name : String) (w mid : Walk) → Sane w → Ready name w mid → Grows w (left name mid)
  unfolding member discard
  leave-Grows name w mid s r = record {
    sane = leave-Sane name w mid s r;
    visiting = rw r.grows.visiting (discard-head name w.visiting r.fresh);
    keeps = λ x h. ground (arith, r.grows.keeps x);
    apart = λ x h. ground (arith, r.grows.apart x, eq_iff name x, r.fresh);
  }

  pub enter-Grows :
      (v : String → Walk → Result Walk)
      → Visits v
      → (name : String) (w w' : Walk) → Sane w
      → member name w.visiting ≡ false
      → member name w.visited ≡ false
      → enter services v name w ≡ ok w'
      → Grows w w' × (member name w'.visited ≡ true)
  unfolding enter deps_of member
  enter-Grows v good name w w' s fresh new h = elim (Option-cases (lookup name services)) [
    | inl gone ↦ let h' = rw (gone, enter) at h in cc
    | inr (svc, found) ↦
        let deps = known services (or_empty svc.depends_on) in
        let run = rw (found, enter) at h in
        let (mid, loop, done) =
          >>=-eq-ok (for_each v deps (entered name w)) (λ w'. ok (left name w')) run in
        let (g, all) =
          for_each-Grows v good deps (entered name w) mid (enter-Sane name w new s) loop in
        let ready : Ready name w mid = record {
          fresh = fresh;
          new = new;
          known_name = member_of_lookup name services svc found;
          grows = g;
          deps = rw (found, deps_of) all;
        } in
        rw (← ok-injective done) (leave-Grows name w mid s ready, ground (arith, eq_iff name name))
  ]

  pub visit-Visits : (depth : ℕ) → Visits (visit services depth)
  unfolding visit
  visit-Visits zero name w w' s h = cc
  visit-Visits (suc depth) name w w' s h = elim (Bool-cases (member name w.visiting)) [
    | inl loop ↦ let h' = rw loop at h in cc
    | inr fresh ↦ elim (Bool-cases (member name w.visited)) [
      | inl old ↦ rw (← ok-injective (rw (fresh, old) at h)) (Grows-refl w s, old)
      | inr new ↦
          enter-Grows (visit services depth) (visit-Visits depth) name w w' s fresh new
            (rw (fresh, new) at h)
    ]
  ]

  -- The walk of a whole configuration.
  pub walk-Grows :
      (w : Walk)
      → for_each (visit services (suc (length services))) (keys services) start ≡ ok w
      → Sane w × AllVisited (keys services) w
  unfolding member
  walk-Grows w h =
      let (g, all) =
        for_each-Grows (visit services (suc (length services)))
          (visit-Visits (suc (length services))) (keys services) start w
          (record { placed = tt; order = refl; apart = λ x h. cc; inside = λ x h. cc }) h in
      (g.sane, all)
