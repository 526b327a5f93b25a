-- ===== src/Health/Services/Seeded.antt =====
-- What seeding leaves in the table of services.
use dockfleet.Prelude.{
  ℕ, String, ◌≡◌, ◌∙◌, refl, ap, ◌==◌, eq_iff, eq_refl, false, List, [], ◌∷◌, ◌++◌, Option, none,
  some, Dict, All, lookup, keys, member, if◌then◌else◌, Bool-cases, Option-cases, inl, inr, arith,
}
use dockfleet.Cli.Config.{ServiceConfig}
use dockfleet.Health.Models.{Service, Db}
use dockfleet.Health.Models.Rows.{find, update, row, KeepsName, find-update}
use dockfleet.Health.Schedule.Deadlines.{Distinct}
use dockfleet.Health.Services.{
  Json, service_from_config, services_from_config, take_config, seed_one, seed_all, seed_services,
}

take_config-KeepsName : (svc : Service) → KeepsName (take_config svc)
unfolding take_config
take_config-KeepsName svc = record { at = λ existing. refl }

find-append :
    (name : String) (rows : List Service) (svc : Service)
    → find name rows ≡ none
    → find name (rows ++ svc ∷ []) ≡ (if svc.name == name then some svc else none)
unfolding find
find-append name [] svc h = ground arith
find-append name (r ∷ rows) svc h = elim (Bool-cases (r.name == name)) [
  | inl here ↦ let h' = rw here at h in cc
  | inr there ↦ rw there (find-append name rows svc (rw there at h))
]

find-append-other :
    (name : String) (rows : List Service) (svc : Service)
    → (svc.name == name) ≡ false
    → find name (rows ++ svc ∷ []) ≡ find name rows
unfolding find
find-append-other name [] svc h = rw h refl
find-append-other name (r ∷ rows) svc h = elim (Bool-cases (r.name == name)) [
  | inl here ↦ rw here refl
  | inr there ↦ rw there (find-append-other name rows svc h)
]

-- The row that seeding makes of `fresh`, by what was there.
abbrev pub SeedOf : Service → Option Service → Option Service → Type 0
SeedOf fresh none new = (id : ℕ) × (new ≡ some (record fresh { id = id }))
SeedOf fresh (some old) new = new ≡ some (take_config fresh old)

-- Taking the columns of `svc` over again changes nothing.
abbrev Settled : Service → List Service → Type 0
Settled svc rows = (r : Service) × (find svc.name rows ≡ some r) × (take_config svc r ≡ r)

Settled-of_SeedOf :
    (svc : Service) (old : Option Service) (rows : List Service)
    → SeedOf svc old (find svc.name rows)
    → Settled svc rows
unfolding take_config
Settled-of_SeedOf svc none rows (id, h) = (record svc { id = id }, h, refl)
Settled-of_SeedOf svc (some old) rows h = (take_config svc old, h, refl)

some_inj : {A : Type 0} {a b : A} → some a ≡ some b → a ≡ b
some_inj h = cc

absent_of_lookup :
    (name : String) (services : Dict ServiceConfig)
    → lookup name services ≡ none
    → member name (keys services) ≡ false
unfolding lookup keys member
absent_of_lookup name [] h = refl
absent_of_lookup name ((k, v) ∷ rest) h = elim (Bool-cases (k == name)) [
  | inl here ↦ let h' = rw here at h in cc
  | inr there ↦ rw there (absent_of_lookup name rest (rw there at h))
]

update-same :
    (name : String) (f : Service → Service) (rows : List Service) (r : Service)
    → find name rows ≡ some r
    → f r ≡ r
    → update name f rows ≡ rows
unfolding find update
update-same name f [] r h e = refl
update-same name f (x ∷ rows) r h e = elim (Bool-cases (x.name == name)) [
  | inl here ↦ let same : x ≡ r = some_inj (rw here at h) in rw (here, same, e) refl
  | inr there ↦ rw there (ap (λ l. x ∷ l) (update-same name f rows r (rw there at h) e))
]

module _ (next_id : List Service → ℕ) where
  seed_one-other :
      (svc : Service) (rows : List Service) (name : String)
      → (svc.name == name) ≡ false
      → find name (seed_one next_id svc rows) ≡ find name rows
  unfolding seed_one
  seed_one-other svc rows name h = elim (Option-cases (find svc.name rows)) [
    | inl gone ↦ rw (gone, seed_one) (find-append-other name rows _ h)
    | inr (old, found) ↦
        rw (found, seed_one)
          (find-update (take_config svc) (take_config-KeepsName svc) svc.name name rows ∙ rw h refl)
  ]

  seed_one-row :
      (svc : Service) (rows : List Service)
      → SeedOf svc (find svc.name rows) (find svc.name (seed_one next_id svc rows))
  unfolding seed_one
  seed_one-row svc rows = elim (Option-cases (find svc.name rows)) [
    | inl gone ↦
        rw (gone, seed_one) (next_id rows, find-append svc.name rows _ gone ∙ rw (eq_refl) refl)
    | inr (old, found) ↦
        rw (found, seed_one)
          (find-update (take_config svc) (take_config-KeepsName svc) svc.name svc.name rows
            ∙ rw (eq_refl, found) refl)
  ]

  module _ (json : Json) where
    seed-other :
        (services : Dict ServiceConfig) (rows : List Service) (name : String)
        → member name (keys services) ≡ false
        → find name (seed_all next_id (services_from_config json services) rows) ≡ find name rows
    unfolding seed_all services_from_config keys member service_from_config
    seed-other [] rows name h = refl
    seed-other ((k, cfg) ∷ rest) rows name h = elim (Bool-cases (k == name)) [
      | inl here ↦ let h' = rw here at h in cc
      | inr there ↦
          seed-other rest (seed_one next_id (service_from_config json k cfg) rows) name
            (rw there at h)
          ∙ seed_one-other (service_from_config json k cfg) rows name there
    ]

    seed-row :
        (services : Dict ServiceConfig) (rows : List Service) (name : String) (cfg : ServiceConfig)
        → Distinct services
        → lookup name services ≡ some cfg
        → SeedOf
            (service_from_config json name cfg)
            (find name rows)
            (find name (seed_all next_id (services_from_config json services) rows))
    unfolding seed_all services_from_config keys member lookup service_from_config
    seed-row [] rows name cfg d h = cc
    seed-row ((k, v) ∷ rest) rows name cfg d h = elim (Bool-cases (k == name)) [
      | inl here ↦
          let svc = service_from_config json k v in
          let same : v ≡ cfg = some_inj (rw here at h) in
          let kept = seed-other rest (seed_one next_id svc rows) k d.0 in
          rw (← same, ← (eq_iff k name).0 here, kept) (seed_one-row svc rows)
      | inr there ↦
          let svc = service_from_config json k v in
          rw (← seed_one-other svc rows name there)
            (seed-row rest (seed_one next_id svc rows) name cfg d.1 (rw there at h))
    ]

    All-Settled :
        (services : Dict ServiceConfig) (rows : List Service)
        → Distinct services
        → All
            (λ svc. Settled svc (seed_all next_id (services_from_config json services) rows))
            (services_from_config json services)
    unfolding seed_all services_from_config keys member service_from_config
    All-Settled [] rows d = tt
    All-Settled ((k, v) ∷ rest) rows d =
        let svc = service_from_config json k v in
        let kept = seed-other rest (seed_one next_id svc rows) k d.0 in
        (
          Settled-of_SeedOf svc (find k rows) _ (rw kept (seed_one-row svc rows)),
          All-Settled rest (seed_one next_id svc rows) d.1,
        )

  seed_one-Settled :
      (svc : Service) (rows : List Service) → Settled svc rows → seed_one next_id svc rows ≡ rows
  unfolding seed_one
  seed_one-Settled svc rows (r, found, same) =
      rw (found, seed_one) (update-same svc.name (take_config svc) rows r found same)

  seed_all-Settled :
      (svcs rows : List Service)
      → All (λ svc. Settled svc rows) svcs
      → seed_all next_id svcs rows ≡ rows
  unfolding seed_all
  seed_all-Settled [] rows a = refl
  seed_all-Settled (svc ∷ rest) rows a =
      rw (seed_one-Settled svc rows a.0) (seed_all-Settled rest rows a.1)

-- Seeding a configuration of distinct services a second time changes nothing, whatever the rows were
-- and whichever ids the database gives.
pub seed_twice :
    (next_id : List Service → ℕ) (json : Json) (services : Dict ServiceConfig) (db : Db)
    → Distinct services
    → let once = seed_services next_id json services db in
      seed_services next_id json services once ≡ once
unfolding seed_services
seed_twice next_id json services db d =
    ap (λ rows. record db { services = rows })
      (seed_all-Settled next_id (services_from_config json services) _
        (All-Settled next_id json services db.services d))

-- The row of a name behind seeding, by what the configuration has of it.
abbrev pub SeededRow :
    Json → String → Option ServiceConfig → Option Service → Option Service → Type 0
SeededRow json name none old new = new ≡ old
SeededRow json name (some cfg) old new = SeedOf (service_from_config json name cfg) old new

pub seeded_rows :
    (next_id : List Service → ℕ) (json : Json) (services : Dict ServiceConfig) (db : Db)
    (name : String)
    → Distinct services
    → SeededRow json name
        (lookup name services)
        (row name db)
        (row name (seed_services next_id json services db))
unfolding seed_services
seeded_rows next_id json services db name d = elim (Option-cases (lookup name services)) [
  | inl gone ↦
      rw gone
        (seed-other next_id json services db.services name (absent_of_lookup name services gone))
  | inr (cfg, found) ↦ rw found (seed-row next_id json services db.services name cfg d found)
]
