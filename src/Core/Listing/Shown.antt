-- ===== src/Core/Listing/Shown.antt =====
-- The health that `ps` shows.
use dockfleet.Prelude.{
  String, ◌==◌, eq_iff, eq_refl, Bool, true, false, List, [], ◌∷◌, Option, none, some, Dict, lookup,
  put, lookup-put, if◌then◌else◌, ◌≡◌, ◌∙◌, refl, ap, arith, All, Pairs, Bool-cases, inl, inr,
}
use mathlib.Core.Path.{subst}
use dockfleet.Health.Models.{Service, Db, health_value}
use dockfleet.Health.Models.Rows.{find, row}
use dockfleet.Core.Listing.{
  Container, overrides_docker, health_of, health_map, PsRow, ps_row, with_row, ps_rows, get_ps_data,
  after_prefix,
}

-- Names differ, as the table demands.
abbrev pub OtherName : Service → Service → Type 0
OtherName a b = (a.name == b.name) ≡ false

abbrev pub shown : Dict String → String → Option Service → Option String
shown seen k none = lookup k seen
shown seen k (some svc) = some (health_value svc.health_status)

absent :
    (svc : Service) (rows : List Service) → All (OtherName svc) rows → find svc.name rows ≡ none
unfolding find
absent svc [] h = refl
absent svc (r ∷ rows) h =
    ground (arith, absent svc rows h.1, h.0, eq_iff svc.name r.name, eq_iff r.name svc.name)

shown-put :
    (name k health : String) (seen : Dict String) (found : Option Service)
    → (name == k) ≡ false
    → shown (put name health seen) k found ≡ shown seen k found
shown-put name k health seen none other = lookup-put name k health seen ∙ rw other refl
shown-put name k health seen (some svc) other = refl

lookup-health_map :
    (k : String) (rows : List Service) (seen : Dict String)
    → Pairs OtherName rows
    → lookup k (health_map rows seen) ≡ shown seen k (find k rows)
unfolding health_map find
lookup-health_map k [] seen h = refl
lookup-health_map k (svc ∷ rows) seen h =
    lookup-health_map k rows (put svc.name (health_value svc.health_status) seen) h.1
    ∙ elim (Bool-cases (svc.name == k)) [
      | inl same ↦ rw same (
          ap (shown _ k)
            (subst (λ n. find n rows ≡ none) ((eq_iff svc.name k).0 same) (absent svc rows h.0))
          ∙ lookup-put svc.name k (health_value svc.health_status) seen
          ∙ rw same refl)
      | inr other ↦
          rw other (shown-put svc.name k (health_value svc.health_status) seen (find k rows) other)
    ]

-- A row's health, where it is not healthy.
abbrev pub Failing : Service → Type 0
unfolding overrides_docker health_value
Failing svc = overrides_docker (health_value svc.health_status) ≡ true

-- The entry of a service that fails has the health of its row.
abbrev pub shows : String → String → PsRow → Bool
shows name health r = if r.name == name then r.health == health else true

module _ (name : String) (svc : Service) (health_by_name : Dict String) (failing : Failing svc)
    (mapped : lookup name health_by_name ≡ some (health_value svc.health_status)) where
  ps_row-shows :
      (c : Container) (service : String)
      → shows name (health_value svc.health_status) (ps_row health_by_name c service) ≡ true
  unfolding ps_row health_of
  ps_row-shows c service = elim (Bool-cases (service == name)) [
    | inl same ↦
        rw
          (same, ap (λ n. lookup n health_by_name) ((eq_iff service name).0 same) ∙ mapped, failing)
          (eq_refl (health_value svc.health_status))
    | inr other ↦ rw other refl
  ]

  with_row-shows :
      (c : Container) (service : Option String) (rows : List PsRow)
      → All (λ r. shows name (health_value svc.health_status) r ≡ true) rows
      → All
          (λ r. shows name (health_value svc.health_status) r ≡ true)
          (with_row health_by_name c service rows)
  unfolding with_row
  with_row-shows c none rows h = h
  with_row-shows c (some service) rows h = (ps_row-shows c service, h)

  ps_rows-show :
      (cs : List Container)
      → All (λ r. shows name (health_value svc.health_status) r ≡ true) (ps_rows health_by_name cs)
  unfolding ps_rows
  ps_rows-show [] = tt
  ps_rows-show (c ∷ cs) =
      with_row-shows c (after_prefix "dockfleet_" c.container) _ (ps_rows-show cs)

-- When the database can be read and the names of its rows differ: if the row of a service is unhealthy,
-- crashed or restarting, every entry of that service in the listing of the containers shows that health,
-- whatever docker says of the container.
pub ps_shows-Failing :
    (db : Db) (containers : List Container) (name : String) (svc : Service)
    → row name db ≡ some svc
    → Pairs OtherName db.services
    → Failing svc
    → All
        (λ r. shows name (health_value svc.health_status) r ≡ true)
        (get_ps_data true db containers)
unfolding get_ps_data lookup
ps_shows-Failing db containers name svc known names failing =
    ps_rows-show name svc (health_map db.services []) failing
      (lookup-health_map name db.services [] names ∙ ap (shown [] name) known) containers
