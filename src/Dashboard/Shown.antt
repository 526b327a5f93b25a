-- ===== src/Dashboard/Shown.antt =====
-- What the entries of the dashboard owe to the rows, whatever docker prints.
use dockfleet.Prelude.{
  String, ◌==◌, eq_iff, eq_refl, Bool, true, false, ◌&&◌, List, [], ◌∷◌, Option, none, some, Dict,
  lookup, put, lookup-put, ◌≡◌, ◌∙◌, refl, ap, arith, All, Pairs, Bool-cases, Option-cases, inl,
  inr,
}
use mathlib.Core.Path.{subst}
use dockfleet.Health.Models.{Service, Db, HealthStatus, unhealthy, crashed, health_value}
use dockfleet.Health.Models.Rows.{find, row}
use dockfleet.Health.Status.{is_failing}
use dockfleet.Dashboard.{
  Card, card_of, load_cards, DockerLine, Docker, Turn, ends, passes, about, turn, on_card,
  show_lines, is_restarting_text, is_failing_text, shown_health, show_ps, show_stats, lines_or_none,
  cards,
}

-- The names of two rows differ.
abbrev pub Apart : Service → Service → Type 0
Apart a b = (a.name == b.name) ≡ false

pub record HasCard (P : Card → Type 0) (name : String) (d : Dict Card) : Type 0 where
  pub card : Card
  pub found : lookup name d ≡ some card
  pub holds : P card

module _ (P : Card → Type 0) (name : String) where
  on_card-HasCard :
      (service : String) (change : Card → Card) (d : Dict Card)
      → ((service == name) ≡ true → (c : Card) → P c → P (change c))
      → HasCard P name d
      → HasCard P name (on_card service change d)
  unfolding on_card
  on_card-HasCard service change d keep h = elim (Option-cases (lookup service d)) [
    | inl missing ↦ rw (missing, on_card) h
    | inr (old, there) ↦
        rw (there, on_card)
          (elim (Bool-cases (service == name)) [
            | inl same ↦ record {
              card = change old;
              found = lookup-put service name (change old) d ∙ rw same refl;
              holds =
                  keep same old (
                    subst P (ground (arith, there, h.found, (eq_iff service name).0 same)) h.holds);
            }
            | inr other ↦ record {
              card = h.card;
              found = lookup-put service name (change old) d ∙ rw other h.found;
              holds = h.holds;
            }
          ])
  ]

  -- A loop keeps what each line about the service keeps.
  show_lines-HasCard :
      (loads : String → Option DockerLine) (change : DockerLine → Card → Card) (lines : List String)
      → All
          (λ line.
            (object : DockerLine)
            → turn loads line ≡ about name object
            → (c : Card) → P c
            → P (change object c))
          lines
      → (d : Dict Card) → HasCard P name d
      → HasCard P name (show_lines loads change lines d)
  unfolding show_lines
  show_lines-HasCard loads change [] keep d h = h
  show_lines-HasCard loads change (line ∷ lines) keep d h =
      step (turn loads line) refl (show_lines-HasCard loads change lines keep.1)
    where
      step :
          (t : Turn)
          → turn loads line ≡ t
          → ((d : Dict Card) → HasCard P name d → HasCard P name (show_lines loads change lines d))
          → HasCard P name (show_lines loads change (line ∷ lines) d)
      step ends e rest = rw (e, show_lines) h
      step passes e rest = rw (e, show_lines) (rest d h)
      step (about service object) e rest =
          rw (e, show_lines)
            (rest (on_card service (change object) d) (
              on_card-HasCard service (change object) d
                (λ same.
                  keep.0 object (e ∙ ap (λ n. about n object) ((eq_iff service name).0 same)))
                h))

-- A line says that the container of the service restarts.
unfoldable pub tells_restart : (String → Option DockerLine) → String → String → Bool
tells_restart loads name line = elim (turn loads line) [
  | ends ↦ false
  | passes ↦ false
  | about service object ↦ service == name && is_restarting_text object.status_text
]

shown_health-failing :
    (status_raw health : String)
    → is_restarting_text status_raw ≡ false
    → is_failing_text health ≡ true
    → shown_health status_raw health ≡ health
unfolding shown_health
shown_health-failing status_raw health calm bad = ground arith

-- The entry of a row, in the columns that docker has no part in, with the health of the row.
pub record OfRow (svc : Service) (card : Card) : Type 0 where
  pub named : card.name ≡ svc.name
  pub health : card.health_status ≡ health_value svc.health_status
  pub image : card.image ≡ svc.image
  pub restarts : card.restart_count ≡ svc.restart_count
  pub checked : card.last_health_check ≡ svc.last_health_check

failing_text : (h : HealthStatus) → is_failing h ≡ true → is_failing_text (health_value h) ≡ true
unfolding is_failing_text health_value
failing_text unhealthy e = refl
failing_text crashed e = refl
failing_text _ e = ground arith

show_ps-OfRow :
    (svc : Service) (object : DockerLine) (card : Card)
    → is_failing svc.health_status ≡ true
    → is_restarting_text object.status_text ≡ false
    → OfRow svc card
    → OfRow svc (show_ps object card)
unfolding show_ps
show_ps-OfRow svc object card bad calm h = record {
  named = h.named;
  health =
      shown_health-failing object.status_text card.health_status calm
        (ap is_failing_text h.health ∙ failing_text svc.health_status bad)
      ∙ h.health;
  image = h.image;
  restarts = h.restarts;
  checked = h.checked;
}

show_stats-OfRow :
    (svc : Service) (object : DockerLine) (card : Card)
    → OfRow svc card
    → OfRow svc (show_stats object card)
unfolding show_stats
show_stats-OfRow svc object card h = record {
  named = h.named;
  health = h.health;
  image = h.image;
  restarts = h.restarts;
  checked = h.checked;
}

abbrev card_or : Option Card → Option Service → Option Card
card_or seen none = seen
card_or seen (some svc) = some (card_of svc)

absent_behind :
    (name : String) (svc : Service) (rows : List Service)
    → (svc.name == name) ≡ true
    → All (Apart svc) rows
    → find name rows ≡ none
unfolding find
absent_behind name svc [] same h = refl
absent_behind name svc (other ∷ rows) same h = ground (
  arith,
  absent_behind name svc rows same h.1,
  h.0,
  eq_iff svc.name name,
  eq_iff other.name name,
  eq_iff svc.name other.name,
)

lookup-load_cards :
    (name : String) (rows : List Service) (seen : Dict Card)
    → Pairs Apart rows
    → lookup name (load_cards rows seen) ≡ card_or (lookup name seen) (find name rows)
unfolding load_cards find
lookup-load_cards name [] seen h = refl
lookup-load_cards name (svc ∷ rows) seen h = elim (Bool-cases (svc.name == name)) [
  | inl same ↦
      lookup-load_cards name rows (put svc.name (card_of svc) seen) h.1
      ∙ rw (absent_behind name svc rows same h.0)
          (lookup-put svc.name name (card_of svc) seen ∙ rw (same, find) refl)
  | inr other ↦
      lookup-load_cards name rows (put svc.name (card_of svc) seen) h.1
      ∙ rw (lookup-put svc.name name (card_of svc) seen) (rw other refl)
]

card_of-OfRow : (svc : Service) → OfRow svc (card_of svc)
unfolding card_of
card_of-OfRow svc = record {
  named = refl;
  health = refl;
  image = refl;
  restarts = refl;
  checked = refl;
}

about_calm :
    (loads : String → Option DockerLine) (name line : String) (object : DockerLine)
    → tells_restart loads name line ≡ false
    → turn loads line ≡ about name object
    → is_restarting_text object.status_text ≡ false
unfolding tells_restart
about_calm loads name line object calm e =
    let told = rw (e, tells_restart) at calm in ground (arith, told, eq_refl name)

calm_lines :
    (loads : String → Option DockerLine) (svc : Service) (lines : List String)
    → is_failing svc.health_status ≡ true
    → All (λ line. tells_restart loads svc.name line ≡ false) lines
    → All
        (λ line.
          (object : DockerLine)
          → turn loads line ≡ about svc.name object
          → (c : Card) → OfRow svc c
          → OfRow svc (show_ps object c))
        lines
calm_lines loads svc [] bad calm = tt
calm_lines loads svc (line ∷ lines) bad calm = (
  λ object e c h. show_ps-OfRow svc object c bad (about_calm loads svc.name line object calm.0 e) h,
  calm_lines loads svc lines bad calm.1,
)

stats_lines_keep :
    (loads : String → Option DockerLine) (svc : Service) (lines : List String)
    → All
        (λ line.
          (object : DockerLine)
          → turn loads line ≡ about svc.name object
          → (c : Card) → OfRow svc c
          → OfRow svc (show_stats object c))
        lines
stats_lines_keep loads svc [] = tt
stats_lines_keep loads svc (line ∷ lines) =
    (λ object e c h. show_stats-OfRow svc object c h, stats_lines_keep loads svc lines)

-- For a service whose name no other row has and whose row is unhealthy or crashed: as long as no line of
-- `docker ps` says that its container restarts, the dashboard shows it with that health, whatever the
-- lines of both commands are, also when reading them raises half way. The entry's name, image,
-- restart count and time of the last check are those of the row.
pub failing_shown :
    (docker : Docker) (db : Db) (svc : Service)
    → Pairs Apart db.services
    → row svc.name db ≡ some svc
    → is_failing svc.health_status ≡ true
    → All (λ line. tells_restart docker.loads svc.name line ≡ false) (lines_or_none docker.ps_lines)
    → HasCard (OfRow svc) svc.name (cards docker db)
unfolding cards lookup
failing_shown docker db svc apart known bad calm =
    show_lines-HasCard (OfRow svc) svc.name docker.loads show_stats
      (lines_or_none docker.stats_lines)
      (stats_lines_keep docker.loads svc (lines_or_none docker.stats_lines)) _
      (show_lines-HasCard (OfRow svc) svc.name docker.loads show_ps (lines_or_none docker.ps_lines)
        (calm_lines docker.loads svc (lines_or_none docker.ps_lines) bad calm) _
        (record {
          card = card_of svc;
          found = lookup-load_cards svc.name db.services [] apart ∙ rw known refl;
          holds = card_of-OfRow svc;
        }))
