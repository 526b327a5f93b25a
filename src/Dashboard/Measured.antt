-- ===== src/Dashboard/Measured.antt =====
-- Numbers summed over the entries, which the lines of docker leave alone.
use dockfleet.Prelude.{
  ℕ, ◌+◌, String, List, [], ◌∷◌, Option, none, some, Dict, lookup, put, lookup-put, ◌≡◌, ◌∙◌, refl,
  arith, All, Pairs, length, Option-cases, inl, inr,
}
use dockfleet.Health.Models.{Service, Db}
use dockfleet.Health.Queries.{sum_of}
use dockfleet.Dashboard.{
  show_ps, show_stats, Card, card_of, load_cards, DockerLine, Docker, Turn, ends, passes, about,
  turn, on_card, show_lines, lines_or_none, cards, values,
}
use dockfleet.Dashboard.Shown.{Apart}
use dockfleet.Dashboard.Summary.{sum_restarts}

none_yet : (rows : List Service) → All (λ svc. lookup {V = Card} svc.name [] ≡ none) rows
unfolding lookup
none_yet [] = tt
none_yet (svc ∷ rows) = (refl, none_yet rows)

still_fresh :
    (svc : Service) (rows : List Service) (d : Dict Card)
    → All (Apart svc) rows
    → All (λ other. lookup other.name d ≡ none) rows
    → All (λ other. lookup other.name (put svc.name (card_of svc) d) ≡ none) rows
still_fresh svc [] d apart fresh = tt
still_fresh svc (other ∷ rows) d apart fresh = (
  lookup-put svc.name other.name (card_of svc) d ∙ rw apart.0 fresh.0,
  still_fresh svc rows d apart.1 fresh.1,
)

module _ (m : Card → ℕ) where
  -- The sum of a number over the entries.
  pub measure : Dict Card → ℕ
  measure [] = 0
  measure ((name, card) ∷ rest) = m card + measure rest

  measure-put_old :
      (name : String) (new old : Card) (d : Dict Card)
      → lookup name d ≡ some old
      → m new ≡ m old
      → measure (put name new d) ≡ measure d
  unfolding measure put lookup
  measure-put_old name new old [] h e = cc
  measure-put_old name new old ((k, card) ∷ d) h e = ground (arith, measure-put_old name new old d)

  measure-put_new :
      (name : String) (new : Card) (d : Dict Card)
      → lookup name d ≡ none
      → measure (put name new d) ≡ m new + measure d
  unfolding measure put lookup
  measure-put_new name new [] h = refl
  measure-put_new name new ((k, card) ∷ d) h = ground (arith, measure-put_new name new d)

  measure-on_card :
      (name : String) (change : Card → Card) (d : Dict Card)
      → ((c : Card) → m (change c) ≡ m c)
      → measure (on_card name change d) ≡ measure d
  unfolding on_card
  measure-on_card name change d same = elim (Option-cases (lookup name d)) [
    | inl missing ↦ rw (missing, on_card) refl
    | inr (old, there) ↦
        rw (there, on_card) (measure-put_old name (change old) old d there (same old))
  ]

  -- A loop over lines that leave the number alone.
  measure-show_lines :
      (loads : String → Option DockerLine) (change : DockerLine → Card → Card)
      → ((object : DockerLine) (c : Card) → m (change object c) ≡ m c)
      → (lines : List String) (d : Dict Card)
      → measure (show_lines loads change lines d) ≡ measure d
  unfolding show_lines
  measure-show_lines loads change same [] d = refl
  measure-show_lines loads change same (line ∷ lines) d =
      step (turn loads line) refl (measure-show_lines loads change same lines)
    where
      step :
          (t : Turn)
          → turn loads line ≡ t
          → ((d : Dict Card) → measure (show_lines loads change lines d) ≡ measure d)
          → measure (show_lines loads change (line ∷ lines) d) ≡ measure d
      step ends e rest = rw (e, show_lines) refl
      step passes e rest = rw (e, show_lines) (rest d)
      step (about service object) e rest =
          rw (e, show_lines)
            (rest (on_card service (change object) d)
              ∙ measure-on_card service (change object) d (same object))

  measure-load_cards :
      (rows : List Service) (d : Dict Card)
      → Pairs Apart rows
      → All (λ svc. lookup svc.name d ≡ none) rows
      → measure (load_cards rows d) ≡ sum_of (λ svc. m (card_of svc)) rows + measure d
  unfolding load_cards sum_of
  measure-load_cards [] d apart fresh = omega arith
  measure-load_cards (svc ∷ rows) d apart fresh = omega (
    arith,
    measure-load_cards rows (put svc.name (card_of svc) d) apart.1
        (still_fresh svc rows d apart.0 fresh.1),
    measure-put_new svc.name (card_of svc) d fresh.0,
  )

  pub measure-cards :
      (docker : Docker) (db : Db)
      → Pairs Apart db.services
      → ((object : DockerLine) (c : Card) → m (show_ps object c) ≡ m c)
      → ((object : DockerLine) (c : Card) → m (show_stats object c) ≡ m c)
      → measure (cards docker db) ≡ sum_of (λ svc. m (card_of svc)) db.services
  unfolding cards measure
  measure-cards docker db apart ps stats =
      measure-show_lines docker.loads show_stats stats (lines_or_none docker.stats_lines) (
        show_lines docker.loads show_ps (lines_or_none docker.ps_lines) (load_cards db.services []))
      ∙ measure-show_lines docker.loads show_ps ps (lines_or_none docker.ps_lines)
          (load_cards db.services [])
      ∙ measure-load_cards db.services [] apart (none_yet db.services)
      ∙ omega arith

pub length-values : (d : Dict Card) → length (values d) ≡ measure (λ c. 1) d
unfolding values measure
length-values [] = refl
length-values ((name, card) ∷ d) = omega (arith, length-values d)

pub restarts_of_values :
    (d : Dict Card) → sum_restarts (values d) ≡ measure (λ c. c.restart_count) d
unfolding values measure sum_restarts
restarts_of_values [] = refl
restarts_of_values ((name, card) ∷ d) = omega (arith, restarts_of_values d)
