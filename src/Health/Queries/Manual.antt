-- ===== src/Health/Queries/Manual.antt =====
-- The crash analytics behind a restart by hand.
use dockfleet.Prelude.{
  ℕ, suc, ◌-◌, ◌*◌, ◌≤◌, String, ◌==◌, eq_iff, Bool, true, List, [], ◌∷◌, ◌++◌, map, some, lookup,
  if◌then◌else◌, ◌≡◌, ◌∙◌, refl, ap, arith, filter, Bool-cases, inl, inr, lower, contains,
  is_prefix,
}
use dockfleet.Health.Models.{Service, RestartEvent, Db}
use dockfleet.Health.Models.Rows.{row, on_row, find-update, KeepsName}
use dockfleet.Health.Status.{record_manual_restart_event, restarted_by_hand, event_for}
use dockfleet.Health.Queries.{
  categories, in_window, normalize_failure_reason, get_failure_reasons_breakdown, hour,
}
use dockfleet.Health.Queries.Tally.{occurrences, as_count, or_zero, counts_each, or_zero-as_count}

-- One more row that fulfils the condition.
map-filter-append :
    (g : RestartEvent → String) (p : RestartEvent → Bool) (es : List RestartEvent)
    (ev : RestartEvent)
    → p ev ≡ true
    → map g (filter p (es ++ ev ∷ [])) ≡ map g (filter p es) ++ g ev ∷ []
unfolding filter
map-filter-append g p [] ev h = rw h refl
map-filter-append g p (e ∷ es) ev h = elim (Bool-cases (p e)) [
  | inl kept ↦ rw kept (ap (◌∷◌ (g e)) (map-filter-append g p es ev h))
  | inr dropped ↦ rw dropped (map-filter-append g p es ev h)
]

occurrences-append :
    (k : String) (ks : List String) (j : String)
    → occurrences k (ks ++ j ∷ []) ≡ (if j == k then suc (occurrences k ks) else occurrences k ks)
unfolding occurrences
occurrences-append k [] j = refl
occurrences-append k (i ∷ ks) j = ground (arith, occurrences-append k ks j)

manual_category : normalize_failure_reason (some "manual_dashboard_restart") ≡ "manual_restart"
unfolding normalize_failure_reason contains lower is_prefix
manual_category = refl

-- An event of the window adds its category.
categories-append :
    (id since : ℕ) (es : List RestartEvent) (ev : RestartEvent)
    → ev.service_id ≡ id
    → since ≤ ev.restarted_at
    → categories id since (es ++ ev ∷ [])
      ≡ categories id since es ++ normalize_failure_reason (some ev.reason) ∷ []
unfolding categories in_window filter
categories-append id since es ev same inside =
    map-filter-append (λ e. normalize_failure_reason (some e.reason)) (in_window id since) es ev
      (ground (arith, same, inside))

by_hand-KeepsName : KeepsName restarted_by_hand
unfolding restarted_by_hand
by_hand-KeepsName = record { at = λ svc. refl }

module _ (name : String) (now then_at window : ℕ) (db : Db) (svc : Service)
    (known : row name db ≡ some svc) (inside : then_at - window * hour ≤ now) where
  breakdown_of :
      (d : Db) (s : Service)
      → row name d ≡ some s
      → (c : String)
      → lookup c (get_failure_reasons_breakdown name then_at window d)
        ≡ as_count (occurrences c (categories s.id (then_at - window * hour) d.events))
  unfolding get_failure_reasons_breakdown
  breakdown_of d s e c = rw (e, get_failure_reasons_breakdown) (counts_each c _)

  row_after : row name (record_manual_restart_event name now db) ≡ some (restarted_by_hand svc)
  unfolding record_manual_restart_event on_row
  row_after =
      rw (known, record_manual_restart_event)
        (find-update restarted_by_hand by_hand-KeepsName name name db.services
          ∙ rw known (ground (arith, eq_iff name name)))

  events_after :
      (record_manual_restart_event name now db).events
      ≡ db.events ++ event_for svc "manual_dashboard_restart" now ∷ []
  unfolding record_manual_restart_event
  events_after = rw (known, record_manual_restart_event) refl

  categories_after :
      categories svc.id (then_at - window * hour) (record_manual_restart_event name now db).events
      ≡ categories svc.id (then_at - window * hour) db.events ++ "manual_restart" ∷ []
  unfolding event_for
  categories_after =
      ap (categories svc.id (then_at - window * hour)) events_after
      ∙ categories-append svc.id (then_at - window * hour) db.events
          (event_for svc "manual_dashboard_restart" now) refl inside
      ∙ ap (λ c. categories svc.id (then_at - window * hour) db.events ++ c ∷ []) manual_category

  -- For a service with a row, a restart by hand within the window of the query counts one more manual
  -- restart, and leaves the counts of the other reasons.
  pub manual_restart_counted :
      (c : String)
      → lookup c (
          get_failure_reasons_breakdown name then_at window
            (record_manual_restart_event name now db))
        ≡ (if "manual_restart" == c
            then some
                (suc (or_zero (lookup c (get_failure_reasons_breakdown name then_at window db))))
            else lookup c (get_failure_reasons_breakdown name then_at window db))
  unfolding restarted_by_hand
  manual_restart_counted c =
      let before = breakdown_of db svc known c in
      let found = occurrences c (categories svc.id (then_at - window * hour) db.events) in
      breakdown_of (record_manual_restart_event name now db) (restarted_by_hand svc) row_after c
      ∙ ap (λ cs. as_count (occurrences c cs)) categories_after
      ∙ ap as_count (occurrences-append c _ "manual_restart")
      ∙ ground (arith, before, or_zero-as_count found)
