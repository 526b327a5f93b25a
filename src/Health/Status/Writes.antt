-- ===== src/Health/Status/Writes.antt =====
-- What the sessions of status.py may change: the row that they name, and the end of the events.
use mathlib.Core.List.{append_assoc, append-nil}
use dockfleet.Prelude.{
  ℕ, String, ◌≡◌, ◌∙◌, refl, ◌≢◌, ◌==◌, eq_iff, Bool, true, false, List, [], ◌∷◌, ◌++◌, Option,
  none, some, arith, sym, ap, All, Option-cases, inl, inr,
}
use dockfleet.Health.Models.{Service, RestartEvent, Db}
use dockfleet.Health.Models.Rows.{find, on_row, row, names, KeepsName, names-update, find-update}
use dockfleet.Health.Status.{
  restarted, stopped_by_hand, set_status, mark_service_running, mark_service_stopped, record_check,
  update_service_health, record_restart_event, mark_restart_successful, restarted_by_hand,
  record_manual_restart_event, record_manual_stop,
}

-- One call of a function of status.py.
pub data Write : Type 0 where
  started : String → ℕ → Write
  halted : String → Write
  check : String → Bool → Option String → ℕ → Write
  event : Service → String → ℕ → Write
  repaired : String → Write
  manual_restart : String → ℕ → Write
  manual_stop : String → Write

unfoldable pub write : Write → Db → Db
unfolding mark_service_running mark_service_stopped update_service_health record_restart_event
    mark_restart_successful record_manual_restart_event record_manual_stop
write (started name now) = mark_service_running name now
write (halted name) = mark_service_stopped name
write (check name passed reason now) = update_service_health name passed reason now
write (event svc reason now) = record_restart_event svc reason now
write (repaired name) = mark_restart_successful name
write (manual_restart name now) = record_manual_restart_event name now
write (manual_stop name) = record_manual_stop name

-- The row that a write may change.
abbrev pub target : Write → Option String
target (started name now) = some name
target (halted name) = some name
target (check name passed reason now) = some name
target (event svc reason now) = none
target (repaired name) = some name
target (manual_restart name now) = some name
target (manual_stop name) = some name

record_check-KeepsName :
    (passed : Bool) (reason : Option String) (now : ℕ) → KeepsName (record_check passed reason now)
unfolding record_check
record_check-KeepsName true reason now = record { at = λ svc. refl }
record_check-KeepsName false reason now = record { at = λ svc. ground arith }

-- A write to the row of one name leaves the names and the other rows.
record Spares (name : String) (before after : Db) : Type 0 where
  same_names : names after.services ≡ names before.services
  others : (other : String) → (name == other) ≡ false → row other after ≡ row other before

on_row-Spares :
    (name : String) (f : Service → Service)
    → KeepsName f
    → (db : Db) → Spares name db (on_row name f db)
unfolding on_row
on_row-Spares name f keeps db = record {
  same_names = names-update f keeps name db.services;
  others = λ other h. rw (find-update f keeps name other db.services, h);
}

record Untouched (before after : Db) : Type 0 where
  rows : after.services ≡ before.services

abbrev Respects : Option String → Db → Db → Type 0
Respects none before after = Untouched before after
Respects (some name) before after = Spares name before after

by_hand :
    (name : String) (now : ℕ) (db : Db) → Spares name db (record_manual_restart_event name now db)
unfolding record_manual_restart_event
by_hand name now db = elim (Option-cases (find name db.services)) [
  | inl absent ↦
      rw (absent, record_manual_restart_event)
        (record { same_names = refl; others = λ other h. refl })
  | inr (svc, found) ↦
      rw (found, record_manual_restart_event)
        (let row =
            on_row-Spares name restarted_by_hand
              (record { at = λ svc. unfold restarted_by_hand in refl }) db in
          record { same_names = row.same_names; others = row.others })
]

write-Respects : (w : Write) (db : Db) → Respects (target w) db (write w db)
unfolding write set_status restarted_by_hand restarted stopped_by_hand
write-Respects (started name now) db = on_row-Spares name _ (record { at = λ svc. refl }) db
write-Respects (halted name) db = on_row-Spares name _ (record { at = λ svc. refl }) db
write-Respects (check name passed reason now) db =
    on_row-Spares name _ (record_check-KeepsName passed reason now) db
write-Respects (event svc reason now) db = record { rows = refl }
write-Respects (repaired name) db = on_row-Spares name _ (record { at = λ svc. refl }) db
write-Respects (manual_restart name now) db = by_hand name now db
write-Respects (manual_stop name) db = on_row-Spares name _ (record { at = λ svc. refl }) db

-- `after` holds the events of `before`, in their order, and then others.
abbrev pub Extends : List RestartEvent → List RestartEvent → Type 0
Extends before after = (more : List RestartEvent) × (after ≡ before ++ more)

Extends-refl : (events : List RestartEvent) → Extends events events
Extends-refl events = ([], sym (append-nil events))

Extends-trans : (a b c : List RestartEvent) → Extends a b → Extends b c → Extends a c
Extends-trans a b c (m, p) (n, q) = (m ++ n, rw (q, p) (append_assoc a m n))

write-Extends : (w : Write) (db : Db) → Extends db.events (write w db).events
unfolding write
write-Extends (started name now) db = Extends-refl db.events
write-Extends (halted name) db = Extends-refl db.events
write-Extends (check name passed reason now) db = Extends-refl db.events
write-Extends (event svc reason now) db = (_, refl)
write-Extends (repaired name) db = Extends-refl db.events
write-Extends (manual_restart name now) db = elim (Option-cases (find name db.services)) [
  | inl absent ↦ rw (absent, record_manual_restart_event) (Extends-refl db.events)
  | inr (svc, found) ↦ rw (found, record_manual_restart_event) (_, refl)
]
write-Extends (manual_stop name) db = Extends-refl db.events

unfoldable pub writes : List Write → Db → Db
writes [] db = db
writes (w ∷ rest) db = writes rest (write w db)

-- No write of the list is to the row `name`.
abbrev pub Avoids : String → List Write → Type 0
Avoids name = All (λ w. target w ≢ some name)

write-spares :
    (w : Write) (db : Db) (other : String)
    → target w ≢ some other
    → (names (write w db).services ≡ names db.services) × (row other (write w db) ≡ row other db)
write-spares w db other h = go (target w) h (write-Respects w db)
  where
    go :
        (t : Option String)
        → t ≢ some other
        → Respects t db (write w db)
        → (names (write w db).services ≡ names db.services)
          × (row other (write w db) ≡ row other db)
    go none h r = (ap names r.rows, ap (find other) r.rows)
    go (some name) h r = (r.same_names, r.others other (ground (arith, eq_iff name other)))

-- However many sessions of status.py run, in whatever order, on whatever arguments: no service is
-- added, removed or renamed, the recorded restart events stay as they are with new ones behind
-- them, and the row of a service that none of the sessions names stays as it was.
pub writes_frame :
    (ws : List Write) (db : Db) (other : String)
    → Avoids other ws
    → (names (writes ws db).services ≡ names db.services)
      × (row other (writes ws db) ≡ row other db)
      × Extends db.events (writes ws db).events
unfolding writes
writes_frame [] db other h = (refl, refl, Extends-refl db.events)
writes_frame (w ∷ rest) db other h =
    let (n, r) = write-spares w db other h.0 in
    let (ns, rs, more) = writes_frame rest (write w db) other h.1 in
    (ns ∙ n, rs ∙ r, Extends-trans db.events (write w db).events _ (write-Extends w db) more)
