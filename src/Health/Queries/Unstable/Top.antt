-- ===== src/Health/Queries/Unstable/Top.antt =====
-- What the list of the most unstable services leaves out.
use dockfleet.Prelude.{ℕ, ◌≤◌, filter, length, ◌≡◌}
use dockfleet.Health.Models.{Service, Db}
use dockfleet.Health.Queries.{in_window}
use dockfleet.Health.Queries.Unstable.{Unstable}

-- A row of the answer, against the tables: some service has it, with all its events of the window, one
-- at least.
pub record IsCounted (since : ℕ) (db : Db) (u : Unstable) : Type 0 where
  pub svc : Service
  pub named : u.service_name ≡ svc.name
  pub counted : u.restarts ≡ length (filter (in_window svc.id since) db.events)
  pub some_events : 1 ≤ u.restarts
