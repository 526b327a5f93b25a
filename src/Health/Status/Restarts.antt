-- ===== src/Health/Status/Restarts.antt =====
-- What a restart event remembers of the restart.
use dockfleet.Prelude.{refl, true, ℕ, String, ◌≡◌, ◌==◌, eq_iff, List, [], ◌∷◌, ◌++◌, some, arith}
use dockfleet.Health.Models.{Service, Db}
use dockfleet.Health.Models.Rows.{find, update, row}
use dockfleet.Health.Status.{restarted, find_id, record_restart_event, mark_restart_successful}

name_of_found :
    (name : String) (svc : Service) (rows : List Service)
    → find name rows ≡ some svc
    → (svc.name == name) ≡ true
unfolding find
name_of_found name svc [] h = cc
name_of_found name svc (x ∷ rows) h =
    ground (arith, name_of_found name svc rows, eq_iff x.name name)

id_of_found :
    (id : ℕ) (svc : Service) (rows : List Service) → find_id id rows ≡ some svc → svc.id ≡ id
unfolding find_id
id_of_found id svc [] h = cc
id_of_found id svc (x ∷ rows) h = ground (arith, id_of_found id svc rows)

-- Both keys find one row; then the changed row is found by its id too.
find_id-update :
    (f : Service → Service)
    → ((svc : Service) → (f svc).id ≡ svc.id)
    → (id : ℕ) (name : String) (svc : Service) (rows : List Service) → find_id id rows ≡ some svc
    → find name rows ≡ some svc
    → find_id id (update name f rows) ≡ some (f svc)
unfolding find_id find update
find_id-update f keeps id name svc [] p q = cc
find_id-update f keeps id name svc (x ∷ rows) p q = ground (
  arith,
  keeps x,
  find_id-update f keeps id name svc rows,
  name_of_found name svc rows,
  id_of_found id svc rows,
  eq_iff x.name name,
)

-- Take a service whose row is found by its id and by its name. After an automatic restart, that is
-- mark_restart_successful and then record_restart_event, the last event names the service and the
-- reason, and its previous status is running whatever the status before the restart was.
pub auto_restart_event :
    (svc found : Service) (reason : String) (now : ℕ) (db : Db)
    → find_id svc.id db.services ≡ some found
    → row svc.name db ≡ some found
    → (record_restart_event svc reason now (mark_restart_successful svc.name db)).events
      ≡ db.events
        ++ record {
          service_id = found.id;
          service_name = found.name;
          restarted_at = now;
          reason = reason;
          previous_status = some "running";
          new_status = some "running";
        }
          ∷ []
unfolding record_restart_event mark_restart_successful
auto_restart_event svc found reason now db p q =
    rw
      (find_id-update restarted (λ s. unfold restarted in refl) svc.id svc.name found db.services p
        q)
      refl
