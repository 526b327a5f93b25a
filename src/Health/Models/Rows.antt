-- ===== src/Health/Models/Rows.antt =====
-- `session.exec(select(Service).where(Service.name == name)).one_or_none()`, and the write of that
-- row by `session.commit()`. The column `name` is unique, so the first row of a name is the only one.
use dockfleet.Prelude.{
  String, ◌≡◌, refl, ◌==◌, eq_iff, if◌then◌else◌, List, [], ◌∷◌, map, Option, none, some, arith,
}
use mathlib.Core.Option
use dockfleet.Health.Models.{Service, Db}

unfoldable pub find : String → List Service → Option Service
find name [] = none
find name (svc ∷ rows) = if svc.name == name then some svc else find name rows

unfoldable pub update : String → (Service → Service) → List Service → List Service
update name f [] = []
update name f (svc ∷ rows) = if svc.name == name then f svc ∷ rows else svc ∷ update name f rows

-- A session that looks a row up, changes it and commits; without the row it changes nothing.
unfoldable pub on_row : String → (Service → Service) → Db → Db
on_row name f db = record db { services = update name f db.services }

abbrev pub names : List Service → List String
names = map (λ svc. svc.name)

abbrev pub row : String → Db → Option Service
row name db = find name db.services

-- `f` changes columns other than the name.
pub record KeepsName (f : Service → Service) : Type 0 where
  pub at : (svc : Service) → (f svc).name ≡ svc.name

module _ (f : Service → Service) (keeps : KeepsName f) where
  pub names-update : (name : String) (rows : List Service) → names (update name f rows) ≡ names rows
  unfolding update
  names-update name [] = refl
  names-update name (svc ∷ rows) = ground (arith, keeps.at svc, names-update name rows)

  pub find-update :
      (name other : String) (rows : List Service)
      → find other (update name f rows)
        ≡ (if name == other then Option.map f (find other rows) else find other rows)
  unfolding find update
  find-update name other [] = ground arith
  find-update name other (svc ∷ rows) = ground (
    arith,
    keeps.at svc,
    find-update name other rows,
    eq_iff name other,
    eq_iff svc.name name,
    eq_iff svc.name other,
    eq_iff (f svc).name other,
  )
