-- ===== src/Core/Fleet/Loops.antt =====
-- A loop over services, each of which is to reach a status.
use mathlib.Core.Option
use dockfleet.Prelude.{
  String, ◌≡◌, refl, ◌==◌, eq_refl, Bool, true, false, List, [], ◌∷◌, some, All, member,
  if◌then◌else◌, Bool-cases, inl, inr, ◌⊎◌, arith,
}
use dockfleet.Health.Models.{Service, Db}
use dockfleet.Health.Models.Rows.{row, on_row, find-update, KeepsName}
use dockfleet.Core.Exec.{Node, Outcome, ok, raised, Exec}
use dockfleet.Core.Exec.Ensures.{Post, Ensures, Ensures-pure, Ensures-bind, Rows}
use dockfleet.Core.Fleet.{run_each, add_failed}

abbrev pub HasRow : Db → String → Type 0
HasRow db name = (svc : Service) × (row name db ≡ some svc)

pub Ensures-weaken :
    {A : Type 0} {P : Node → Type 0} {R R' : A → Node → Type 0} {E E' : String → Node → Type 0}
    (m : Exec A)
    → ((a : A) (s : Node) → R a s → R' a s)
    → ((e : String) (s : Node) → E e s → E' e s)
    → Ensures P m R E
    → Ensures P m R' E'
Ensures-weaken {R = R} {R' = R'} {E = E} {E' = E'} m v w h = record {
  at = λ s p. go (m s).0 (m s).1 (h.at s p);
}
  where
    go : (r : Outcome _) (s : Node) → Post R E r s → Post R' E' r s
    go (ok a) s q = v a s q
    go (raised e) s q = w e s q

pub All-map :
    {P Q : String → Type 0} (f : (name : String) → P name → Q name) (names : List String)
    → All P names
    → All Q names
All-map f [] a = tt
All-map f (name ∷ names) a = (f name a.0, All-map f names a.1)

module _ (Q : Service → Type 0) where
  abbrev pub Is : Db → String → Type 0
  Is db name = (svc : Service) × (row name db ≡ some svc) × Q svc

  -- No row goes away, and what was reached stays so.
  pub record Grows (db db' : Db) : Type 0 where
    pub has : (name : String) → HasRow db name → HasRow db' name
    pub stays : (name : String) → Is db name → Is db' name

  pub Grows-refl : (db : Db) → Grows db db
  Grows-refl db = record { has = λ n p. p; stays = λ n p. p }

  Grows-trans : {a b c : Db} → Grows a b → Grows b c → Grows a c
  Grows-trans g h = record {
    has = λ name p. h.has name (g.has name p);
    stays = λ name p. h.stays name (g.stays name p);
  }

  -- A write to one row that reaches the status.
  module _ (f : Service → Service) (keeps : KeepsName f)
      (reaches : (svc : Service) → Q (f svc)) where
    row-on_row :
        (name other : String) (db : Db)
        → row other (on_row name f db)
          ≡ (if name == other then Option.map f (row other db) else row other db)
    unfolding on_row
    row-on_row name other db = find-update f keeps name other db.services

    pub on_row-Grows : (name : String) (db : Db) → Grows db (on_row name f db)
    on_row-Grows name db = record {
      has = λ other (svc, h).
          rw (row-on_row name other db, h)
            (elim (Bool-cases (name == other)) [
              | inl here ↦ rw here (f svc, refl)
              | inr there ↦ rw there (svc, refl)
            ]);
      stays = λ other (svc, h, q).
          rw (row-on_row name other db, h)
            (elim (Bool-cases (name == other)) [
              | inl here ↦ rw here (f svc, refl, reaches svc)
              | inr there ↦ rw there (svc, refl, q)
            ]);
    }

    pub on_row-Is : (name : String) (db : Db) → HasRow db name → Is (on_row name f db) name
    on_row-Is name db (svc, h) = rw (row-on_row name name db, h, eq_refl) (f svc, refl, reaches svc)

  -- A service that the list of the failures lacks has reached the status.
  abbrev pub IsOrFailed : List String → Db → String → Type 0
  IsOrFailed failed db name = (member name failed ≡ true) ⊎ Is db name

  more_failed :
      (success : Bool) (name : String) (failed : List String) (db : Db) (other : String)
      → IsOrFailed failed db other
      → IsOrFailed (add_failed success name failed) db other
  unfolding member
  more_failed true name failed db other h = h
  more_failed false name failed db other (inr r) = inr r
  more_failed false name failed db other (inl m) = inl (ground (arith, m))

  -- One turn of the loop, and the loop, from the rows `db`.
  abbrev pub Turned : String → Db → Bool → Node → Type 0
  Turned name db success s = Grows db s.db × ((success ≡ false) ⊎ Is s.db name)

  abbrev pub Looped : List String → Db → List String → Node → Type 0
  Looped names db failed s = Grows db s.db × All (IsOrFailed failed s.db) names

  extend :
      (success : Bool) (name : String) (names failed : List String) (db db' : Db) (s : Node)
      → Grows db db'
      → (success ≡ false) ⊎ Is db' name
      → Looped names db' failed s
      → Looped (name ∷ names) db (add_failed success name failed) s
  unfolding member
  extend success name names failed db db' s g first l = (
    Grows-trans g l.0,
    (
      elim first [
        | inl no_success ↦ inl (rw (no_success, eq_refl) refl)
        | inr reached ↦ inr (l.0.stays name reached)
      ],
      All-map (more_failed success name failed s.db) names l.1,
    ),
  )

  pub run_each-Ensures :
      (each : String → Exec Bool)
      → ((name : String) (db : Db)
          → HasRow db name
          → Ensures (Rows db) (each name) (Turned name db) (λ e s. Unit))
      → (names : List String) (db : Db) → All (HasRow db) names
      → Ensures (Rows db) (run_each each names) (Looped names db) (λ e s. Unit)
  unfolding run_each
  run_each-Ensures each turn [] db rows = Ensures-pure [] (λ s h. rw h (Grows-refl db, tt))
  run_each-Ensures each turn (name ∷ names) db rows =
      Ensures-bind _ _ (turn name db rows.0) λ success. record {
        at = λ s (g, first).
            (Ensures-bind _ _
                (run_each-Ensures each turn names s.db (All-map (λ n p. g.has n p) names rows.1))
                (λ failed.
                  Ensures-pure _
                    (λ s' l. extend success name names failed db s.db s' g first l))).at
              s refl;
      }
