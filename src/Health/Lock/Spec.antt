-- ===== src/Health/Lock/Spec.antt =====
-- A lock without files: at most one process holds it.
use dockfleet.Prelude.{
  ℕ, Bool, true, false, ◌&&◌, List, [], ◌∷◌, Option, none, some, eqb, leb, if◌then◌else◌,
}
use dockfleet.Core.Exec.{Outcome, ok, raised}
use dockfleet.Health.Lock.{System, set, is_owner, acquire, release, crash}

-- What the processes do, one after the other.
pub data Op : Type 0 where
  acquires releases crashes : ℕ → Op

pub record Spec : Type 0 where
  pub holder : Option ℕ
  pub living : ℕ → Bool

-- A process that lives, and whose number is none of those that `kill` takes for groups.
abbrev pub acts : ℕ → (ℕ → Bool) → Bool
acts p alive = leb 1 p && alive p

-- Whether an `acquire` returned.
abbrev pub returned : Outcome (Unit {0}) → Bool
returned (ok done) = true
returned (raised e) = false

abbrev pub spec_acquire : ℕ → Spec → Option ℕ → Bool × Spec
spec_acquire p s none = (true, record s { holder = some p })
spec_acquire p s (some q) = (eqb q p, s)

unfoldable pub without : ℕ → Option ℕ → Option ℕ
unfolding is_owner
without p holder = if is_owner p holder then none else holder

unfoldable pub spec_op : Op → Spec → Bool × Spec
unfolding set without
spec_op (acquires p) s = if acts p s.living then spec_acquire p s s.holder else (false, s)
spec_op (releases p) s =
    (true, if acts p s.living then record s { holder = without p s.holder } else s)
spec_op (crashes p) s = (
  true,
  if acts p s.living
      then record { holder = without p s.holder; living = set p false s.living }
      else s,
)

unfoldable pub op : Op → System → Bool × System
unfolding acquire release crash
op (acquires p) s =
    if acts p s.alive then (returned (acquire p s).0, (acquire p s).1) else (false, s)
op (releases p) s = (true, if acts p s.alive then release p s else s)
op (crashes p) s = (true, if acts p s.alive then crash p s else s)

unfoldable pub spec_run : List Op → Spec → List Bool
unfolding spec_op
spec_run [] s = []
spec_run (o ∷ os) s = let (r, s') = spec_op o s in r ∷ spec_run os s'

unfoldable pub run : List Op → System → List Bool
unfolding op
run [] s = []
run (o ∷ os) s = let (r, s') = op o s in r ∷ run os s'

-- The state behind the operations.
unfoldable pub ran : List Op → System → System
unfolding op
ran [] s = s
ran (o ∷ os) s = ran os (op o s).1

unfoldable pub spec_ran : List Op → Spec → Spec
unfolding spec_op
spec_ran [] s = s
spec_ran (o ∷ os) s = spec_ran os (spec_op o s).1
