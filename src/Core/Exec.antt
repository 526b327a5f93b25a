-- ===== src/Core/Exec.antt =====
-- How the methods of the orchestrator run: they read and change the state of the process and of the
-- database, ask the world outside, and may raise. What was written before a raise stays written.
pub mod Keeps
pub mod Ensures
use dockfleet.Prelude.{ℕ, suc, ◌+◌, String, Bool, List, [], ◌∷◌, ◌++◌, if◌then◌else◌}
use dockfleet.Health.Models.{Db}

-- The arguments of a subprocess, and how it ended.
abbrev pub Command : Type 0
Command = List String

pub data Reply : Type 0 where
  exited : ℕ → String → Reply  -- the exit code and stderr
  timed_out : Reply
  broken : String → Reply  -- the call raised another error, such as without the docker binary

-- What is outside of the program, at each point of time of the process: the replies to commands,
-- whether a host address can be bound, whether a database session works, and how long things take.
pub record World : Type 0 where
  pub reply : ℕ → Command → Reply
  pub can_bind : ℕ → List ℕ → ℕ → Bool
  pub db_works : ℕ → Bool
  pub delay : ℕ → ℕ

-- `steps` counts the times that the world was asked, and `now` is the clock. `active` is the set
-- `_active_restarts`.
pub record Node : Type 0 where
  pub db : Db
  pub active : List String
  pub commands : List Command
  pub steps : ℕ
  pub now : ℕ

pub data Outcome {ℓ} (A : Type ℓ) : Type ℓ where
  ok : A → Outcome A
  raised : String → Outcome A

abbrev pub Exec {ℓ} : Type ℓ → Type ℓ
Exec A = Node → Outcome A × Node

module _ {ℓ} {A : Type ℓ} where
  unfoldable pub pure : A → Exec A
  pure a s = (ok a, s)

  unfoldable pub raise : String → Exec A
  raise e s = (raised e, s)

  unfoldable pub gets : (Node → A) → Exec A
  gets f s = (ok (f s), s)

unfoldable pub modify : (Node → Node) → Exec (Unit {0})
modify f s = (ok tt, f s)

module _ {ℓ} {A B : Type ℓ} where
  abbrev pub then_do : Outcome A → (A → Exec B) → Exec B
  then_do (ok a) f s = f a s
  then_do (raised e) f s = (raised e, s)

  infixl 10 ◌>>=◌ ◌>>◌
  unfoldable pub ◌>>=◌ : Exec A → (A → Exec B) → Exec B
  ◌>>=◌ m f s = let (r, s') = m s in then_do r f s'

  abbrev pub ◌>>◌ : Exec A → Exec B → Exec B
  m >> n = m >>= λ _. n

module _ {ℓ} {A : Type ℓ} where
  abbrev pub handle : Outcome A → (String → Exec A) → Exec A
  handle (ok a) h s = (ok a, s)
  handle (raised e) h s = h e s

  -- `try: m  except Exception as e: h`
  unfoldable pub try_except : Exec A → (String → Exec A) → Exec A
  try_except m h s = let (r, s') = m s in handle r h s'

  -- `try: m  finally: ...`, where the last part changes the process only
  unfoldable pub try_finally : Exec A → (Node → Node) → Exec A
  try_finally m f s = let (r, s') = m s in (r, f s')

-- One more question to the world, and the time that it took.
abbrev pub tick : World → Node → Node
tick world s = record s { steps = s.steps + 1; now = s.now + world.delay s.steps }

-- `time.sleep(d)`
unfoldable pub sleep : World → ℕ → Exec (Unit {0})
sleep world d s = (ok tt, record (tick world s) { now = s.now + d + world.delay s.steps })

-- A subprocess.
unfoldable pub run : World → Command → Exec Reply
run world command s = (
  ok (world.reply s.steps command),
  record (tick world s) { commands = s.commands ++ command ∷ [] },
)

-- A session of the database that writes: it commits, or it raises and the rows stay.
unfoldable pub session : World → (ℕ → Db → Db) → Exec (Unit {0})
session world f s =
    let s' = tick world s in
    if world.db_works s.steps
    then (ok tt, record s' { db = f s.now s.db })
    else (raised "database error", s')

-- Any other question to the world.
unfoldable pub ask {ℓ} : {A : Type ℓ} → World → (ℕ → A) → Exec A
ask world answer s = (ok (answer s.steps), tick world s)
