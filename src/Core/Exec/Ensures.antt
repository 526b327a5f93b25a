-- ===== src/Core/Exec/Ensures.antt =====
-- What a method brings about, from what holds before it: one rule for each way to build it.
use dockfleet.Prelude.{ℕ, ◌≡◌, refl, true, String}
use dockfleet.Health.Models.{Db}
use dockfleet.Core.Exec.{
  World, Node, Outcome, ok, raised, Exec, pure, raise, ◌>>=◌, try_except, then_do, handle, session,
}
use dockfleet.Core.Exec.Keeps.{Keeps}

-- `Returns a s` where the method returned `a`, `Raises e s` where it raised `e`.
abbrev pub Post :
    {A : Type 0} → (A → Node → Type 0) → (String → Node → Type 0) → Outcome A → Node → Type 0
Post Returns Raises (ok a) s = Returns a s
Post Returns Raises (raised e) s = Raises e s

pub record Ensures {A : Type 0} (P : Node → Type 0) (m : Exec A) (Returns : A → Node → Type 0)
    (Raises : String → Node → Type 0) : Type 0 where
  pub at : (s : Node) → P s → Post Returns Raises (m s).0 (m s).1

module _ {A : Type 0} {P : Node → Type 0} {Returns : A → Node → Type 0}
    {Raises : String → Node → Type 0} where
  pub Ensures-pure : (a : A) → ((s : Node) → P s → Returns a s) → Ensures P (pure a) Returns Raises
  unfolding pure
  Ensures-pure a h = record { at = h }

  pub Ensures-raise :
      (e : String) → ((s : Node) → P s → Raises e s) → Ensures P (raise e) Returns Raises
  unfolding raise
  Ensures-raise e h = record { at = h }

  -- The handler starts from what the raise left.
  pub Ensures-try_except :
      {Inner : String → Node → Type 0} (m : Exec A) (h : String → Exec A)
      → Ensures P m Returns Inner
      → ((e : String) → Ensures (Inner e) (h e) Returns Raises)
      → Ensures P (try_except m h) Returns Raises
  unfolding try_except
  Ensures-try_except {Inner = Inner} m h em eh = record {
    at = λ s p. go (m s).0 (m s).1 (em.at s p);
  }
    where
      go :
          (r : Outcome A) (s : Node)
          → Post Returns Inner r s
          → Post Returns Raises (handle r h s).0 (handle r h s).1
      go (ok a) s q = q
      go (raised e) s q = (eh e).at s q

module _ {A B : Type 0} {P : Node → Type 0} {Returns : B → Node → Type 0}
    {Raises : String → Node → Type 0} where
  pub Ensures-bind :
      {Between : A → Node → Type 0} (m : Exec A) (f : A → Exec B)
      → Ensures P m Between Raises
      → ((a : A) → Ensures (Between a) (f a) Returns Raises)
      → Ensures P (m >>= f) Returns Raises
  unfolding ◌>>=◌
  Ensures-bind {Between = Between} m f em ef = record { at = λ s p. go (m s).0 (m s).1 (em.at s p) }
    where
      go :
          (r : Outcome A) (s : Node)
          → Post Between Raises r s
          → Post Returns Raises (then_do r f s).0 (then_do r f s).1
      go (ok a) s q = (ef a).at s q
      go (raised e) s q = q

  -- A first step that keeps `P`.
  pub Ensures-after :
      (m : Exec A) (f : A → Exec B)
      → Keeps P m
      → ((e : String) (s : Node) → P s → Raises e s)
      → ((a : A) → Ensures P (f a) Returns Raises)
      → Ensures P (m >>= f) Returns Raises
  unfolding ◌>>=◌
  Ensures-after m f km raises ef = record { at = λ s p. go (m s).0 (m s).1 (km.at s p) }
    where
      go :
          (r : Outcome A) (s : Node) → P s → Post Returns Raises (then_do r f s).0 (then_do r f s).1
      go (ok a) s p = (ef a).at s p
      go (raised e) s p = raises e s p

-- The rows are `db`.
abbrev pub Rows : Db → Node → Type 0
Rows db s = s.db ≡ db

-- The rows are what `f` made of `db`, at some time.
abbrev pub Written : (ℕ → Db → Db) → Db → Node → Type 0
Written f db s = (now : ℕ) × (s.db ≡ f now db)

pub Ensures-session :
    {Raises : String → Node → Type 0} (world : World) (f : ℕ → Db → Db) (db : Db)
    → ((n : ℕ) → world.db_works n ≡ true)
    → Ensures (Rows db) (session world f) (λ a. Written f db) Raises
unfolding session
Ensures-session {Raises = Raises} world f db works = record {
  at = λ s h. rw (works s.steps, session) (rw (← h) (s.now, refl));
}
