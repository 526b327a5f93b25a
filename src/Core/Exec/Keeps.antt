-- ===== src/Core/Exec/Keeps.antt =====
-- Invariants of the methods, one rule for each way to build one.
use dockfleet.Prelude.{Bool, true, false, String, if◌then◌else◌}
use dockfleet.Core.Exec.{
  Node, Outcome, ok, raised, Exec, pure, raise, gets, ◌>>=◌, try_except, then_do, handle,
}

-- `m` keeps `P`, whether it returns or raises.
pub record Keeps {A : Type 0} (P : Node → Type 0) (m : Exec A) : Type 0 where
  pub at : (s : Node) → P s → P (m s).1

module _ {A : Type 0} {P : Node → Type 0} where
  pub Keeps-pure : (a : A) → Keeps P (pure a)
  unfolding pure
  Keeps-pure a = record { at = λ s h. h }

  pub Keeps-raise : (e : String) → Keeps P (raise {A = A} e)
  unfolding raise
  Keeps-raise e = record { at = λ s h. h }

  pub Keeps-gets : (f : Node → A) → Keeps P (gets f)
  unfolding gets
  Keeps-gets f = record { at = λ s h. h }

  pub Keeps-if : (b : Bool) (m n : Exec A) → Keeps P m → Keeps P n → Keeps P (if b then m else n)
  Keeps-if true m n km kn = km
  Keeps-if false m n km kn = kn

  pub Keeps-try_except :
      (m : Exec A) (h : String → Exec A)
      → Keeps P m
      → ((e : String) → Keeps P (h e))
      → Keeps P (try_except m h)
  unfolding try_except
  Keeps-try_except m h km kh = record { at = λ s p. let (r, s') = m s in go r s' (km.at s p) }
    where
      go : (r : Outcome A) (s' : Node) → P s' → P (handle r h s').1
      go (ok a) s' p = p
      go (raised e) s' p = (kh e).at s' p

module _ {A B : Type 0} {P : Node → Type 0} where
  pub Keeps-bind :
      (m : Exec A) (f : A → Exec B) → Keeps P m → ((a : A) → Keeps P (f a)) → Keeps P (m >>= f)
  unfolding ◌>>=◌
  Keeps-bind m f km kf = record { at = λ s p. let (r, s') = m s in go r s' (km.at s p) }
    where
      go : (r : Outcome A) (s' : Node) → P s' → P (then_do r f s').1
      go (ok a) s' p = (kf a).at s' p
      go (raised e) s' p = p

pub ruleset keeps_rules =
    (Keeps-pure, Keeps-raise, Keeps-gets, Keeps-if, Keeps-try_except, Keeps-bind)
