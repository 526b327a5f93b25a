-- ===== src/Health/Lock/Safe.antt =====
-- What the scheduler lock promises, when the operations of the processes do not overlap.
use dockfleet.Prelude.{
  ℕ, Bool, true, false, List, [], ◌∷◌, Option, none, some, ◌≡◌, ◌∙◌, refl, sym, ap, arith,
  Bool-cases, inl, inr,
}
use mathlib.Core.Path.{subst}
use dockfleet.Health.Lock.{System, is_owner, acquire}
use dockfleet.Health.Lock.Spec.{
  Op, acquires, releases, crashes, Spec, acts, returned, spec_op, op, spec_run, run, ran, spec_ran,
}
use dockfleet.Health.Lock.Refine.{Sim, acquire-refines, HeldBy, acts-alive}
use dockfleet.Health.Lock.Freed.{release-Sim, crash-Sim}

-- No process has opened the lock; the files of an earlier run may be there.
pub record Unopened (s : System) : Type 0 where
  pub unlocked : (j : ℕ) → s.owner j ≡ none
  pub unheld : (q : ℕ) → s.acquired q ≡ false
  pub no_file : (q : ℕ) → s.fd q ≡ none

abbrev pub free : System → Spec
free s = record { holder = none; living = s.alive }

pub free-Sim : (s : System) → Unopened s → Sim s (free s)
unfolding is_owner
free-Sim s h = record {
  living = refl;
  held = h.unlocked;
  fields = λ q lives. h.unheld q;
  idle = λ q lives other. h.no_file q;
}

spec_acts :
    (p : ℕ) (s : System) (a : Spec) (b : Bool) → Sim s a → acts p s.alive ≡ b → acts p a.living ≡ b
spec_acts p s a b sim h = sym (ap (acts p) sim.living) ∙ h

op-Sim :
    (o : Op) (s : System) (a : Spec)
    → Sim s a
    → ((op o s).0 ≡ (spec_op o a).0) × Sim (op o s).1 (spec_op o a).1
unfolding op spec_op
op-Sim (acquires p) s a sim = elim (Bool-cases (acts p s.alive)) [
  | inl here ↦
      rw (here, spec_acts p s a true sim here) (acquire-refines p s a sim here a.holder refl)
  | inr away ↦ rw (away, spec_acts p s a false sim away) (refl, sim)
]
op-Sim (releases p) s a sim = elim (Bool-cases (acts p s.alive)) [
  | inl here ↦ rw (here, spec_acts p s a true sim here) (refl, release-Sim p s a sim here)
  | inr away ↦ rw (away, spec_acts p s a false sim away) (refl, sim)
]
op-Sim (crashes p) s a sim = elim (Bool-cases (acts p s.alive)) [
  | inl here ↦ rw (here, spec_acts p s a true sim here) (refl, crash-Sim p s a sim here)
  | inr away ↦ rw (away, spec_acts p s a false sim away) (refl, sim)
]

run-Sim : (os : List Op) (s : System) (a : Spec) → Sim s a → run os s ≡ spec_run os a
unfolding run spec_run
run-Sim [] s a sim = refl
run-Sim (o ∷ os) s a sim =
    let (same, sim') = op-Sim o s a sim in
    ap (λ r. r ∷ run os (op o s).1) same
    ∙ ap (◌∷◌ (spec_op o a).0) (run-Sim os (op o s).1 (spec_op o a).1 sim')

ran-Sim : (os : List Op) (s : System) (a : Spec) → Sim s a → Sim (ran os s) (spec_ran os a)
unfolding ran spec_ran
ran-Sim [] s a sim = sim
ran-Sim (o ∷ os) s a sim = ran-Sim os (op o s).1 (spec_op o a).1 (op-Sim o s a sim).1

pub one_owner :
    (p q : ℕ) (holder : Option ℕ) → is_owner p holder ≡ true → is_owner q holder ≡ true → p ≡ q
unfolding is_owner
one_owner p q none h k = ground arith
one_owner p q (some r) h k = ground arith

held_as : (h : ℕ) (s : System) (a : Spec) → Sim s a → a.holder ≡ some h → HeldBy (some h) s
held_as h s a sim e = subst (λ o. HeldBy o s) e sim.held

no_holder :
    (s : System) (a : Spec) (holder : Option ℕ)
    → Sim s a
    → a.holder ≡ holder
    → ((q : ℕ) → s.alive q ≡ true → s.acquired q ≡ false)
    → a.holder ≡ none
unfolding is_owner
no_holder s a none sim e none_has = e
no_holder s a (some h) sim e none_has =
    let (i, there, named, opened, acting, owner) = held_as h s a sim e in
    let lives = acts-alive h s.alive acting in
    let claims = sim.fields h lives in ground (arith, none_has h lives, rw e at claims)

available :
    (p : ℕ) (s : System) (a : Spec)
    → Sim s a
    → acts p s.alive ≡ true
    → a.holder ≡ none
    → (returned (acquire p s).0 ≡ true) × ((acquire p s).1.acquired p ≡ true)
unfolding is_owner
available p s a sim here e =
    let (returns, after) = acquire-refines p s a sim here none e in
    let lives = acts-alive p s.alive here in
    (returns, after.fields p (ap (λ f. f p) (after.living ∙ sym sim.living) ∙ lives) ∙ ground arith)

module _ (s : System) (unopened : Unopened s) (os : List Op) where
  -- Whatever processes acquire, release and crash in turn, from a state in which none has opened the
  -- lock, each acquire returns or raises as that of a lock without files does, which one process holds
  -- until it releases or crashes.
  pub lock_refines : run os s ≡ spec_run os (free s)
  lock_refines = run-Sim os s (free s) (free-Sim s unopened)

  -- From a state in which no process has opened the lock, whatever processes acquire, release and crash
  -- in turn, two living processes that both have acquired the lock are the same.
  pub lock_exclusive :
      (p q : ℕ)
      → (ran os s).alive p ≡ true
      → (ran os s).acquired p ≡ true
      → (ran os s).alive q ≡ true
      → (ran os s).acquired q ≡ true
      → p ≡ q
  lock_exclusive p q here mine there theirs =
      let sim = ran-Sim os s (free s) (free-Sim s unopened) in
      one_owner p q (spec_ran os (free s)).holder (sym (sim.fields p here) ∙ mine)
        (sym (sim.fields q there) ∙ theirs)

  -- From a state in which no process has opened the lock, after any operations of processes in turn: if
  -- no living process has acquired the lock, though one that had it may have crashed, the next
  -- acquire of a living process returns, and that process has it.
  pub lock_available :
      (p : ℕ)
      → acts p (ran os s).alive ≡ true
      → ((q : ℕ) → (ran os s).alive q ≡ true → (ran os s).acquired q ≡ false)
      → (returned (acquire p (ran os s)).0 ≡ true) × ((acquire p (ran os s)).1.acquired p ≡ true)
  lock_available p here none_has =
      let sim = ran-Sim os s (free s) (free-Sim s unopened) in
      available p (ran os s) (spec_ran os (free s)) sim here (no_holder _ _ _ sim refl none_has)
