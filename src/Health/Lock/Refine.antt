-- ===== src/Health/Lock/Refine.antt =====
-- The lock on the files against the lock without files.
use dockfleet.Prelude.{
  ℕ, Bool, true, false, Option, none, some, eqb, if◌then◌else◌, ◌≡◌, ◌∙◌, refl, sym, ap, arith,
  Bool-cases, inl, inr, eqb_iff, ◌⊎◌,
}
use mathlib.Core.Path.{subst}
use dockfleet.Core.Exec.{ok, raised}
use dockfleet.Health.Lock.{
  System, Done, set, is_owner, closed, inode_of, open_lock, close_lock, take_lock, on_flock,
  try_lock, on_holder, pid_is_running, raise_conflict, acquire,
}
use dockfleet.Health.Lock.Spec.{Spec, acts, returned, spec_acquire}

-- No inode is locked; or that of the lock file is, by a living process, which the process file names.
abbrev pub HeldBy : Option ℕ → System → Type 0
HeldBy none s = (j : ℕ) → s.owner j ≡ none
HeldBy (some h) s =
    (i : ℕ) × (s.lock_file ≡ some i)
    × (s.pid_file ≡ some h)
    × (s.fd h ≡ some i)
    × (acts h s.alive ≡ true)
    × ((j : ℕ) → s.owner j ≡ (if eqb j i then some h else none))

-- The two locks agree: on who lives, on who holds the lock, and on what the lock objects of the living
-- processes say. The others have no file open.
pub record Sim (s : System) (a : Spec) : Type 0 where
  pub living : s.alive ≡ a.living
  pub held : HeldBy a.holder s
  pub fields : (q : ℕ) → s.alive q ≡ true → s.acquired q ≡ is_owner q a.holder
  pub idle : (q : ℕ) → s.alive q ≡ true → is_owner q a.holder ≡ false → s.fd q ≡ none

abbrev opened_inode : System → ℕ
opened_inode s = inode_of s.lock_file s.next_inode

module _ (p : ℕ) (s : System) where
  pub acquire_free :
      closed (s.fd p) p s.owner (opened_inode s) ≡ none
      → acquire p s ≡ (ok tt, take_lock p (opened_inode s) (open_lock p s))
  unfolding acquire try_lock on_flock open_lock
  acquire_free free = rw (free, acquire) refl

  acquire_busy :
      (q : ℕ)
      → closed (s.fd p) p s.owner (opened_inode s) ≡ some q
      → s.pid_file ≡ some q
      → pid_is_running s.alive q ≡ true
      → acquire p s ≡ (raised "already running", close_lock p (open_lock p s))
  unfolding acquire try_lock on_flock open_lock close_lock raise_conflict on_holder
  acquire_busy q busy named runs =
      rw (busy, acquire) (rw (named, raise_conflict) (rw (runs, on_holder) refl))

pub acts-alive : (p : ℕ) (alive : ℕ → Bool) → acts p alive ≡ true → alive p ≡ true
acts-alive p alive h = ground arith

acts-running : (p : ℕ) (alive : ℕ → Bool) → acts p alive ≡ true → pid_is_running alive p ≡ true
unfolding pid_is_running
acts-running p alive h = ground arith

module _ (p : ℕ) (s : System) (a : Spec) (sim : Sim s a) (here : acts p s.alive ≡ true) where
  -- The process takes a lock that no other holds.
  take-Sim :
      ((q : ℕ) → eqb q p ≡ false → is_owner q a.holder ≡ false)
      → ((j : ℕ) → closed (s.fd p) p s.owner j ≡ none)
      → Sim (take_lock p (opened_inode s) (open_lock p s)) (record a { holder = some p })
  unfolding take_lock open_lock set is_owner
  take-Sim others free = record {
    living = sim.living;
    held = (opened_inode s, refl, refl, ground arith, here, λ j. ground (arith, free j));
    fields = λ q lives. ground (arith, sim.fields q lives, others q);
    idle = λ q lives other. ground (arith, sim.idle q lives, others q);
  }

  pub not_held : (q : ℕ) → a.holder ≡ some q → eqb q p ≡ false → s.fd p ≡ none
  unfolding is_owner
  not_held q holder other = sim.idle p (acts-alive p s.alive here) (rw holder other)

  -- Closing a file that is not open, and then one whose lock another has, frees nothing.
  busy-owner :
      (q i j : ℕ) (opened : Option ℕ)
      → eqb q p ≡ false
      → s.fd p ≡ none
      → ((k : ℕ) → s.owner k ≡ (if eqb k i then some q else none))
      → closed opened p (closed (s.fd p) p s.owner) j ≡ s.owner j
  unfolding closed is_owner
  busy-owner q i j none other empty owner = rw empty refl
  busy-owner q i j (some k) other empty owner =
      rw (empty, owner j)
        (elim (Bool-cases (eqb j i)) [
          | inl theirs ↦ rw theirs (ground (arith, other))
          | inr no_one ↦ rw no_one (ground arith)
        ])

  -- The lock of another is opened and closed again.
  busy-Sim :
      (q : ℕ)
      → a.holder ≡ some q
      → eqb q p ≡ false
      → HeldBy (some q) s
      → Sim (close_lock p (open_lock p s)) a
  unfolding close_lock open_lock set is_owner
  busy-Sim q holder other (i, there, named, opened, acting, owner) =
      let empty = not_held q holder other in
      record {
        living = sim.living;
        held = rw holder (
          i,
          rw there refl,
          named,
          ground (arith, opened, other),
          acting,
          λ j. busy-owner q i j _ other empty owner ∙ owner j,
        );
        fields = sim.fields;
        idle = λ r lives mine. ground (arith, sim.idle r lives mine);
      }

  -- Nobody holds an inode once the holder has closed its file.
  pub freed :
      (h i j : ℕ)
      → h ≡ p
      → s.fd h ≡ some i
      → ((k : ℕ) → s.owner k ≡ (if eqb k i then some h else none))
      → closed (s.fd p) p s.owner j ≡ none
  unfolding closed is_owner
  freed h i j same opened owner =
      rw (sym same, opened, owner j)
        (elim (Bool-cases (eqb j i)) [
          | inl mine ↦ rw mine (ground arith)
          | inr no_one ↦ rw no_one (ground arith)
        ])

  abbrev pub Result : Done → Bool × Spec → Type 0
  Result r t = (returned r.0 ≡ t.0) × Sim r.1 t.1

  pub held_as : (holder : Option ℕ) → a.holder ≡ holder → HeldBy holder s
  held_as holder e = subst (λ h. HeldBy h s) e sim.held

  -- A process that opens the lock file finds the lock of its owner on it.
  seen :
      (h i : ℕ)
      → s.lock_file ≡ some i
      → ((k : ℕ) → s.owner k ≡ (if eqb k i then some h else none))
      → s.fd p ≡ none
      → closed (s.fd p) p s.owner (opened_inode s) ≡ some h
  unfolding closed
  seen h i there owner empty = rw (empty, there) (owner i ∙ ground arith)

  acquire-held :
      (h : ℕ)
      → a.holder ≡ some h
      → HeldBy (some h) s
      → (eqb h p ≡ true) ⊎ (eqb h p ≡ false)
      → Result (acquire p s) (eqb h p, a)
  unfolding is_owner
  acquire-held h e (i, there, named, opened, acting, owner) (inl mine) =
      let same = (eqb_iff h p).0 mine in
      rw (acquire_free p s (freed h i _ same opened owner)) (
        sym mine,
        subst (λ o. Sim (take_lock p (opened_inode s) (open_lock p s)) (record a { holder = o }))
            (ap some (sym same) ∙ sym e)
            (take-Sim (λ q other. rw e (ground (arith, same, other)))
              (λ j. freed h i j same opened owner)),
      )
  acquire-held h e (i, there, named, opened, acting, owner) (inr other) =
      rw
        (acquire_busy p s h (seen h i there owner (not_held h e other)) named
          (acts-running h s.alive acting))
        (sym other, busy-Sim h e other (i, there, named, opened, acting, owner))

  pub acquire-refines :
      (holder : Option ℕ) → a.holder ≡ holder → Result (acquire p s) (spec_acquire p a holder)
  unfolding closed is_owner
  acquire-refines none e =
      rw (acquire_free p s (free (opened_inode s))) (refl, take-Sim (λ q other. rw e refl) free)
    where
      free : (j : ℕ) → closed (s.fd p) p s.owner j ≡ none
      free j =
          ap (λ f. closed f p s.owner j) (sim.idle p (acts-alive p s.alive here) (rw e refl))
          ∙ held_as none e j
  acquire-refines (some h) e = acquire-held h e (held_as (some h) e) (Bool-cases (eqb h p))
