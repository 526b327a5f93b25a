-- ===== src/Health/Lock/Freed.antt =====
-- The lock on the files when its holder releases it or crashes.
use dockfleet.Prelude.{
  ℕ, Bool, true, false, Option, none, some, eqb, ◌≡◌, ◌∙◌, refl, ap, arith, Bool-cases,
  Option-cases, inl, inr, eqb_iff,
}
use dockfleet.Health.Lock.{
  System, set, is_owner, closed, close_lock, release, unlock, cleanup_stale, crash,
}
use dockfleet.Health.Lock.Spec.{Spec, acts, without}
use dockfleet.Health.Lock.Refine.{HeldBy, Sim, acts-alive, held_as, freed, not_held}

module _ (p : ℕ) (s : System) (a : Spec) (sim : Sim s a) (here : acts p s.alive ≡ true) where
  -- The holder closes its file: no inode is locked.
  closes : is_owner p a.holder ≡ true → (j : ℕ) → closed (s.fd p) p s.owner j ≡ none
  unfolding is_owner
  closes mine j = elim (Option-cases a.holder) [
    | inl e ↦ ground (arith, rw e at mine)
    | inr (h, e) ↦
        let (i, there, named, opened, acting, owner) = held_as p s a sim here (some h) e in
        freed p s a sim here h i j ((eqb_iff h p).0 (rw e at mine)) opened owner
  ]

  only_holder : is_owner p a.holder ≡ true → (q : ℕ) → eqb q p ≡ false → is_owner q a.holder ≡ false
  unfolding is_owner
  only_holder mine q other = elim (Option-cases a.holder) [
    | inl e ↦ rw e refl
    | inr (h, e) ↦ rw e (ground (arith, other, rw e at mine))
  ]

  says : (b : Bool) → is_owner p a.holder ≡ b → s.acquired p ≡ b
  says b e = sim.fields p (acts-alive p s.alive here) ∙ e

  pub release-Sim : Sim (release p s) (record a { holder = without p a.holder })
  unfolding release unlock cleanup_stale close_lock set is_owner without
  release-Sim = elim (Bool-cases (is_owner p a.holder)) [
    | inl mine ↦
        rw (mine, says true mine, release)
          record {
            living = sim.living;
            held = closes mine;
            fields = λ q lives. ground (arith, sim.fields q lives, only_holder mine q);
            idle = λ q lives other. ground (arith, sim.idle q lives, only_holder mine q);
          }
    | inr other ↦ rw (other, says false other, release) sim
  ]

  crash-holder : is_owner p a.holder ≡ true → HeldBy none (crash p s)
  unfolding crash close_lock
  crash-holder mine = closes mine

  crash-other :
      (holder : Option ℕ)
      → a.holder ≡ holder
      → is_owner p holder ≡ false
      → HeldBy holder s
      → HeldBy holder (crash p s)
  unfolding crash close_lock set closed is_owner
  crash-other none e other held =
      λ j. rw (sim.idle p (acts-alive p s.alive here) (rw e refl), closed) (held j)
  crash-other (some h) e other (i, there, named, opened, acting, owner) = (
    i,
    there,
    named,
    ground (arith, opened, other),
    ground (arith, acting, other),
    λ j. rw (not_held p s a sim here h e other, closed) (owner j),
  )

  pub crash-Sim :
      Sim (crash p s) (record { holder = without p a.holder; living = set p false a.living })
  unfolding crash close_lock set is_owner without
  crash-Sim = elim (Bool-cases (is_owner p a.holder)) [
    | inl mine ↦ rw mine record {
      living = ap (set p false) sim.living;
      held = crash-holder mine;
      fields = λ q lives. ground (arith, sim.fields q, only_holder mine q, lives);
      idle = λ q lives other. ground (arith, sim.idle q, only_holder mine q, lives);
    }
    | inr other ↦ rw other record {
      living = ap (set p false) sim.living;
      held = crash-other a.holder refl other sim.held;
      fields = λ q lives. ground (arith, sim.fields q, lives);
      idle = λ q lives mine. ground (arith, sim.idle q, lives, mine);
    }
  ]
