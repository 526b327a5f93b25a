-- ===== src/Health/Lifecycle/Handover.antt =====
-- Who can start a scheduler behind a stop.
use dockfleet.Prelude.{
  ℕ, Bool, true, false, List, Option, none, some, eqb, eqb_iff, ◌≡◌, ◌≢◌, ◌∙◌, refl, ap, arith,
  Bool-cases, inl, inr,
}
use dockfleet.Core.Exec.{Outcome, ok, raised}
use dockfleet.Health.Lock.{
  System, set, is_owner, acquire, release, unlock, cleanup_stale, close_lock,
}
use dockfleet.Health.Lock.Spec.{Spec, acts, returned, without}
use dockfleet.Health.Lock.Refine.{Sim, acquire-refines, acts-alive}
use dockfleet.Health.Lock.Freed.{release-Sim}
use dockfleet.Health.Lifecycle.{Machine, is_polling, after_acquire, start, stop, Event, behind}
use dockfleet.Health.Lifecycle.Exclusive.{
  Guarded, Fresh, Fresh-Guarded, behind-Guarded, release_held,
}

pub owned : (p : ℕ) (holder : Option ℕ) → is_owner p holder ≡ true → holder ≡ some p
unfolding is_owner
owned p none h = cc
owned p (some q) h = ground (arith, eqb_iff q p)

pub without_owner : (p : ℕ) (holder : Option ℕ) → is_owner p holder ≡ true → without p holder ≡ none
unfolding without
without_owner p holder h = rw h refl

-- Whether a start returned, and whether the scheduler polls then.
abbrev pub Started : ℕ → Bool → Outcome (Unit {0}) × Machine → Type 0
Started q b (r, m) = (returned r ≡ b) × (is_polling (m.thread q) ≡ b)

pub after_acquire-Started :
    (q : ℕ) (m : Machine) (b : Bool) (r : Outcome (Unit {0})) (lock : System)
    → is_polling (m.thread q) ≡ false
    → returned r ≡ b
    → Started q b (after_acquire q m (r, lock))
unfolding set
after_acquire-Started q m b (ok done) lock idle h = (h, ground (arith, h))
after_acquire-Started q m b (raised e) lock idle h = (h, idle ∙ h)

pub start_free :
    (q : ℕ) (m : Machine) (a : Spec)
    → Sim m.lock a
    → acts q m.lock.alive ≡ true
    → a.holder ≡ none
    → Started q true (start q m)
unfolding start
start_free q m a sim here free = elim (Bool-cases (is_polling (m.thread q))) [
  | inl polls ↦ rw polls (refl, polls)
  | inr idle ↦ rw idle (
      after_acquire-Started q m true (acquire q m.lock).0 (acquire q m.lock).1 idle
        (acquire-refines q m.lock a sim here none free).0)
]

start_held :
    (p q : ℕ) (m : Machine) (g : Guarded m)
    → acts q m.lock.alive ≡ true
    → g.spec.holder ≡ some p
    → p ≢ q
    → Started q false (start q m)
unfolding start is_owner
start_held p q m g here held other =
    let differs : eqb p q ≡ false = ground (arith, other) in
    elim (Bool-cases (is_polling (m.thread q))) [
      | inl polls ↦
          let mine = g.holds q (acts-alive q m.lock.alive here) polls in
          absurd (let k = rw held at mine in ground (arith, differs))
      | inr idle ↦ rw idle (
          after_acquire-Started q m false (acquire q m.lock).0 (acquire q m.lock).1 idle
            ((acquire-refines q m.lock g.spec g.sim here (some p) held).0 ∙ differs))
    ]

release-alive : (p : ℕ) (s : System) → (release p s).alive ≡ s.alive
unfolding release unlock cleanup_stale close_lock
release-alive p s = elim (Bool-cases (s.acquired p)) [
  | inl held ↦ rw held refl
  | inr not_held ↦ rw not_held refl
]

module _ (p q : ℕ) (m : Machine) (g : Guarded m) (here : acts p m.lock.alive ≡ true)
    (polls : is_polling (m.thread p) ≡ true) (there : acts q m.lock.alive ≡ true)
    (other : p ≢ q) where
  mine : is_owner p g.spec.holder ≡ true
  mine = g.holds p (acts-alive p m.lock.alive here) polls

  hands_over : (exits : Bool) → Started q exits (start q (stop p exits m))
  unfolding stop
  hands_over true =
      rw (polls, release_held p m.lock)
        (start_free q _ (record g.spec { holder = without p g.spec.holder })
          (release-Sim p m.lock g.spec g.sim here) (ap (acts q) (release-alive p m.lock) ∙ there)
          (without_owner p g.spec.holder mine))
  hands_over false = rw polls (
      start_held p q (record m { stop_asked = set p true m.stop_asked })
        (record { spec = g.spec; sim = g.sim; holds = g.holds }) there (owned p g.spec.holder mine)
        other)

-- From a state in which no process has opened the lock or started a scheduler, after any starts, stops,
-- ends of threads and kills, for two living processes the first of which has a scheduler that polls:
-- once the first is stopped, a start in the second returns and polls if the stop saw the thread end in
-- time; if the join timed out, it raises and does not poll.
pub stop_hands_over :
    (m : Machine)
    → Fresh m
    → (events : List Event) (p q : ℕ) → acts p (behind events m).lock.alive ≡ true
    → is_polling ((behind events m).thread p) ≡ true
    → acts q (behind events m).lock.alive ≡ true
    → p ≢ q
    → (exits : Bool) → Started q exits (start q (stop p exits (behind events m)))
stop_hands_over m fresh events p q here polls there other =
    hands_over p q (behind events m) (behind-Guarded events m (Fresh-Guarded m fresh)) here polls
      there other
