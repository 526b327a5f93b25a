-- ===== src/Health/Lifecycle/Exclusive.antt =====
-- At most one scheduler polls, and when another can be started.
use dockfleet.Prelude.{
  ℕ, Bool, true, false, not, ◌&&◌, List, [], ◌∷◌, Option, none, some, eqb, eqb_iff, if◌then◌else◌,
  ◌≡◌, ◌∙◌, refl, sym, ap, arith, Bool-cases, inl, inr,
}
use dockfleet.Core.Exec.{Outcome, ok, raised}
use dockfleet.Health.Lock.{System, set, is_owner, acquire, release, crash}
use dockfleet.Health.Lock.Spec.{Spec, acts, returned, without}
use dockfleet.Health.Lock.Refine.{Sim, acquire-refines}
use dockfleet.Health.Lock.Freed.{release-Sim, crash-Sim}
use dockfleet.Health.Lock.Safe.{Unopened, free, free-Sim, one_owner}
use dockfleet.Health.Lifecycle.{
  no_thread, Machine, is_polling, after_acquire, start, stop, Event, starts, stops, thread_ends,
  killed, end_thread, kill, happens, behind,
}

-- The lock is one without files, and a living process whose thread polls holds it.
pub record Guarded (m : Machine) : Type 0 where
  pub spec : Spec
  pub sim : Sim m.lock spec
  pub holds :
      (q : ℕ)
      → m.lock.alive q ≡ true
      → is_polling (m.thread q) ≡ true
      → is_owner q spec.holder ≡ true

-- No process has opened the lock or started a scheduler.
pub record Fresh (m : Machine) : Type 0 where
  pub unopened : Unopened m.lock
  pub no_threads : (q : ℕ) → is_polling (m.thread q) ≡ false

pub Fresh-Guarded : (m : Machine) → Fresh m → Guarded m
Fresh-Guarded m h = record {
  spec = free m.lock;
  sim = free-Sim m.lock h.unopened;
  holds = λ q lives polls. ground (arith, h.no_threads q);
}

other_keeps :
    (p q : ℕ) (holder : Option ℕ)
    → eqb q p ≡ false
    → is_owner q holder ≡ true
    → is_owner q (without p holder) ≡ true
unfolding is_owner without
other_keeps p q none other h = h
other_keeps p q (some r) other h = ground arith

-- The release under `is_held` is the release.
pub release_held : (p : ℕ) (s : System) → (if s.acquired p then release p s else s) ≡ release p s
unfolding release
release_held p s = elim (Bool-cases (s.acquired p)) [
  | inl held ↦ rw held refl
  | inr free ↦ rw free refl
]

module _ (p : ℕ) (m : Machine) (g : Guarded m) (here : acts p m.lock.alive ≡ true) where
  acquired_into :
      (r : Outcome (Unit {0})) (lock : System) (a : Spec)
      → Sim lock a
      → a.living ≡ g.spec.living
      → (returned r ≡ true → is_owner p a.holder ≡ true)
      → ((q : ℕ) → is_owner q g.spec.holder ≡ true → is_owner q a.holder ≡ true)
      → Guarded (after_acquire p m (r, lock)).1
  unfolding set
  acquired_into (ok done) lock a sim living mine keeps = record {
    spec = a;
    sim = sim;
    holds = λ q lives polls. elim (Bool-cases (eqb q p)) [
      | inl same ↦ ap (λ k. is_owner k a.holder) ((eqb_iff q p).0 same) ∙ mine refl
      | inr other ↦ keeps q (
          g.holds q (ap (λ f. f q) (g.sim.living ∙ sym (sim.living ∙ living)) ∙ lives)
            (ground (arith, other, polls)))
    ];
  }
  acquired_into (raised e) lock a sim living mine keeps = record {
    spec = a;
    sim = sim;
    holds = λ q lives polls.
        keeps q
          (g.holds q (ap (λ f. f q) (g.sim.living ∙ sym (sim.living ∙ living)) ∙ lives) polls);
  }

  after_acquire-Guarded :
      (holder : Option ℕ)
      → g.spec.holder ≡ holder
      → Guarded (after_acquire p m (acquire p m.lock)).1
  unfolding is_owner
  after_acquire-Guarded none e =
      let (returns, sim) = acquire-refines p m.lock g.spec g.sim here none e in
      acquired_into (acquire p m.lock).0 (acquire p m.lock).1 (record g.spec { holder = some p })
        sim refl (λ returned. ground arith) (λ q h. let k = rw e at h in cc)
  after_acquire-Guarded (some h) e =
      let (returns, sim) = acquire-refines p m.lock g.spec g.sim here (some h) e in
      acquired_into (acquire p m.lock).0 (acquire p m.lock).1 g.spec sim refl
        (λ works. rw e (sym returns ∙ works)) (λ q k. k)

  pub start-Guarded : Guarded (start p m).1
  unfolding start
  start-Guarded = elim (Bool-cases (is_polling (m.thread p))) [
    | inl polls ↦ rw polls g
    | inr idle ↦ rw idle (after_acquire-Guarded g.spec.holder refl)
  ]

  stopped-Guarded :
      (asked : ℕ → Bool)
      → Guarded (record {
        lock = release p m.lock;
        thread = set p no_thread m.thread;
        stop_asked = asked;
      })
  unfolding set
  stopped-Guarded asked =
      let sim = release-Sim p m.lock g.spec g.sim here in
      record {
        spec = record g.spec { holder = without p g.spec.holder };
        sim = sim;
        holds = λ q lives polls. elim (Bool-cases (eqb q p)) [
          | inl same ↦ absurd (ground (arith, same, polls))
          | inr other ↦ other_keeps p q g.spec.holder other (
              g.holds q (ap (λ f. f q) (g.sim.living ∙ sym sim.living) ∙ lives)
                (ground (arith, other, polls)))
        ];
      }

  pub stop-Guarded : (exits : Bool) → Guarded (stop p exits m)
  unfolding stop
  stop-Guarded exits = elim (Bool-cases (is_polling (m.thread p) && not exits)) [
    | inl waits ↦ rw waits record { spec = g.spec; sim = g.sim; holds = g.holds }
    | inr gone ↦ rw (gone, release_held p m.lock) (stopped-Guarded (set p true m.stop_asked))
  ]

  end_thread-Guarded : Guarded (end_thread p m)
  unfolding end_thread set
  end_thread-Guarded = elim (Bool-cases (is_polling (m.thread p))) [
    | inl polls ↦ rw polls record {
      spec = g.spec;
      sim = g.sim;
      holds = λ q lives still. elim (Bool-cases (eqb q p)) [
        | inl same ↦ absurd (ground (arith, same, still))
        | inr other ↦ g.holds q lives (ground (arith, other, still))
      ];
    }
    | inr idle ↦ rw idle g
  ]

  kill-Guarded : Guarded (kill p m)
  unfolding kill set crash
  kill-Guarded = record {
    spec = record { holder = without p g.spec.holder; living = set p false g.spec.living };
    sim = crash-Sim p m.lock g.spec g.sim here;
    holds = λ q living polls. elim (Bool-cases (eqb q p)) [
      | inl same ↦ absurd (ground (arith, same, polls))
      | inr other ↦
          other_keeps p q g.spec.holder other
            (g.holds q (ground (arith, other, living)) (ground (arith, other, polls)))
    ];
  }

happens-Guarded : (e : Event) (m : Machine) → Guarded m → Guarded (happens e m)
unfolding happens
happens-Guarded (starts p) m g = elim (Bool-cases (acts p m.lock.alive)) [
  | inl here ↦ rw here (start-Guarded p m g here)
  | inr away ↦ rw away g
]
happens-Guarded (stops p exits) m g = elim (Bool-cases (acts p m.lock.alive)) [
  | inl here ↦ rw here (stop-Guarded p m g here exits)
  | inr away ↦ rw away g
]
happens-Guarded (thread_ends p) m g = elim (Bool-cases (acts p m.lock.alive)) [
  | inl here ↦ rw here (end_thread-Guarded p m g here)
  | inr away ↦ rw away g
]
happens-Guarded (killed p) m g = elim (Bool-cases (acts p m.lock.alive)) [
  | inl here ↦ rw here (kill-Guarded p m g here)
  | inr away ↦ rw away g
]

pub behind-Guarded : (events : List Event) (m : Machine) → Guarded m → Guarded (behind events m)
unfolding behind
behind-Guarded [] m g = g
behind-Guarded (e ∷ events) m g = behind-Guarded events (happens e m) (happens-Guarded e m g)

-- From a state in which no process has opened the lock or started a scheduler: however schedulers are
-- started and stopped, also with a join that times out, and however threads end by themselves and
-- processes are killed, one after the other, two living processes whose scheduler threads poll are the
-- same.
pub one_scheduler_polls :
    (m : Machine)
    → Fresh m
    → (events : List Event) (p q : ℕ) → (behind events m).lock.alive p ≡ true
    → is_polling ((behind events m).thread p) ≡ true
    → (behind events m).lock.alive q ≡ true
    → is_polling ((behind events m).thread q) ≡ true
    → p ≡ q
one_scheduler_polls m fresh events p q here mine there theirs =
    let g = behind-Guarded events m (Fresh-Guarded m fresh) in
    one_owner p q g.spec.holder (g.holds p here mine) (g.holds q there theirs)
