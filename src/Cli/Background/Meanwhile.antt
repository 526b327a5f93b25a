-- ===== src/Cli/Background/Meanwhile.antt =====
-- What becomes of a scheduler that was signalled, and of the files, while the restart command works.
use dockfleet.Prelude.{
  ℕ, Bool, true, false, not, ap, ◌&&◌, List, [], ◌∷◌, Option, none, some, map, ◌≡◌, ◌≢◌, ◌∙◌, refl,
  arith, Bool-cases, inl, inr,
}
use dockfleet.Health.Lock.{set, closed, close_lock, cleanup_stale, unlock, release, crash}
use dockfleet.Health.Lock.Spec.{acts}
use dockfleet.Health.Lifecycle.{
  Machine, is_polling, Event, stops, thread_ends, killed, stop, end_thread, kill, happens, behind,
}

-- How a process winds up: its scheduler is stopped, where the join may time out, its thread ends, or it
-- is killed.
pub data WindsUp : Type 0 where
  stopped : Bool → WindsUp
  thread_over dies : WindsUp

abbrev pub event_of : ℕ → WindsUp → Event
event_of p (stopped exits) = stops p exits
event_of p thread_over = thread_ends p
event_of p dies = killed p

-- None of these ends the thread.
unfoldable pub lasts : List WindsUp → Bool
lasts [] = true
lasts (stopped false ∷ rest) = lasts rest
lasts (stopped true ∷ rest) = false
lasts (thread_over ∷ rest) = false
lasts (dies ∷ rest) = false

-- The process `q` has no open file and no thread, and a file that it creates is locked by nobody.
pub record Ready (q : ℕ) (m : Machine) : Type 0 where
  pub shut : m.lock.fd q ≡ none
  pub unused : m.lock.owner m.lock.next_inode ≡ none
  pub nameless : m.lock.lock_file ≡ none
  pub idle : is_polling (m.thread q) ≡ false

pub still_unowned :
    (o : Option ℕ) (p : ℕ) (owner : ℕ → Option ℕ) (j : ℕ)
    → owner j ≡ none
    → closed o p owner j ≡ none
unfolding closed
still_unowned none p owner j h = h
still_unowned (some i) p owner j h = rw h (ground arith)

module _ (p q : ℕ) (other : p ≢ q) where
  kill-Ready : (m : Machine) → Ready q m → Ready q (kill p m)
  unfolding kill crash close_lock set
  kill-Ready m r = record {
    shut = ground (arith, other, r.shut);
    unused = still_unowned (m.lock.fd p) p m.lock.owner _ r.unused;
    nameless = r.nameless;
    idle = ground (arith, other, r.idle);
  }

  end_thread-Ready : (m : Machine) → Ready q m → Ready q (end_thread p m)
  unfolding end_thread set
  end_thread-Ready m r = elim (Bool-cases (is_polling (m.thread p))) [
    | inl polls ↦ rw polls record {
      shut = r.shut;
      unused = r.unused;
      nameless = r.nameless;
      idle = ground (arith, other, r.idle);
    }
    | inr over ↦ rw over r
  ]

  stop-Ready : (exits : Bool) (m : Machine) → Ready q m → Ready q (stop p exits m)
  unfolding stop release unlock cleanup_stale close_lock set
  stop-Ready exits m r = elim (Bool-cases (is_polling (m.thread p) && not exits)) [
    | inl waits ↦
        rw waits record { shut = r.shut; unused = r.unused; nameless = r.nameless; idle = r.idle }
    | inr gone ↦ elim (Bool-cases (m.lock.acquired p)) [
      | inl held ↦
          rw (gone, held)
            record {
              shut = ground (arith, other, r.shut);
              unused = still_unowned (m.lock.fd p) p m.lock.owner _ r.unused;
              nameless = refl;
              idle = ground (arith, other, r.idle);
            }
      | inr not_held ↦
          rw (gone, not_held)
            record {
              shut = r.shut;
              unused = r.unused;
              nameless = r.nameless;
              idle = ground (arith, other, r.idle);
            }
    ]
  ]

  happens-Ready : (e : WindsUp) (m : Machine) → Ready q m → Ready q (happens (event_of p e) m)
  unfolding happens
  happens-Ready e m r = elim (Bool-cases (acts p m.lock.alive)) [
    | inr away ↦ go_away e away
    | inl here ↦ go e here
  ]
    where
      go_away : (e : WindsUp) → acts p m.lock.alive ≡ false → Ready q (happens (event_of p e) m)
      go_away (stopped exits) away = rw away r
      go_away thread_over away = rw away r
      go_away dies away = rw away r

      go : (e : WindsUp) → acts p m.lock.alive ≡ true → Ready q (happens (event_of p e) m)
      go (stopped exits) here = rw here (stop-Ready exits m r)
      go thread_over here = rw here (end_thread-Ready m r)
      go dies here = rw here (kill-Ready m r)

  pub behind-Ready :
      (es : List WindsUp) (m : Machine) → Ready q m → Ready q (behind (map (event_of p) es) m)
  unfolding behind
  behind-Ready [] m r = r
  behind-Ready (e ∷ es) m r = behind-Ready es (happens (event_of p e) m) (happens-Ready e m r)

module _ (p : ℕ) where
  stays_idle :
      (e : WindsUp) (m : Machine)
      → is_polling (m.thread p) ≡ false
      → is_polling ((happens (event_of p e) m).thread p) ≡ false
  unfolding happens stop end_thread kill set
  stays_idle (stopped exits) m idle = rw idle (ground (arith, idle))
  stays_idle thread_over m idle = rw idle (ground (arith, idle))
  stays_idle dies m idle = ground (arith, idle)

  pub stay_idle :
      (es : List WindsUp) (m : Machine)
      → is_polling (m.thread p) ≡ false
      → is_polling ((behind (map (event_of p) es) m).thread p) ≡ false
  unfolding behind
  stay_idle [] m idle = idle
  stay_idle (e ∷ es) m idle = stay_idle es (happens (event_of p e) m) (stays_idle e m idle)

  waits_on :
      (m : Machine)
      → acts p m.lock.alive ≡ true
      → is_polling (m.thread p) ≡ true
      → happens (stops p false) m ≡ record m { stop_asked = set p true m.stop_asked }
  unfolding happens stop
  waits_on m here polls = rw (here, polls) refl

  -- A thread that polls does so behind the events exactly if they last.
  pub polls_on :
      (es : List WindsUp) (m : Machine)
      → acts p m.lock.alive ≡ true
      → is_polling (m.thread p) ≡ true
      → is_polling ((behind (map (event_of p) es) m).thread p) ≡ lasts es
  unfolding behind lasts happens stop end_thread kill set
  polls_on [] m here polls = polls
  polls_on (stopped false ∷ es) m here polls =
      ap (λ m'. is_polling ((behind (map (event_of p) es) m').thread p)) (waits_on m here polls)
      ∙ polls_on es (record m { stop_asked = set p true m.stop_asked }) here polls
  polls_on (stopped true ∷ es) m here polls =
      stay_idle es (happens (stops p true) m) (rw (here, polls) (ground arith))
  polls_on (thread_over ∷ es) m here polls =
      stay_idle es (happens (thread_ends p) m) (rw (here, polls) (ground arith))
  polls_on (dies ∷ es) m here polls = stay_idle es (happens (killed p) m) (rw here (ground arith))
