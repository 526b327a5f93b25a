-- ===== src/Core/Ports/Wait.antt =====
-- How long the wait for ports takes.
use dockfleet.Prelude.{
  ℕ, zero, suc, ◌+◌, ◌*◌, ◌-◌, ◌≤◌, ◌≡◌, refl, Bool, true, false, not, ◌||◌, List, [], ◌∷◌, arith,
  ltb, leb, if◌then◌else◌, length, ◌<◌, Bool-cases, inl, inr,
}
use native.Mathlib.Nat.{le_refl}
use dockfleet.Core.Exec.{
  World, Node, Exec, Outcome, ok, raised, pure, raise, gets, ◌>>=◌, ◌>>◌, sleep, ask, then_do,
}
use dockfleet.Core.Exec.Keeps.{Keeps, keeps_rules, Keeps-bind, Keeps-if, Keeps-pure}
use dockfleet.Core.Ports.{
  Binding, is_port_released, all_released, poll_interval, poll, poll_fuel, wait_for_ports_released,
}

abbrev After : ℕ → Node → Type 0
After t s = t ≤ s.now

module _ (world : World) (t : ℕ) where
  is_port_released-After : (b : Binding) → Keeps (After t) (is_port_released world b)
  unfolding is_port_released ask raise
  is_port_released-After (host, port) = elim (Bool-cases (leb port 65535)) [
    | inl valid ↦ rw (valid, is_port_released) (record { at = λ s h. ground arith })
    | inr wrong ↦ rw (wrong, is_port_released) (record { at = λ s h. h })
  ]

  all_released-After : (bindings : List Binding) → Keeps (After t) (all_released world bindings)
  unfolding all_released
  all_released-After [] = search keeps_rules
  all_released-After (b ∷ bindings) =
      Keeps-bind (is_port_released world b) _ (is_port_released-After b)
        (λ free. Keeps-if free _ _ (all_released-After bindings) (Keeps-pure false))

module _ (world : World) where
  -- A turn that starts when the time is up has the result of its try.
  time_up :
      (tried : Outcome Bool × Node) (left : Bool)
      → left ≡ false
      → (again : Exec Bool)
      → tried
        ≡ then_do tried.0
            (λ released. if released || not left then pure released else again)
            tried.1
  unfolding pure
  time_up (ok true, s) left h again = refl
  time_up (ok false, s) left h again = rw h refl
  time_up (raised e, s) left h again = refl

  same_turn :
      (tried : Outcome Bool × Node) (left : Bool) (f g : Exec Bool)
      → (left ≡ true → f tried.1 ≡ g tried.1)
      → then_do tried.0 (λ released. if released || not left then pure released else f) tried.1
        ≡ then_do tried.0 (λ released. if released || not left then pure released else g) tried.1
  unfolding pure
  same_turn (ok true, s) left f g h = refl
  same_turn (ok false, s) true f g h = h refl
  same_turn (ok false, s) false f g h = refl
  same_turn (raised e, s) left f g h = refl

  poll-fuel :
      (f g start timeout : ℕ) (bindings : List Binding) (s : Node)
      → f ≤ g
      → start ≤ s.now
      → timeout ≤ (s.now - start) + f * 50
      → poll world f start timeout bindings s ≡ poll world g start timeout bindings s
  unfolding poll ◌>>=◌ gets sleep
  poll-fuel zero zero start timeout bindings s h a b = refl
  poll-fuel zero (suc g) start timeout bindings s h a b =
      let up : ltb (s.now - start) timeout ≡ false = ground arith in
      time_up (all_released world bindings s) (ltb (s.now - start) timeout) up
        (sleep world (poll_interval world) >> poll world g start timeout bindings)
  poll-fuel (suc f) zero start timeout bindings s h a b = absurd (omega arith)
  poll-fuel (suc f) (suc g) start timeout bindings s h a b =
      let s' = (all_released world bindings s).1 in
      let passed : s.now ≤ s'.now =
        (all_released-After world s.now bindings).at s (le_refl s.now) in
      let rested = (sleep world (poll_interval world) s').1 in
      same_turn (all_released world bindings s) (ltb (s.now - start) timeout)
        (sleep world (poll_interval world) >> poll world f start timeout bindings)
        (sleep world (poll_interval world) >> poll world g start timeout bindings)
        (λ left.
          poll-fuel f g start timeout bindings rested (omega arith) (omega arith) (omega arith))

-- How long the questions to the world take at most.
module _ (world : World) (d : ℕ) (quick : (n : ℕ) → world.delay n ≤ d) where
  is_port_released-time : (b : Binding) (s : Node) → (is_port_released world b s).1.now ≤ s.now + d
  unfolding is_port_released ask raise
  is_port_released-time (host, port) s = elim (Bool-cases (leb port 65535)) [
    | inl valid ↦ rw (valid, is_port_released) (omega (arith, quick s.steps))
    | inr wrong ↦ rw (wrong, is_port_released) (omega arith)
  ]

  -- A try, when the time of the first port's try and of the others' is known.
  tried_rest :
      (tried : Outcome Bool × Node) (rest : Exec Bool) (t u : ℕ)
      → tried.1.now ≤ t
      → ((s : Node) → (rest s).1.now ≤ s.now + u)
      → (then_do tried.0 (λ free. if free then rest else pure false) tried.1).1.now ≤ t + u
  unfolding pure
  tried_rest (ok true, s) rest t u h others = omega (arith, others s)
  tried_rest (ok false, s) rest t u h others = omega arith
  tried_rest (raised e, s) rest t u h others = omega arith

  all_released-time :
      (bindings : List Binding) (s : Node)
      → (all_released world bindings s).1.now ≤ s.now + length bindings * d
  unfolding all_released ◌>>=◌ pure
  all_released-time [] s = omega arith
  all_released-time (b ∷ bindings) s =
      let h =
        tried_rest (is_port_released world b s) (all_released world bindings) (s.now + d)
          (length bindings * d) (is_port_released-time b s) (all_released-time bindings) in
      ground (arith, h)

  -- A turn ends with its try, or it goes on, which it does only before the time is up.
  turn_time :
      (tried : Outcome Bool × Node) (left : Bool) (again : Exec Bool) (t : ℕ)
      → tried.1.now ≤ t
      → (left ≡ true → (again tried.1).1.now ≤ t)
      → (then_do tried.0
          (λ released. if released || not left then pure released else again)
          tried.1).1.now
        ≤ t
  unfolding pure
  turn_time (ok true, s) left again t h go = h
  turn_time (ok false, s) true again t h go = go refl
  turn_time (ok false, s) false again t h go = h
  turn_time (raised e, s) left again t h go = h

  poll-time :
      (fuel start timeout : ℕ) (bindings : List Binding) (s : Node)
      → start ≤ s.now
      → s.now ≤ start + timeout + length bindings * d + 50 + d
      → (poll world fuel start timeout bindings s).1.now
        ≤ start + timeout + length bindings * d + 50 + d + length bindings * d
  unfolding poll ◌>>=◌ gets sleep
  poll-time zero start timeout bindings s low high =
      let h = all_released-time bindings s in omega arith
  poll-time (suc fuel) start timeout bindings s low high =
      let h = all_released-time bindings s in
      let s' = (all_released world bindings s).1 in
      let passed : s.now ≤ s'.now =
        (all_released-After world s.now bindings).at s (le_refl s.now) in
      let rested = (sleep world (poll_interval world) s').1 in
      let quick' = quick s'.steps in
      turn_time (all_released world bindings s) (ltb (s.now - start) timeout)
        (sleep world (poll_interval world) >> poll world fuel start timeout bindings)
        (start + timeout + length bindings * d + 50 + d + length bindings * d) (omega arith)
        (λ left.
          let early : s.now - start < timeout = ground (arith, left) in
          poll-time fuel start timeout bindings rested (omega arith) (omega arith))

-- When no question to the world takes longer than `d`, the wait for the ports of at least one binding is
-- over, with a result or with the error on a number that is no port, by the timeout, one pause of 50 ms
-- with the delay `d`, and two tries of all ports, each of `d` for a port. And the number of turns that
-- the model gives the loop cuts nothing off: with any larger one, result and state are the same.
pub wait_ends :
    (world : World) (d : ℕ) (quick : (n : ℕ) → world.delay n ≤ d) (b : Binding)
    (bindings : List Binding) (timeout fuel : ℕ) (s : Node)
    → poll_fuel world timeout ≤ fuel
    → ((wait_for_ports_released world (b ∷ bindings) timeout s).1.now
        ≤ s.now + timeout + 50 + d + 2 * (length (b ∷ bindings) * d))
      × (wait_for_ports_released world (b ∷ bindings) timeout s
          ≡ poll world fuel s.now timeout (b ∷ bindings) s)
unfolding wait_for_ports_released gets ◌>>=◌
wait_ends world d quick b bindings timeout fuel s h = (
  (let t =
        poll-time world d quick (poll_fuel world timeout) s.now timeout (b ∷ bindings) s
          (le_refl s.now) (omega arith) in
      omega arith),
  poll-fuel world (poll_fuel world timeout) fuel s.now timeout (b ∷ bindings) s h (le_refl s.now)
      (omega arith),
)
