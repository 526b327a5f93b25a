-- ===== src/Core/Ports.antt =====
-- The host ports of a service in dockfleet/core/orchestrator.py: _extract_host_ports,
-- is_port_released and wait_for_ports_released. Texts are lists of code points; times are thousandths
-- of a second. `int` is given digits only, since the configuration's validator has seen the ports.
pub mod Wait
use dockfleet.Prelude.{
  ℕ, zero, suc, ◌+◌, ◌*◌, ◌-◌, ◌/◌, String, Bool, true, false, not, ◌&&◌, ◌||◌, List, [], ◌∷◌, ◌++◌,
  Option, none, some, codes, strip, eqb, leb, ltb, if◌then◌else◌,
}
use dockfleet.Cli.Config.{ServiceConfig}
use dockfleet.Core.Docker.{ports_or_empty}
use dockfleet.Core.Exec.{World, Exec, pure, raise, gets, ◌>>=◌, ◌>>◌, sleep, ask}

abbrev pub first_part : ℕ → ℕ → List (List ℕ) → List (List ℕ)
first_part sep c [] = (c ∷ []) ∷ []
first_part sep c (part ∷ parts) = if eqb c sep then [] ∷ part ∷ parts else (c ∷ part) ∷ parts

-- `text.split(sep)`
unfoldable pub split_on : ℕ → List ℕ → List (List ℕ)
split_on sep [] = [] ∷ []
split_on sep (c ∷ s) = first_part sep c (split_on sep s)

abbrev pub head_part : List (List ℕ) → List ℕ
head_part [] = []
head_part (part ∷ parts) = part

unfoldable pub all_digits : List ℕ → Bool
all_digits [] = true
all_digits (c ∷ s) = leb b'0' c && leb c b'9' && all_digits s

unfoldable pub digits_value : ℕ → List ℕ → ℕ
digits_value acc [] = acc
digits_value acc (c ∷ s) = digits_value (acc * 10 + (c - b'0')) s

-- `int(text)`; `none` is a ValueError
unfoldable pub to_int : List ℕ → Option ℕ
unfolding all_digits digits_value
to_int [] = none
to_int (c ∷ s) = if all_digits (c ∷ s) then some (digits_value 0 (c ∷ s)) else none

-- A host address and a port.
abbrev pub Binding : Type 0
Binding = List ℕ × ℕ

abbrev pub bound : List ℕ → Option ℕ → List Binding
bound host none = []
bound host (some port) = (host, port) ∷ []

abbrev pub any_host : List ℕ
any_host = codes "0.0.0.0"

unfoldable pub has : ℕ → List ℕ → Bool
has c [] = false
has c (d ∷ s) = if eqb d c then true else has c s

-- The three lengths of `parts` that the loop tells apart.
unfoldable pub binding_of : List (List ℕ) → List Binding
unfolding to_int has
binding_of (address ∷ port ∷ []) = if has b'.' address then [] else bound any_host (to_int address)
binding_of ([] ∷ [] ∷ container ∷ []) = []
binding_of ([] ∷ (c ∷ port) ∷ container ∷ []) = bound any_host (to_int (c ∷ port))
binding_of ((c ∷ ip) ∷ [] ∷ container ∷ []) = []
binding_of ((c ∷ ip) ∷ (d ∷ port) ∷ container ∷ []) = bound (c ∷ ip) (to_int (d ∷ port))
binding_of _ = []

-- One turn of the loop.
unfoldable pub host_port : String → List Binding
unfolding binding_of split_on strip
host_port port = elim (strip (codes port)) [
  | [] ↦ []
  | c ∷ s ↦ binding_of (split_on b':' (head_part (split_on b'/' (c ∷ s))))
]

unfoldable pub host_ports : List String → List Binding
unfolding host_port
host_ports [] = []
host_ports (port ∷ ports) = host_port port ++ host_ports ports

unfoldable pub extract_host_ports : ServiceConfig → List Binding
unfolding host_ports
extract_host_ports svc = host_ports (ports_or_empty svc.ports)

module _ (world : World) where
  -- `s.bind` raises an OverflowError for a number that is no port
  unfoldable pub is_port_released : Binding → Exec Bool
  is_port_released (host, port) =
      if leb port 65535
      then ask world (λ step. world.can_bind step host port)
      else raise "OverflowError"

  -- `all(...)`, which stops at the first port that is not free
  unfoldable pub all_released : List Binding → Exec Bool
  all_released [] = pure true
  all_released (b ∷ bindings) = do
    free ← is_port_released b
    if free then all_released bindings else pure false

  abbrev pub poll_interval : ℕ
  poll_interval = 50

  -- The `while` loop and the line behind it: each turn reads the clock and tries the ports; when
  -- the time is up, that try is the one behind the loop.
  unfoldable pub poll : ℕ → ℕ → ℕ → List Binding → Exec Bool
  poll zero start timeout bindings = all_released bindings
  poll (suc fuel) start timeout bindings = do
    now ← gets (λ s. s.now)
    released ← all_released bindings
    if released || not (ltb (now - start) timeout)
        then pure released
        else do sleep world poll_interval; poll fuel start timeout bindings

  -- As many turns as fit into the timeout, and one more.
  abbrev pub poll_fuel : ℕ → ℕ
  poll_fuel timeout = suc (timeout / poll_interval)

  unfoldable pub wait_for_ports_released : List Binding → ℕ → Exec Bool
  wait_for_ports_released [] timeout = pure true
  wait_for_ports_released (b ∷ bindings) timeout = do
    start ← gets (λ s. s.now)
    poll (poll_fuel timeout) start timeout (b ∷ bindings)
