-- ===== src/Cli/Config/PortMapping.antt =====
-- The port mappings of a service in dockfleet/cli/config.py: _parse_port_mapping. Texts are lists of
-- code points; a digit is an ASCII digit.
pub mod Agree
use dockfleet.Prelude.{
  ℕ, Bool, true, false, not, ◌&&◌, ◌||◌, ◌⊎◌, inl, inr, List, [], ◌∷◌, Option, none, some, codes,
  lower, same_codes, eqb, leb, if◌then◌else◌,
}
use dockfleet.Core.Ports.{split_on, to_int}

-- The errors: the form, the protocol, the range.
pub data PortRefusal : Type 0 where
  bad_format bad_protocol out_of_range : PortRefusal

-- Host address, host port, container port.
abbrev pub PortMapping : Type 0
PortMapping = Option (List ℕ) × ℕ × ℕ

abbrev pub keep_first : ℕ → List ℕ × List ℕ → List ℕ × List ℕ
keep_first c (head, tail) = (c ∷ head, tail)

-- `text.partition(sep)`, without the separator
unfoldable pub partition : ℕ → List ℕ → List ℕ × List ℕ
partition sep [] = ([], [])
partition sep (c ∷ s) =
    let rest = partition sep s in if eqb c sep then ([], s) else keep_first c rest

unfoldable pub is_protocol : List ℕ → Bool
unfolding same_codes lower
is_protocol [] = true
is_protocol (c ∷ s) =
    let name = lower (c ∷ s) in
    same_codes name (codes "tcp") || same_codes name (codes "udp") || same_codes name (codes "sctp")

abbrev pub keep_in_first : ℕ → Option (List ℕ × List ℕ) → Option (List ℕ × List ℕ)
keep_in_first c none = none
keep_in_first c (some (head, tail)) = some (c ∷ head, tail)

-- The address before the closing bracket, and what stands behind it.
unfoldable pub closing : List ℕ → Option (List ℕ × List ℕ)
closing [] = none
closing (c ∷ s) = let rest = closing s in if eqb c b']' then some ([], s) else keep_in_first c rest

unfoldable pub valid_port : ℕ → Bool
valid_port n = leb 1 n && leb n 65535

unfoldable pub in_range : Option (List ℕ) → Option ℕ → Option ℕ → PortRefusal ⊎ PortMapping
unfolding valid_port
in_range ip (some host) (some container) =
    if valid_port host && valid_port container then inr (ip, host, container) else inl out_of_range
in_range ip _ _ = inl bad_format

-- The checks behind the split.
unfoldable pub checked : Option (List ℕ) → List ℕ → List ℕ → PortRefusal ⊎ PortMapping
unfolding in_range to_int
checked (some []) host container = inl bad_format
checked ip host container = in_range ip (to_int host) (to_int container)

unfoldable pub by_parts : List (List ℕ) → PortRefusal ⊎ PortMapping
unfolding checked
by_parts (host ∷ container ∷ []) = checked none host container
by_parts (ip ∷ host ∷ container ∷ []) = checked (some ip) host container
by_parts _ = inl bad_format

unfoldable pub behind_bracket : List ℕ → List ℕ → PortRefusal ⊎ PortMapping
unfolding checked partition
behind_bracket ip [] = inl bad_format
behind_bracket ip (c ∷ s) =
    let (host, container) = partition b':' s in
    if eqb c b':' then checked (some ip) host container else inl bad_format

unfoldable pub bracketed : Option (List ℕ × List ℕ) → PortRefusal ⊎ PortMapping
unfolding behind_bracket
bracketed none = inl bad_format
bracketed (some (ip, rest)) = behind_bracket ip rest

unfoldable pub parse_mapping : List ℕ → PortRefusal ⊎ PortMapping
unfolding by_parts closing bracketed split_on
parse_mapping [] = by_parts (split_on b':' [])
parse_mapping (c ∷ s) =
    if eqb c b'[' then bracketed (closing s) else by_parts (split_on b':' (c ∷ s))

unfoldable pub parse_port_mapping : List ℕ → PortRefusal ⊎ PortMapping
unfolding partition is_protocol parse_mapping
parse_port_mapping port =
    let (mapping, protocol) = partition b'/' port in
    if is_protocol protocol then parse_mapping mapping else inl bad_protocol

-- validate_ports: the first refusal, or the ports as they are
unfoldable pub validate_ports : List (List ℕ) → PortRefusal ⊎ List (List ℕ)
unfolding parse_port_mapping
validate_ports [] = inr []
validate_ports (port ∷ ports) = elim (parse_port_mapping port) [
  | inl refusal ↦ inl refusal
  | inr mapping ↦ elim (validate_ports ports) [
    | inl refusal ↦ inl refusal
    | inr rest ↦ inr (port ∷ rest)
  ]
]
