-- ===== src/Examples/PortMappings.antt =====
-- The theorems on port mappings at concrete ones.
use dockfleet.Prelude.{
  ◌≡◌, refl, inr, [], ◌∷◌, some, codes, strip, rstrip, lstrip, is_space, lower, same_codes,
}
use dockfleet.Core.Ports.{host_port, binding_of, split_on, to_int, all_digits, digits_value, has}
use dockfleet.Cli.Config.PortMapping.{
  parse_port_mapping, partition, is_protocol, parse_mapping, by_parts, checked, in_range,
  valid_port, bracketed, behind_bracket, closing,
}
use dockfleet.Cli.Config.PortMapping.Agree.{ports_agree}

local_mapping :
    parse_port_mapping (codes "127.0.0.1:8080:80/tcp") ≡ inr (some (codes "127.0.0.1"), 8080, 80)
unfolding parse_port_mapping partition is_protocol parse_mapping by_parts checked in_range
    valid_port bracketed behind_bracket closing split_on to_int all_digits digits_value lower
    same_codes
local_mapping = refl

ports_agree_example : host_port "127.0.0.1:8080:80/tcp" ≡ (codes "127.0.0.1", 8080) ∷ []
unfolding strip rstrip lstrip is_space
ports_agree_example =
    ports_agree "127.0.0.1:8080:80/tcp" (some (codes "127.0.0.1"), 8080, 80) refl refl local_mapping

-- A mapping with an address in brackets is accepted, and its port is not waited for.
bracketed_mapping :
    (parse_port_mapping (codes "[::1]:8080:80") ≡ inr (some (codes "::1"), 8080, 80))
    × (host_port "[::1]:8080:80" ≡ [])
unfolding parse_port_mapping partition is_protocol parse_mapping by_parts checked in_range
    valid_port bracketed behind_bracket closing split_on to_int all_digits digits_value lower
    same_codes host_port binding_of strip rstrip lstrip is_space has
bracketed_mapping = (refl, refl)
