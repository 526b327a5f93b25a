-- ===== src/Cli/Config/Fields.antt =====
-- The validators of the environment and of the health check in dockfleet/cli/config.py. What YAML gives
-- is told apart as far as they do; a number or a truth value comes with its text.
pub mod Flags
use dockfleet.Prelude.{
  ℕ, String, ◌==◌, Bool, true, false, not, ◌&&◌, ◌||◌, List, [], ◌∷◌, Option, none, some, Dict, put,
  if◌then◌else◌, leb, codes, same_codes, lower, contains,
}
use dockfleet.Core.Exec.{Outcome, ok, raised}
use dockfleet.Cli.Config.{HealthCheckConfig, Environment, pairs, mapping}

-- A value of YAML: null, a text, a number or a truth value, or one that holds others.
pub data Value : Type 0 where
  null : Value
  text : String → Value
  scalar : String → Value
  compound : Value

-- A key, by its text and its truth.
pub record Key : Type 0 where
  pub shown : String
  pub is_truthy : Bool

pub data RawEnvironment : Type 0 where
  missing : RawEnvironment
  items : List Value → RawEnvironment
  entries : List (Key × Value) → RawEnvironment
  neither : RawEnvironment

unfoldable pub has_equals : String → Bool
unfolding contains
has_equals item = contains (codes "=") (codes item)

abbrev pub with_item : String → Outcome (List String) → Outcome (List String)
with_item item (ok rest) = ok (item ∷ rest)
with_item item (raised e) = raised e

-- The loop over a list.
unfoldable pub check_items : List Value → Outcome (List String)
unfolding has_equals
check_items [] = ok []
check_items (text item ∷ rest) =
    let checked = with_item item (check_items rest) in
    if has_equals item then checked else raised "Invalid environment entry, expected KEY=VALUE"
check_items (other ∷ rest) = raised "Invalid environment entry, expected KEY=VALUE"

-- `str(v)` of a value that is let through
unfoldable pub as_text : Value → Option String
as_text null = some ""
as_text (text s) = some s
as_text (scalar s) = some s
as_text compound = none

-- The loop over a dictionary, with what has been converted.
unfoldable pub convert : List (Key × Value) → Dict String → Outcome (Dict String)
unfolding as_text put
convert [] converted = ok converted
convert ((key, value) ∷ rest) converted = elim (as_text value) [
  | none ↦ raised "Invalid environment dict format"
  | some shown ↦
      let others = convert rest (put key.shown shown converted) in
      if key.is_truthy then others else raised "Invalid environment dict format"
]

abbrev pub to_pairs : Outcome (List String) → Outcome (Option Environment)
to_pairs (ok list) = ok (some (pairs list))
to_pairs (raised e) = raised e

abbrev pub to_mapping : Outcome (Dict String) → Outcome (Option Environment)
to_mapping (ok dict) = ok (some (mapping dict))
to_mapping (raised e) = raised e

unfoldable pub validate_environment : RawEnvironment → Outcome (Option Environment)
unfolding check_items convert
validate_environment missing = ok none
validate_environment (items values) = to_pairs (check_items values)
validate_environment (entries es) = to_mapping (convert es [])
validate_environment neither = raised "Invalid environment format, expected list or dict"

-- validate_healthcheck, behind that of the interval; `type` is a text.
unfoldable pub needs_endpoint : String → Bool
unfolding same_codes lower
needs_endpoint type =
    same_codes (lower (codes type)) (codes "http") || same_codes (lower (codes type)) (codes "tcp")

abbrev pub is_given : Option String → Bool
is_given none = false
is_given (some endpoint) = not (endpoint == "")

abbrev pub check_interval : HealthCheckConfig → Option ℕ → Outcome (Option HealthCheckConfig)
unfolding needs_endpoint
check_interval hc none = raised "healthcheck.interval is required"
check_interval hc (some interval) =
    if leb interval 0
    then raised "healthcheck.interval must be greater than 0"
    else if needs_endpoint hc.type && not (is_given hc.endpoint)
    then raised "healthcheck.endpoint is required"
    else ok (some hc)

unfoldable pub validate_healthcheck : Option HealthCheckConfig → Outcome (Option HealthCheckConfig)
unfolding check_interval
validate_healthcheck none = ok none
validate_healthcheck (some hc) = check_interval hc hc.interval
