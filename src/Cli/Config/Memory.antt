-- ===== src/Cli/Config/Memory.antt =====
-- ResourcesConfig.validate_memory in dockfleet/cli/config.py, with its regular expression on ASCII text.
-- The value has been read as a text.
pub mod Grammar
use dockfleet.Prelude.{
  ℕ, String, Bool, true, false, not, ◌&&◌, ◌||◌, List, [], ◌∷◌, map, Option, none, some,
  if◌then◌else◌, eqb, leb, codes, same_codes, lower, strip, strip_text,
}
use dockfleet.Core.Exec.{Outcome, ok, raised}

-- `\d`
unfoldable pub is_number : ℕ → Bool
is_number c = leb b'0' c && leb c b'9'

-- The text behind the digits at its start.
unfoldable pub behind_numbers : List ℕ → List ℕ
unfolding is_number
behind_numbers [] = []
behind_numbers (c ∷ s) = let rest = behind_numbers s in if is_number c then rest else c ∷ s

-- The text behind `\d+`
unfoldable pub some_numbers : List ℕ → Option (List ℕ)
unfolding behind_numbers is_number
some_numbers [] = none
some_numbers (c ∷ s) = if is_number c then some (behind_numbers s) else none

unfoldable pub units : List (List ℕ)
units =
    map codes
      ("b" ∷ "k" ∷ "m" ∷ "g" ∷ "t" ∷ "kb" ∷ "mb" ∷ "gb" ∷ "tb" ∷ "kib" ∷ "mib" ∷ "gib" ∷ "tib" ∷ [])

unfoldable pub is_one_of : List (List ℕ) → List ℕ → Bool
unfolding same_codes
is_one_of [] s = false
is_one_of (u ∷ us) s = same_codes u s || is_one_of us s

-- `(?:b|k|…|tib)?$`
unfoldable pub ends_in_unit : List ℕ → Bool
unfolding is_one_of units
ends_in_unit [] = true
ends_in_unit (c ∷ s) = is_one_of units (c ∷ s)

unfoldable pub unit_behind : Option (List ℕ) → Bool
unfolding ends_in_unit
unit_behind none = false
unit_behind (some rest) = ends_in_unit rest

-- `(?:\.\d+)?` and the rest, behind the first digits
unfoldable pub with_decimals : List ℕ → Bool
unfolding some_numbers ends_in_unit unit_behind
with_decimals [] = true
with_decimals (c ∷ s) = if eqb c b'.' then unit_behind (some_numbers s) else ends_in_unit (c ∷ s)

-- `\.\d+` and the rest
unfoldable pub from_point : List ℕ → Bool
unfolding some_numbers unit_behind
from_point [] = false
from_point (c ∷ s) = if eqb c b'.' then unit_behind (some_numbers s) else false

-- `re.match`
unfoldable pub matches_memory : List ℕ → Bool
unfolding some_numbers with_decimals from_point
matches_memory s = elim (some_numbers s) [ some rest ↦ with_decimals rest | none ↦ from_point s ]

unfoldable pub validate_memory : Option String → Outcome (Option String)
unfolding matches_memory strip_text lower
validate_memory none = ok none
validate_memory (some value) =
    if matches_memory (lower (codes (strip_text value)))
    then ok (some (strip_text value))
    else raised "invalid memory limit (expected like 512m, 512mb, 1g, 1gb)"
