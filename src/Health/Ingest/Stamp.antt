-- ===== src/Health/Ingest/Stamp.antt =====
-- _parse_docker_timestamp in dockfleet/health/log_ingestor.py. Texts are lists of code points, and a
-- digit is an ASCII digit. `fromisoformat` is that of datetime, with the time zone applied: its result is
-- a point in time, UTC where the text names no zone, and `none` where it raises.
pub mod Form
use dockfleet.Prelude.{
  ℕ, zero, suc, ◌+◌, ◌-◌, String, Bool, true, false, ◌&&◌, ◌||◌, List, [], ◌∷◌, ◌++◌, Option, none,
  some, codes, eqb, leb, if◌then◌else◌, length, take, replicate,
}

-- The places of the expression before the fraction.
pub data Place : Type 0 where
  digit : Place
  just : ℕ → Place
  t_or_space : Place

unfoldable pub is_digit : ℕ → Bool
is_digit c = leb b'0' c && leb c b'9'

unfoldable pub fits : Place → ℕ → Bool
unfolding is_digit
fits digit c = is_digit c
fits (just d) c = eqb c d
fits t_or_space c = eqb c b'T' || eqb c 32

abbrev pub date_time : List Place
date_time =
    digit
    ∷ digit
    ∷ digit
    ∷ digit
    ∷ just b'-'
    ∷ digit
    ∷ digit
    ∷ just b'-'
    ∷ digit
    ∷ digit
    ∷ t_or_space
    ∷ digit
    ∷ digit
    ∷ just b':'
    ∷ digit
    ∷ digit
    ∷ just b':'
    ∷ digit
    ∷ digit
    ∷ []

-- `base.replace(" ", "T")`
unfoldable pub with_t : ℕ → ℕ
with_t c = if eqb c 32 then b'T' else c

abbrev pub keep_head : ℕ → Option (List ℕ × List ℕ) → Option (List ℕ × List ℕ)
keep_head c none = none
keep_head c (some (head, rest)) = some (c ∷ head, rest)

-- The first group, and what stands behind it.
unfoldable pub match_places : List Place → List ℕ → Option (List ℕ × List ℕ)
unfolding fits with_t
match_places [] s = some ([], s)
match_places (p ∷ ps) [] = none
match_places (p ∷ ps) (c ∷ s) =
    let rest = match_places ps s in if fits p c then keep_head (with_t c) rest else none

-- The digits at the beginning, and the rest.
abbrev pub keep_digit : ℕ → List ℕ × List ℕ → List ℕ × List ℕ
keep_digit c (digits, rest) = (c ∷ digits, rest)

unfoldable pub span_digits : List ℕ → List ℕ × List ℕ
unfolding is_digit
span_digits [] = ([], [])
span_digits (c ∷ s) =
    let rest = span_digits s in if is_digit c then keep_digit c rest else ([], c ∷ s)

-- `frac[:6].ljust(6, "0")`
unfoldable pub micros : List ℕ → List ℕ
micros digits = take 6 digits ++ replicate (6 - length (take 6 digits)) b'0'

-- The third group, with the colon that `fromisoformat` wants; `none` where the expression does not match.
unfoldable pub zone : List ℕ → Option (List ℕ)
unfolding is_digit
zone [] = some (codes "+00:00")
zone (c ∷ []) = if eqb c b'Z' then some (codes "+00:00") else none
zone (c ∷ h ∷ i ∷ m ∷ n ∷ []) =
    if (eqb c b'+' || eqb c b'-') && is_digit h && is_digit i && is_digit m && is_digit n
    then some (c ∷ h ∷ i ∷ b':' ∷ m ∷ n ∷ [])
    else none
zone (c ∷ h ∷ i ∷ d ∷ m ∷ n ∷ []) =
    if (eqb c b'+' || eqb c b'-')
      && is_digit h
      && is_digit i
      && eqb d b':'
      && is_digit m
      && is_digit n
    then some (c ∷ h ∷ i ∷ d ∷ m ∷ n ∷ [])
    else none
zone _ = none

abbrev pub append_zone : List ℕ → Option (List ℕ) → Option (List ℕ)
append_zone base none = none
append_zone base (some tz) = some (base ++ tz)

-- The fraction, if a digit stands behind the point.
unfoldable pub with_fraction : List ℕ → List ℕ × List ℕ → Option (List ℕ)
unfolding zone micros
with_fraction base ([], rest) = none
with_fraction base (d ∷ digits, rest) = append_zone (base ++ b'.' ∷ micros (d ∷ digits)) (zone rest)

unfoldable pub behind_base : List ℕ → List ℕ → Option (List ℕ)
unfolding zone with_fraction span_digits
behind_base base [] = append_zone base (zone [])
behind_base base (c ∷ s) =
    if eqb c b'.' then with_fraction base (span_digits s) else append_zone base (zone (c ∷ s))

unfoldable pub on_base : Option (List ℕ × List ℕ) → Option (List ℕ)
unfolding behind_base
on_base none = none
on_base (some (base, rest)) = behind_base base rest

-- What the first block hands to `fromisoformat`, if the expression matches.
unfoldable pub normal_form : List ℕ → Option (List ℕ)
unfolding on_base match_places
normal_form ts = on_base (match_places date_time ts)

module _ (fromisoformat : List ℕ → Option ℕ) where
  -- The second block, where the first gives nothing.
  abbrev pub or_parse : List ℕ → Option ℕ → Option ℕ
  or_parse ts none = fromisoformat ts
  or_parse ts (some t) = some t

  abbrev pub first_try : Option (List ℕ) → Option ℕ
  first_try none = none
  first_try (some base) = fromisoformat base

  unfoldable pub parse_text : List ℕ → Option ℕ
  unfolding normal_form
  parse_text [] = none
  parse_text (c ∷ s) = or_parse (c ∷ s) (first_try (normal_form (c ∷ s)))

  unfoldable pub parse_docker_timestamp : String → Option ℕ
  unfolding parse_text
  parse_docker_timestamp ts = parse_text (codes ts)
